-- ===== src/Allocate/Search.antt =====
-- The search of `allocate`: which entry is reused, and that a reuse changes nothing.
use hpc_workspace.Base.{
  ◌≡◌, refl, true, false, ◌&&◌, Option, none, some, List, [], ◌∷◌, ◌++◌, ◌∙◌, All,
}
use hpc_workspace.Base.Text.{Text}
use hpc_workspace.World.{Host, Libs, World, ok, continue, pure, ◌>>=◌}
use hpc_workspace.Workspace.{Workspace, entry_file, exists}
use hpc_workspace.Db.{open_entry, WsDb}
use hpc_workspace.Allocate.{Request, search, search_in, use_entry, entry_user, has_user}

module _ (L : Libs) (h : Host) (s : Workspace) (r : Request) where
  -- The entry that is searched for in a filesystem.
  abbrev pub file_in : Text → Option Text
  file_in fs = entry_file s.config fs (entry_user L h s r) r.name

  -- The filesystem is configured with a database, which has no entry of that name.
  abbrev pub Lacks : World L.File → Text → Type 0
  Lacks w fs = (p : Text) × (file_in fs ≡ some p) × (exists p w.db ≡ false)

  -- The filesystem has an entry of that name.
  abbrev pub Has : World L.File → Text → Text → Type 0
  Has w fs p = (file_in fs ≡ some p) × (exists p w.db ≡ true)

  search-skips :
      (w : World L.File) (fs : Text) (rest : List Text)
      → r.extensionflag && has_user L h s r ≡ false
      → Lacks w fs
      → search L h s r (fs ∷ rest) w ≡ search L h s r rest w
  unfolding search
  search-skips w fs rest plain (p, file, absent) = rw (file, plain, absent, search, search_in) refl

  search-finds :
      (w : World L.File) (fs p : Text) (rest : List Text)
      → Has w fs p
      → search L h s r (fs ∷ rest) w ≡ (use_entry L h s r fs p >>= λ a. pure (some a)) w
  unfolding search
  search-finds w fs p rest (file, there) = rw (file, there, search, search_in) refl

  -- Unless -x and -u are both given, the search uses the entry of the first filesystem that has one:
  -- those before it lack it, and those after it are not looked at.
  pub search-first :
      (w : World L.File) (before : List Text) (fs p : Text) (rest : List Text)
      → r.extensionflag && has_user L h s r ≡ false
      → All (Lacks w) before
      → Has w fs p
      → search L h s r (before ++ (fs ∷ rest)) w ≡ (use_entry L h s r fs p >>= λ a. pure (some a)) w
  search-first w [] fs p rest plain lack has = search-finds w fs p rest has
  search-first w (x ∷ before) fs p rest plain lack has =
      search-skips w x _ plain lack.0 ∙ search-first w before fs p rest plain lack.1 has

  -- And it finds nothing, and changes nothing, if every filesystem lacks the entry.
  pub search-none :
      (w : World L.File) (list : List Text)
      → r.extensionflag && has_user L h s r ≡ false
      → All (Lacks w) list
      → search L h s r list w ≡ (ok none, w)
  unfolding search
  search-none w [] plain lack = refl
  search-none w (fs ∷ list) plain lack =
      search-skips w fs list plain lack.0 ∙ search-none w list plain lack.1

  -- Without -x, the use of an entry changes nothing and reports what the entry holds.
  pub use_entry-reuses :
      (w : World L.File) (fs p : Text) (e : WsDb)
      → r.extensionflag ≡ false
      → open_entry L p s.config.dbuid s.config.dbgid w ≡ (ok e, w)
      → use_entry L h s r fs p w
        ≡ (ok (record { wsdir = e.wsdir; extension = e.extensions; expiration = e.expiration }), w)
  unfolding use_entry
  use_entry-reuses w fs p e plain opened = rw (opened, plain, continue) refl
