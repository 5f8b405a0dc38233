-- ===== src/Programs/Runs/Refines.antt =====
-- A run does what the specification permits: commands on entries of its caller.
use hpc_workspace.Base.{ℕ, true, false, not, ◌&&◌, ◌==◌, some, ◌≡◌, ◌≢◌, arith}
use hpc_workspace.Base.Text.{Text, codes, is_empty, has_char}
use hpc_workspace.Base.Dict.{Dict}
use hpc_workspace.World.{Host, Libs, World, DbFile}
use hpc_workspace.World.Caps.{cap_chown, cap_fowner}
use hpc_workspace.World.After.Files.{OnFiles, Files, After-drop_cap}
use hpc_workspace.Config.{Config, UserConfig, Opts}
use hpc_workspace.Names.{join_path, check_name, valid_name}
use hpc_workspace.Names.Owner.{IsEntryOf}
use hpc_workspace.Db.After.{Writes, After-write_dbfile}
use hpc_workspace.Workspace.{Workspace}
use hpc_workspace.Workspace.After.{IsOf, After-new_workspace}
use hpc_workspace.Allocate.{Request}
use hpc_workspace.Allocate.After.{KeepsAllocate}
use hpc_workspace.Allocate.After.Whole.{After-allocate}
use hpc_workspace.Release.{full_name, stamped, deleted_path}
use hpc_workspace.Release.After.{KeepsRelease}
use hpc_workspace.Restore.After.{KeepsRestore}
use hpc_workspace.Spec.{View, view, Command, put, move, remove, Trace, done}
use hpc_workspace.Spec.Store.{traced_entry, traced_rename, traced_erase}
use hpc_workspace.Programs.After.{After-release_main, After-restore_main}
use hpc_workspace.Programs.Allocating.After.{After-allocate_main, IsRequest-own}
use hpc_workspace.Programs.Runs.{Run, allocates, releases, restores, run, OwnRun}
use hpc_workspace.Programs.Runs.Owned.{
  full_name-IsEntryOf, stamped-IsEntryOf, entry_file-IsEntryOf, restore-IsEntryOf,
}
use hpc_workspace.Programs.Runs.Steps.{
  After-make_directory, After-change_with, After-move_workspace, After-move_entry,
  After-delete_data, After-move_data,
}
use mathlib.Core.Path.{subst, subst⁻¹}

-- What a run may do for user `u`: ws_allocate writes entries of the user, ws_release also moves them
-- and with --delete-data removes them, and ws_restore only removes them.
abbrev pub Permits : Text → Run → Command → Type 0
Permits u (allocates load_home parses reminder duration o conf) (put p) = IsEntryOf u p
Permits u (allocates load_home parses reminder duration o conf) (move p q) = ⊥
Permits u (allocates load_home parses reminder duration o conf) (remove p) = ⊥
Permits u (releases o) (put p) = IsEntryOf u p
Permits u (releases o) (move p q) = IsEntryOf u p × IsEntryOf u q
Permits u (releases o) (remove p) = (o.delete_data ≡ true) × IsEntryOf u p
Permits u (restores list_dir rand typed o) (put p) = ⊥
Permits u (restores list_dir rand typed o) (move p q) = ⊥
Permits u (restores list_dir rand typed o) (remove p) = IsEntryOf u p

-- The caller of a run is a user other than root.
pub record IsCaller (u : Text) (h : Host) : Type 0 where
  pub named : h.getpwuid h.uid ≡ some u
  pub mortal : (h.uid == 0) ≡ false
  pub not_root : u ≢ codes "root"

username-caller :
    (u : Text) (h : Host) (config : Config) (opt : Opts) (s : Workspace)
    → IsCaller u h
    → IsOf h config opt s
    → u ≡ s.username
username-caller u h config opt s c made = let (named, _, _, _) = made in ground (arith, c.named)

caller_owns :
    (u : Text) (h : Host) (config : Config) (opt : Opts) (s : Workspace) (p : Text)
    → IsCaller u h
    → IsOf h config opt s
    → IsEntryOf s.username p
    → IsEntryOf u p
caller_owns u h config opt s p c made own =
    subst⁻¹ (λ n. IsEntryOf n p) (username-caller u h config opt s c made) own

module _ (L : Libs) (h : Host) (s : Workspace) (v : View L.File) (May : Command → Type 0)
    (mortal : (h.uid == 0) ≡ false) (numbers : (n : ℕ) → has_char b'/' (L.to_text n) ≡ false) where
  abbrev K : Dict (DbFile L.File) → Type 0
  K db = Trace May v (view db)

  abbrev P : World L.File → Type 0
  P w = K w.db

  Writes-traced : (p : Text) → May (put p) → Writes L h P p
  Writes-traced p may e w same t =
      After-write_dbfile L h (λ db dirs. K db) p (traced_entry L h May v p may) e same w t

  KeepsAllocate-Trace :
      (r : Request)
      → ((p : Text) → IsEntryOf s.username p → May (put p))
      → valid_name r.name ≡ true
      → (r.extensionflag && not (is_empty r.user_option)) ≡ false
      → KeepsAllocate L h s r P
  KeepsAllocate-Trace r may valid own = record {
    writes = λ fs p e.
        Writes-traced p (may p (entry_file-IsEntryOf L h s mortal numbers r fs p valid own e));
    makes = λ wsdir w t. After-make_directory L h s K r w t wsdir;
    owns = λ b f wsdir e w t. After-change_with L h s K r w t cap_chown b f wsdir e;
    modes = λ b f wsdir e w t. After-change_with L h s K r w t cap_fowner b f wsdir e;
  }

  KeepsRelease-Trace :
      (name : Text)
      → ((p : Text) → IsEntryOf s.username p → May (put p))
      → ((p q : Text) → IsEntryOf s.username p → IsEntryOf s.username q → May (move p q))
      → ((p : Text) → s.opt.delete_data ≡ true → IsEntryOf s.username p → May (remove p))
      → valid_name name ≡ true
      → KeepsRelease L h s name P
  unfolding deleted_path
  KeepsRelease-Trace name puts moves removes valid =
      let file : (d : Text) → IsEntryOf s.username (join_path d (full_name L h s name)) =
        λ d. full_name-IsEntryOf L h s mortal numbers d name valid in
      let target : (d : Text) → IsEntryOf s.username (join_path d (stamped L h s name)) =
        λ d. stamped-IsEntryOf L h s mortal numbers d name valid in
      record {
        writes = λ d e. Writes-traced _ (puts _ (file d));
        moves = λ d g w e f t.
            After-move_entry L h s K name _ _ w
              (λ db. traced_rename May v h _ _ db (moves _ _ (file d) (target _))) t;
        moves_dir = After-move_workspace L h s K name;
        deletes = λ d g p w o e f t.
            After-delete_data L h s K name p _ w
              (λ b db. traced_erase May v _ b db (removes _ o (target _))) t;
      }

  KeepsRestore-Trace :
      (name target username : Text)
      → ((p : Text) → IsEntryOf s.username p → May (remove p))
      → valid_name name ≡ true
      → check_name name username s.username ≡ true
      → s.username ≢ codes "root"
      → KeepsRestore L h s name target username P
  KeepsRestore-Trace name target username may valid own not_root = record {
    moves = λ d g source targetwsdir w e f t.
        After-move_data L h s K name target username _ source targetwsdir w
          (λ b db.
            traced_erase May v _ b db
              (may _ (restore-IsEntryOf _ name username s.username valid own not_root)))
          t;
  }

module _ (L : Libs) (numbers : (n : ℕ) → has_char b'/' (L.to_text n) ≡ false) where
  -- If numbers are printed without a slash: a run of one of the programs by a user other than root,
  -- but for `ws_allocate -x -u`, does to the database what a sequence of permitted commands does,
  -- however it ends and in both builds. ws_allocate only writes entries of the user, ws_restore only
  -- removes them, and ws_release writes and moves them, and removes them only with --delete-data.
  pub run-refines :
      (h : Host) (config : Config) (userconfig : UserConfig) (c : Run) (w : World L.File) (u : Text)
      → IsCaller u h
      → OwnRun c
      → Trace (Permits u c) (view w.db) (view (run L h config userconfig c w).db)
  unfolding run
  run-refines h config userconfig (allocates load_home parses reminder duration o conf) w u by own =
      let May = Permits u (allocates load_home parses reminder duration o conf) in
      let Q : Files L.File = λ db dirs. Trace May (view w.db) (view db) in
      (After-allocate_main h load_home parses reminder duration o L config userconfig (OnFiles Q)
        (λ wc opt d m. After-new_workspace h config userconfig wc opt d m Q)
        (λ s r opt text a made given c q. After-allocate L h s r (OnFiles Q) (
          KeepsAllocate-Trace L h s (view w.db) May by.mortal numbers r
            (λ p e. caller_owns u h config opt s p by made e) (rw q.name c.valid)
            (IsRequest-own h load_home parses reminder duration o text a r c q own)))
        conf w (After-drop_cap Q h _ _ w (done _))).holds
  run-refines h config userconfig (releases o) w u by own =
      let May = Permits u (releases o) in
      let Q : Files L.File = λ db dirs. Trace May (view w.db) (view db) in
      (After-release_main L h config userconfig (OnFiles Q)
        (λ wc opt d m. After-new_workspace h config userconfig wc opt d m Q) o
        (λ s name made valid.
          let (_, _, same, _) = made in
          let owns : (p : Text) → IsEntryOf s.username p → IsEntryOf u p =
            λ p. caller_owns u h config _ s p by made in
          KeepsRelease-Trace L h s (view w.db) May by.mortal numbers name owns
            (λ p q e e'. (owns p e, owns q e')) (λ p deletes e. (rw same at deletes, owns p e))
            valid)
        w (After-drop_cap Q h _ _ w (done _))).holds
  run-refines h config userconfig (restores list_dir rand typed o) w u by own =
      let May = Permits u (restores list_dir rand typed o) in
      let Q : Files L.File = λ db dirs. Trace May (view w.db) (view db) in
      (After-restore_main L h config userconfig (OnFiles Q)
        (λ wc opt d m. After-new_workspace h config userconfig wc opt d m Q) list_dir rand typed o
        (λ s username made valid checked.
          KeepsRestore-Trace L h s (view w.db) May by.mortal numbers _ _ username
            (λ p e. caller_owns u h config _ s p by made e) valid checked
            (subst (λ n. n ≢ codes "root") (username-caller u h config _ s by made) by.not_root))
        w (After-drop_cap Q h _ _ w (done _))).holds
