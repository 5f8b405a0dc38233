-- ===== src/Allocate/Twice.antt =====
-- `allocate` as a whole, in the capabilities build: a workspace that no searched filesystem has is
-- created, and the same call again gives it back.
use hpc_workspace.Base.{ℕ, ◌≡◌, refl, ap, Bool, true, false, ◌&&◌, not, some, List, [], ◌∷◌, All}
use hpc_workspace.Base.{default_to}
use hpc_workspace.Base.Text.{Text}
use hpc_workspace.Base.Dict.{Dict, lookup}
use hpc_workspace.World.{Host, Libs, IsLawful, World, Dir, DbFile, ok, continue}
use hpc_workspace.World.Caps.{idle, allocate_caps}
use hpc_workspace.Config.{bind, fs_config}
use hpc_workspace.Workspace.{Workspace, entry_file, exists}
use hpc_workspace.Db.{WsDb, entry_node, create_entry}
use hpc_workspace.Db.RoundTrip.{IsRanged}
use hpc_workspace.Db.Written.{Holds, write_dbfile_caps, written-Holds, open_entry-Holds}
use hpc_workspace.Allocate.{
  Request, Allocated, target_ids, entry_group, new_entry, choose_wsdir, create, search_list,
  allocate, entry_user, has_user,
}
use hpc_workspace.Allocate.Create.{create_directory_lem, finished_dir}
use hpc_workspace.Allocate.Search.{Lacks, search-none, search-first, use_entry-reuses}

module _ (L : Libs) (h : Host) (s : Workspace) (r : Request) (p wsdir group : Text) (ids : ℕ × ℕ)
    (euid egid : ℕ) where
  abbrev pub state : Dict (DbFile L.File) → Dict Dir → World L.File
  state db dirs = idle allocate_caps db dirs euid egid

  -- The request asks for no extension, the default filesystem is configured for it, and the system
  -- grants every call: `p` is the entry's file, `wsdir` the directory, `ids` its owner and group.
  pub record CanCreate : Type 0 where
    pub build : h.setuid_build ≡ false
    pub plain : r.extensionflag ≡ false
    pub file : entry_file s.config s.filesystem (entry_user L h s r) r.name ≡ some p
    pub allocatable :
        default_to true (bind (fs_config s.config s.filesystem) (λ c. c.allocatable)) ≡ true
    pub chosen : (w : World L.File) → choose_wsdir L h s r w ≡ (ok wsdir, w)
    pub made : h.mkdir_ok wsdir ≡ true
    pub owned : h.chown_ok wsdir ≡ true
    pub moded : h.chmod_ok wsdir ≡ true
    pub written : h.write_ok p ≡ true
    pub target : (w : World L.File) → target_ids L h s r w ≡ (ok ids, w)
    pub grouped :
        (db : Dict (DbFile L.File)) (dirs : Dict Dir)
        → entry_group L h s r (state db dirs) ≡ (ok group, state db dirs)

  abbrev pub created : WsDb
  created = new_entry L h s r p wsdir group

  abbrev pub report : Allocated
  report = record { wsdir = wsdir; extension = s.maxextensions; expiration = created.expiration }

  -- The workspace is there: its directory with owner and permissions, and its entry.
  pub record IsCreated (db : Dict (DbFile L.File)) (dirs : Dict Dir) : Type 0 where
    pub directory : lookup wsdir dirs ≡ some (finished_dir s r ids)
    pub entry : Holds p (L.emit (entry_node L created)) db

  create_lem :
      (db : Dict (DbFile L.File)) (dirs : Dict Dir)
      → CanCreate
      → exists wsdir dirs ≡ false
      → (db' : Dict (DbFile L.File)) × (dirs' : Dict Dir) × (create L h s r (state db dirs)
          ≡ (ok report, state db' dirs'))
        × IsCreated db' dirs'
  unfolding create create_entry
  create_lem db dirs c new =
      let (dirs', e, found) =
        create_directory_lem L h s r c.build wsdir db dirs euid egid ids c.made c.owned c.moded new
          c.target in
      let refused : (b : Bool) → (r.extensionflag && b) ≡ false = λ b. ap (λ x. x && b) c.plain in
      let written = write_dbfile_caps L h created db dirs' euid egid c.build in
      (
        _,
        dirs',
        rw (c.file, create, refused (not (exists p db)), c.allocatable, continue)
            (rw (c.chosen, continue)
              (rw (e, continue) (rw (c.grouped, continue) (rw (written, continue) refl)))),
        record { directory = found; entry = written-Holds L h created db euid egid c.written },
      )

  -- In the capabilities build, without -x, if the filesystem is allocatable, every system call is
  -- granted and the chosen directory does not exist: if no searched filesystem has the entry,
  -- `allocate` creates the workspace. It prints the directory, the configured number of extensions
  -- and the expiration, and leaves the directory with its owner and permissions, and the entry.
  -- Without -F that is so even if the default filesystem, which the search may leave out, has the
  -- entry already: it is overwritten, and its extensions start anew.
  pub allocate-creates :
      (db : Dict (DbFile L.File)) (dirs : Dict Dir) (list : List Text)
      → CanCreate
      → exists wsdir dirs ≡ false
      → search_list L h s r (state db dirs) ≡ (ok list, state db dirs)
      → All (Lacks L h s r (state db dirs)) list
      → (db' : Dict (DbFile L.File)) × (dirs' : Dict Dir) × (allocate L h s r (state db dirs)
          ≡ (ok report, state db' dirs'))
        × IsCreated db' dirs'
  unfolding allocate
  allocate-creates db dirs list c new searched lack =
      let (db', dirs', e, done) = create_lem db dirs c new in
      (
        db',
        dirs',
        rw (searched, allocate, continue)
            (rw
              (
                search-none L h s r (state db dirs) list (ap (λ b. b && has_user L h s r) c.plain)
                    lack,
                continue,
              )
              e),
        done,
      )

  Holds-exists : (c : L.File) (db : Dict (DbFile L.File)) → Holds p c db → exists p db ≡ true
  Holds-exists c db (f, found, same) = rw (found, exists)

  -- In the capabilities build, with -F and without -x, if the filesystem is allocatable and has no
  -- such entry, every system call is granted, the chosen directory does not exist, and the numbers
  -- of the entry fit their types: `allocate` creates the workspace, and the same call again finds
  -- it. The second call reports the same directory, extensions and expiration, and changes
  -- nothing.
  pub allocate-twice :
      (db : Dict (DbFile L.File)) (dirs : Dict Dir)
      → IsLawful L
      → IsRanged created
      → CanCreate
      → exists wsdir dirs ≡ false
      → s.opt.filesystem ≡ some s.filesystem
      → exists p db ≡ false
      → (db' : Dict (DbFile L.File)) × (dirs' : Dict Dir) × (allocate L h s r (state db dirs)
          ≡ (ok report, state db' dirs'))
        × (allocate L h s r (state db' dirs') ≡ (ok report, state db' dirs'))
  unfolding allocate search_list
  allocate-twice db dirs law fits c new given absent =
      let plain : (r.extensionflag && has_user L h s r) ≡ false =
        ap (λ b. b && has_user L h s r) c.plain in
      let listed : (w : World L.File) → search_list L h s r w ≡ (ok (s.filesystem ∷ []), w) =
        λ w. rw (given, search_list) in
      let (db', dirs', e, done) =
        allocate-creates db dirs (s.filesystem ∷ []) c new (listed (state db dirs))
          ((p, c.file, absent), tt) in
      let w' = state db' dirs' in
      let has = Holds-exists _ db' done.entry in
      let opened = open_entry-Holds L h created w' law fits done.entry in
      (
        db',
        dirs',
        e,
        rw (listed w', allocate, continue)
            (rw
              (
                search-first L h s r w' [] s.filesystem p [] plain tt (c.file, has),
                use_entry-reuses L h s r w' s.filesystem p _ c.plain opened,
                continue,
              )
              refl),
      )
