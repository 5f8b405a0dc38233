-- ===== src/Restore/Again.antt =====
-- A release and a later restore, in the capabilities build.
use mathlib.Core.Path.{subst}
use hpc_workspace.Base.{ℕ, ◌≡◌, refl, ap, ◌∙◌, true, false, none, some, default_to}
use hpc_workspace.Base.Text.{Text, text_eq, text_eq_refl}
use hpc_workspace.Base.Int.{pos}
use hpc_workspace.Base.Dict.{Dict, lookup, erase, lookup-erase}
use hpc_workspace.World.{Host, Libs, IsLawful, Dir, DbFile, ok, renamed}
use hpc_workspace.World.Caps.{idle, allocate_caps, restore_caps}
use hpc_workspace.Config.{bind, fs_config, database_of, deleted_of}
use hpc_workspace.Names.{join_path, entry_name}
use hpc_workspace.Workspace.{Workspace, exists}
use hpc_workspace.Db.{WsDb, entry_node, read_dbfile, open_entry}
use hpc_workspace.Db.RoundTrip.{IsRanged}
use hpc_workspace.Db.Written.{Holds, open_entry-Holds}
use hpc_workspace.Release.{stamped, deleted_path, released_entry, release}
use hpc_workspace.Release.Moved.{CanRelease, IsMoved, file_target, dir_target, release-moves}
use hpc_workspace.Release.Moved
use hpc_workspace.Restore.{restored, restore}
use hpc_workspace.Restore.Ends.{CanRestore, restore-moves}

-- The release is made at `h`, by the object `s`, and the restore at `k`, by the object `t`.
module _ (L : Libs) (h k : Host) (s t : Workspace) (name target username database deleted : Text)
    (e te : WsDb) where
  -- The name under which the release leaves the workspace.
  abbrev pub old_name : Text
  old_name = stamped L h s name

  -- The entry as the restore reads it.
  abbrev pub old_entry : WsDb
  old_entry = record (released_entry L h s name e) {
    dbfilename = join_path (join_path database deleted) old_name;
    dbuid = t.config.dbuid;
    dbgid = t.config.dbgid;
    released = pos 0;
  }

  -- Where the restore finds the directory, and where it puts it.
  abbrev pub from_dir : Text
  from_dir = dir_target L h s name database deleted e

  abbrev pub to_dir : Text
  to_dir = join_path te.wsdir (L.filename from_dir)

  -- The workspace can be released and the target's entry, another one, can be read; every rename and
  -- removal is granted, and no two of the paths are the same. `parent_path` undoes the
  -- composition of the entry's path.
  pub record CanUndo (db : Dict (DbFile L.File)) (dirs : Dict Dir) (d : Dir) : Type 0 where
    pub law : IsLawful L
    pub fits : IsRanged (released_entry L h s name e)
    pub releases : CanRelease L h s name database deleted e false db
    pub directory : lookup e.wsdir dirs ≡ some d
    pub away : h.rename_answer e.wsdir from_dir ≡ renamed
    pub away_apart : text_eq from_dir e.wsdir ≡ false
    pub parent : L.parent_path (Moved.file L h s name database deleted e) ≡ database
    pub build : k.setuid_build ≡ false
    pub database_set : database_of t.config t.filesystem ≡ some database
    pub deleted_set : deleted_of t.config t.filesystem ≡ some deleted
    pub restorable :
        default_to true (bind (fs_config t.config t.filesystem) (λ c. c.restorable)) ≡ true
    pub target_there :
        (f : DbFile L.File) × (lookup (join_path database (entry_name username target)) db ≡ some f)
        × (read_dbfile L
              (join_path database (entry_name username target))
              t.config.dbuid
              t.config.dbgid
              f.content
            ≡ ok te)
    pub other_entry :
        text_eq
          (Moved.file L h s name database deleted e)
          (join_path database (entry_name username target))
        ≡ false
    pub other_old :
        text_eq
          (file_target L h s name database deleted e)
          (join_path database (entry_name username target))
        ≡ false
    pub removed : k.remove_ok (join_path (join_path database deleted) old_name) ≡ true
    pub back : k.rename_answer from_dir to_dir ≡ renamed
    pub back_apart : text_eq to_dir from_dir ≡ false

  module _ (db db' : Dict (DbFile L.File)) (dirs : Dict Dir) (d : Dir) (c : CanUndo db dirs d) where
    same_file :
        file_target L h s name database deleted e ≡ join_path (join_path database deleted) old_name
    unfolding deleted_path
    same_file = ap (λ p. join_path (join_path p deleted) old_name) c.parent

    -- What others do to the database in between leaves the two entries of the restore as they are.
    pub record KeepsBoth (db'' : Dict (DbFile L.File)) : Type 0 where
      pub old_kept :
          lookup (join_path (join_path database deleted) old_name) db''
          ≡ lookup (join_path (join_path database deleted) old_name) db'
      pub target_kept :
          lookup (join_path database (entry_name username target)) db''
          ≡ lookup (join_path database (entry_name username target)) db'

    moved-CanRestore :
        (db'' : Dict (DbFile L.File))
        → IsMoved L h s name database deleted e db db'
        → KeepsBoth db''
        → CanRestore L k t old_name target username database deleted old_entry te db''
    unfolding open_entry released_entry join_path entry_node
    moved-CanRestore db'' m kept =
        let (tf, found, reads) = c.target_there in
        let there' : lookup (join_path database (entry_name username target)) db'' ≡ some tf =
          kept.target_kept ∙ (m.others _ c.other_entry c.other_old ∙ found) in
        let (f, stored', same) =
          subst (λ q. Holds q (L.emit (entry_node L (released_entry L h s name e))) db') same_file
            m.there in
        let stored = kept.old_kept ∙ stored' in
        record {
          build = c.build;
          database_set = c.database_set;
          deleted_set = c.deleted_set;
          restorable = c.restorable;
          target_found = rw (there', exists);
          target_opened = λ dirs euid egid. rw (there', open_entry) (rw reads);
          found = rw (stored, exists);
          opened = λ dirs euid egid.
              open_entry-Holds L k
                (record (released_entry L h s name e) {
                  dbfilename = join_path (join_path database deleted) old_name;
                  dbuid = t.config.dbuid;
                  dbgid = t.config.dbgid;
                })
                (idle restore_caps db'' dirs euid egid) c.law
                (record {
                  expiration_fits = c.fits.expiration_fits;
                  extensions_fits = c.fits.extensions_fits;
                  reminder_fits = c.fits.reminder_fits;
                })
                (f, stored, same);
        }

    -- What a release has moved can be restored after what others have done.
    pub moved-restore :
        (db'' : Dict (DbFile L.File)) (dirs' : Dict Dir) (euid egid : ℕ)
        → IsMoved L h s name database deleted e db db'
        → KeepsBoth db''
        → lookup from_dir dirs' ≡ some d
        → (dirs'' : Dict Dir) × (restore L k t old_name target username
              (idle restore_caps db'' dirs' euid egid)
            ≡ (
              ok restored,
              idle restore_caps
                  (erase (join_path (join_path database deleted) old_name) db'')
                  dirs''
                  euid
                  egid,
            ))
          × (lookup to_dir dirs'' ≡ some d)
          × (lookup from_dir dirs'' ≡ none)
    unfolding deleted_path released_entry
    moved-restore db'' dirs' euid egid m kept there =
        restore-moves L k t old_name target username database deleted old_entry te db'' dirs' euid
          egid d (moved-CanRestore db'' m kept) c.removed there c.back c.back_apart

  -- In the capabilities build, where every system call is granted, the paths are different ones,
  -- the filesystem is restorable, the target's entry can be read and the numbers of the entry fit
  -- their types: what a release without --delete-data puts away, a restore under the stamped name
  -- brings back. The directory that the workspace had is in the target workspace at the end,
  -- nothing is left at its old path nor in the `deleted` directory, and the entry in the `deleted`
  -- directory is gone.
  release-restore :
      (db : Dict (DbFile L.File)) (dirs : Dict Dir) (euid egid : ℕ) (d : Dir)
      → CanUndo db dirs d
      → (db' db'' : Dict (DbFile L.File)) × (dirs' dirs'' : Dict Dir) × (release L h s name
            (idle allocate_caps db dirs euid egid)
          ≡ (ok tt, idle allocate_caps db' dirs' euid egid))
        × (restore L k t old_name target username (idle restore_caps db' dirs' euid egid)
            ≡ (ok restored, idle restore_caps db'' dirs'' euid egid))
        × (lookup e.wsdir dirs' ≡ none)
        × (lookup to_dir dirs'' ≡ some d)
        × (lookup from_dir dirs'' ≡ none)
        × (lookup (join_path (join_path database deleted) old_name) db'' ≡ none)
  unfolding deleted_path released_entry
  release-restore db dirs euid egid d c =
      let (db', dirs', released, m, there, gone) =
        release-moves L h s name database deleted e db dirs euid egid d c.releases c.directory
          c.away c.away_apart in
      let (dirs'', back, at, left) =
        moved-restore db db' dirs d c db' dirs' euid egid m
          (record { old_kept = refl; target_kept = refl }) there in
      (
        db',
        erase (join_path (join_path database deleted) old_name) db',
        dirs',
        dirs'',
        released,
        back,
        gone,
        at,
        left,
        rw (lookup-erase, text_eq_refl (join_path (join_path database deleted) old_name)),
      )
