-- ===== src/Restore/Ends.antt =====
-- How a restore ends, in the capabilities build.
use hpc_workspace.Base.{
  ap, ℕ, ◌==◌, Bool, Bool-cases, arith, ◌≡◌, refl, true, false, ◌&&◌, none, some,
}
use hpc_workspace.Base.{if◌then◌else◌, Option-cases, inl, inr, default_to}
use hpc_workspace.Base.Text.{Text, text_eq, text_eq_refl}
use hpc_workspace.Base.Dict.{Dict, lookup, insert, erase, lookup-insert, lookup-erase}
use hpc_workspace.World.{
  Host, Libs, Dir, DbFile, ok, continue, renamed, rename_failed, cross_device, no_child, child,
  killed,
}
use hpc_workspace.World.Caps.{raise_cap, lower_cap, become_db_user, become_root, idle, restore_caps}
use hpc_workspace.World.Caps.Steps.{by_cap}
use hpc_workspace.Config.{bind, fs_config, database_of, deleted_of}
use hpc_workspace.Names.{join_path, entry_name}
use hpc_workspace.Workspace.{Workspace, exists, rename_in, mv, moved_dirs, mv_target}
use hpc_workspace.Db.{WsDb, open_entry}
use hpc_workspace.Workspace.Rename.{rename_in-moves}
use hpc_workspace.Restore.{
  Ending, restored, kept_entry, move_into, move_data, restore_from, restore,
}

moved_dirs_lem :
    (L : Libs) (source into : Text) (dirs : Dict Dir) (d t : Dir)
    → lookup source dirs ≡ some d
    → lookup into dirs ≡ some t
    → moved_dirs L source into dirs
      ≡ insert (join_path into (L.filename source)) d (erase source dirs)
moved_dirs_lem L source into dirs d t found there =
    rw (found, there, moved_dirs, mv_target, exists) refl

module _ (L : Libs) (h : Host) (s : Workspace) (name target username : Text) where
  module _ (build : h.setuid_build ≡ false) (db : Dict (DbFile L.File)) (dirs : Dict Dir)
      (euid egid : ℕ) where
    -- The directory is moved, and the entry is removed exactly if the move counts as done.
    move_data_lem :
        (p source into : Text)
        → let (done, dirs') = move_into L h source (join_path into (L.filename source)) into dirs in
          move_data L h s name target username p source into (idle restore_caps db dirs euid egid)
          ≡ (
            ok (if done then restored else kept_entry),
            idle restore_caps (if done && h.remove_ok p then erase p db else db) dirs' euid egid,
          )
    unfolding move_data raise_cap lower_cap become_db_user become_root
    move_data_lem p source into =
        by_cap
          (λ k.
            let (done, dirs') =
              move_into L k source (join_path into (L.filename source)) into dirs in
            move_data L k s name target username p source into (idle restore_caps db dirs euid egid)
            ≡ (
              ok (if done then restored else kept_entry),
              idle restore_caps (if done && k.remove_ok p then erase p db else db) dirs' euid egid,
            ))
          h build refl

  module _ (database deleted : Text) (e target_entry : WsDb) where
    -- The entries of the released and of the target workspace.
    abbrev pub file : Text
    file = join_path (join_path database deleted) name

    abbrev pub target_file : Text
    target_file = join_path database (entry_name username target)

    -- The directory of the released workspace, and where it goes.
    abbrev pub source_dir : Text
    source_dir = join_path (join_path (L.parent_path e.wsdir) deleted) name

    abbrev pub new_dir : Text
    new_dir = join_path target_entry.wsdir (L.filename source_dir)

    -- The capabilities build, in which both entries can be read.
    pub record CanRestore (db : Dict (DbFile L.File)) : Type 0 where
      pub build : h.setuid_build ≡ false
      pub database_set : database_of s.config s.filesystem ≡ some database
      pub deleted_set : deleted_of s.config s.filesystem ≡ some deleted
      pub restorable :
          default_to true (bind (fs_config s.config s.filesystem) (λ c. c.restorable)) ≡ true
      pub target_found : exists target_file db ≡ true
      pub target_opened :
          (dirs : Dict Dir) (euid egid : ℕ)
          → open_entry L target_file s.config.dbuid s.config.dbgid
              (idle restore_caps db dirs euid egid)
            ≡ (ok target_entry, idle restore_caps db dirs euid egid)
      pub found : exists file db ≡ true
      pub opened :
          (dirs : Dict Dir) (euid egid : ℕ)
          → open_entry L file s.config.dbuid s.config.dbgid (idle restore_caps db dirs euid egid)
            ≡ (ok e, idle restore_caps db dirs euid egid)

    -- A restore does what the move of the directory and the removal of the entry do.
    pub restore_lem :
        (db : Dict (DbFile L.File)) (dirs : Dict Dir) (euid egid : ℕ)
        → CanRestore db
        → let (done, dirs') = move_into L h source_dir new_dir target_entry.wsdir dirs in
          restore L h s name target username (idle restore_caps db dirs euid egid) ≡ (
            ok (if done then restored else kept_entry),
            idle restore_caps
                (if done && h.remove_ok file then erase file db else db)
                dirs'
                euid
                egid,
          )
    unfolding restore restore_from
    restore_lem db dirs euid egid c =
        rw (c.database_set, restore, c.deleted_set, c.restorable)
          (rw (c.target_found, continue)
            (rw (c.target_opened, continue)
              (rw (c.found, restore_from)
                (rw (c.opened, continue)
                  (move_data_lem c.build db dirs euid egid file source_dir target_entry.wsdir)))))

    -- In the capabilities build, where the filesystem is restorable, both entries can be read, the
    -- directory can be renamed to another path and the entry's file can be removed: the directory
    -- is found in the target workspace, its old path is free, and the entry is gone.
    pub restore-moves :
        (db : Dict (DbFile L.File)) (dirs : Dict Dir) (euid egid : ℕ) (d : Dir)
        → CanRestore db
        → h.remove_ok file ≡ true
        → lookup source_dir dirs ≡ some d
        → h.rename_answer source_dir new_dir ≡ renamed
        → text_eq new_dir source_dir ≡ false
        → (dirs' : Dict Dir) × (restore L h s name target username
              (idle restore_caps db dirs euid egid)
            ≡ (ok restored, idle restore_caps (erase file db) dirs' euid egid))
          × (lookup new_dir dirs' ≡ some d)
          × (lookup source_dir dirs' ≡ none)
    unfolding move_into
    restore-moves db dirs euid egid d c removed found answer apart =
        let (dirs', step, there, gone, others) =
          rename_in-moves h source_dir new_dir d dirs found answer apart in
        let both : move_into L h source_dir new_dir target_entry.wsdir dirs ≡ (true, dirs') =
          rw (step, move_into) refl in
        (dirs', rw (restore_lem db dirs euid egid c, both, removed) refl, there, gone)

    -- In the capabilities build, where the filesystem is restorable and both entries can be read,
    -- but the rename fails, and not for another file system: the restore changes nothing.
    pub restore-keeps :
        (db : Dict (DbFile L.File)) (dirs : Dict Dir) (euid egid : ℕ)
        → CanRestore db
        → h.rename_answer source_dir new_dir ≡ rename_failed
        → restore L h s name target username (idle restore_caps db dirs euid egid)
          ≡ (ok kept_entry, idle restore_caps db dirs euid egid)
    unfolding move_into rename_in
    restore-keeps db dirs euid egid c answer =
        let both : move_into L h source_dir new_dir target_entry.wsdir dirs ≡ (false, dirs) =
          elim (Option-cases (lookup source_dir dirs)) [
            | inl gone ↦ rw (gone, move_into, rename_in) refl
            | inr (d, there) ↦ rw (there, answer, move_into, rename_in) refl
          ] in
        rw (restore_lem db dirs euid egid c, both) refl

    -- In the capabilities build, where the filesystem is restorable, both entries can be read and
    -- the entry's file can be removed, but the target is on another file system and no child can
    -- be forked for `/bin/mv`: the restore reports success and removes the entry, but every
    -- directory stays where it is.
    pub restore-no_child :
        (db : Dict (DbFile L.File)) (dirs : Dict Dir) (euid egid : ℕ) (d : Dir)
        → CanRestore db
        → h.remove_ok file ≡ true
        → lookup source_dir dirs ≡ some d
        → h.rename_answer source_dir new_dir ≡ cross_device
        → h.fork_answer source_dir target_entry.wsdir ≡ no_child
        → restore L h s name target username (idle restore_caps db dirs euid egid)
          ≡ (ok restored, idle restore_caps (erase file db) dirs euid egid)
    unfolding move_into rename_in mv
    restore-no_child db dirs euid egid d c removed found answer forked =
        let both : move_into L h source_dir new_dir target_entry.wsdir dirs ≡ (true, dirs) =
          rw (found, answer, forked, move_into, rename_in, mv) refl in
        rw (restore_lem db dirs euid egid c, both, removed) refl

    -- How a restore of the directory `d` ends, from `db` and `dirs`: what the answers of the system
    -- say of the ending `end`, the files `db'` and the directories `dirs'`.
    pub record IsEnded (d : Dir) (db db' : Dict (DbFile L.File)) (dirs dirs' : Dict Dir)
        (end : Ending) : Type 0 where
      pub moves :
          h.rename_answer source_dir new_dir ≡ renamed
          → (end ≡ restored) × (lookup new_dir dirs' ≡ some d) × (lookup source_dir dirs' ≡ none)
      pub refused :
          h.rename_answer source_dir new_dir ≡ rename_failed
          → (end ≡ kept_entry) × (dirs' ≡ dirs) × (db' ≡ db)
      pub copies :
          h.rename_answer source_dir new_dir ≡ cross_device
          → h.fork_answer source_dir target_entry.wsdir ≡ child 0
          → (t : Dir) → lookup target_entry.wsdir dirs ≡ some t
          → (end ≡ restored) × (lookup new_dir dirs' ≡ some d) × (lookup source_dir dirs' ≡ none)
      pub copy_fails :
          (n : ℕ)
          → h.rename_answer source_dir new_dir ≡ cross_device
          → h.fork_answer source_dir target_entry.wsdir ≡ child n
          → (n == 0) ≡ false
          → (end ≡ kept_entry) × (db' ≡ db)
      pub copy_killed :
          h.rename_answer source_dir new_dir ≡ cross_device
          → h.fork_answer source_dir target_entry.wsdir ≡ killed
          → (end ≡ restored) × (dirs' ≡ h.mv_left source_dir target_entry.wsdir dirs)
      pub removes : end ≡ restored → h.remove_ok file ≡ true → lookup file db' ≡ none
      pub keeps : (q : Text) → text_eq file q ≡ false → lookup q db' ≡ lookup q db

    module _ (db : Dict (DbFile L.File)) (dirs : Dict Dir) (d : Dir)
        (found : lookup source_dir dirs ≡ some d) (apart : text_eq new_dir source_dir ≡ false) where
      abbrev into : Bool × Dict Dir
      into = move_into L h source_dir new_dir target_entry.wsdir dirs

      abbrev end_db : Dict (DbFile L.File)
      end_db = if into.0 && h.remove_ok file then erase file db else db

      move-IsEnded : IsEnded d db end_db dirs into.1 (if into.0 then restored else kept_entry)
      unfolding move_into rename_in mv
      move-IsEnded = record {
        moves = λ answer.
            let (dirs', step, there, gone, others) =
              rename_in-moves h source_dir new_dir d dirs found answer apart in
            let both : into ≡ (true, dirs') = rw (step, move_into) refl in
            rw both (refl, there, gone);
        refused = λ answer.
            let both : into ≡ (false, dirs) = rw (found, answer, move_into, rename_in) refl in
            rw both (refl, refl, refl);
        copies = λ answer ends t there.
            let both : into ≡ (true, insert new_dir d (erase source_dir dirs)) =
              rw (found, answer, ends, move_into, rename_in, mv)
                (ap (λ m. (true, m))
                  (moved_dirs_lem L source_dir target_entry.wsdir dirs d t found there)) in
            rw both (
              refl,
              rw (lookup-insert, text_eq_refl new_dir),
              rw (lookup-insert, apart) (rw (lookup-erase, text_eq_refl source_dir)),
            );
        copy_fails = λ n answer ends failed.
            let both : into ≡ (false, h.mv_left source_dir target_entry.wsdir dirs) =
              rw (found, answer, ends, failed, move_into, rename_in, mv) refl in
            rw both (refl, refl);
        copy_killed = λ answer ends.
            let both : into ≡ (true, h.mv_left source_dir target_entry.wsdir dirs) =
              rw (found, answer, ends, move_into, rename_in, mv) refl in
            rw both (refl, refl);
        removes = λ good removable. elim (Bool-cases into.0) [
          | inl done ↦ rw (done, removable) (rw (lookup-erase, text_eq_refl file))
          | inr not_done ↦ let e = rw not_done at good in absurd (ground arith)
        ];
        keeps = λ q other. elim (Bool-cases (into.0 && h.remove_ok file)) [
          | inl gone ↦ rw gone (rw (lookup-erase, other))
          | inr kept ↦ rw kept refl
        ];
      }

      -- In the capabilities build, where the filesystem is restorable, both entries can be read, and
      -- the directory is there and is to go to another path: the restore ends without an error.
      -- If the directory can be renamed, or is on another file system and `/bin/mv` ends
      -- with 0, it is found in the target workspace, if that is there, and the restore succeeds. If
      -- the rename fails for another reason, nothing changes; if `/bin/mv` ends with another status,
      -- the database does not change; in both cases the failure is reported. If a signal kills
      -- `/bin/mv`, the restore succeeds with what that has left. A restore that succeeds
      -- removes the entry, if that can be removed; no other file changes, and no capability is left
      -- in effect.
      pub restore-ends :
          (euid egid : ℕ)
          → CanRestore db
          → (end : Ending) × (db' : Dict (DbFile L.File)) × (dirs' : Dict Dir) × (restore L h s name
                target username
                (idle restore_caps db dirs euid egid)
              ≡ (ok end, idle restore_caps db' dirs' euid egid))
            × IsEnded d db db' dirs dirs' end
      restore-ends euid egid c = (_, _, _, restore_lem db dirs euid egid c, move-IsEnded)
