-- ===== src/Release/Moved.antt =====
-- What a release leaves, in the capabilities build.
use hpc_workspace.Base.{ℕ, ◌≡◌, refl, ◌∙◌, Bool, true, false, not, none, some}
use hpc_workspace.Base.{if◌then◌else◌, Bool-cases, inl, inr}
use mathlib.Core.Path.{subst}
use hpc_workspace.Base.Text.{Text, text_eq}
use hpc_workspace.Base.Dict.{Dict, lookup}
use hpc_workspace.World.{
  Host, Libs, Dir, DbFile, ok, err, db_not_deleted, ws_not_removed, when, continue, renamed,
  cross_device, no_child,
}
use hpc_workspace.World.Caps.{raise_cap, lower_cap, become_db_user, idle, allocate_caps}
use hpc_workspace.World.Caps.Steps.{by_cap}
use hpc_workspace.Config.{database_of, deleted_of}
use hpc_workspace.Names.{join_path}
use hpc_workspace.Workspace.Rename.{rename_in-moves}
use hpc_workspace.Workspace.{Workspace, exists, rename_in, mv}
use hpc_workspace.Db.{WsDb, entry_node, open_entry, store_entry, chmod_entry, chown_entry}
use hpc_workspace.Db.Written.{Holds, write_dbfile_caps, written-Holds, written-others}
use hpc_workspace.Release.{
  rename_if, is_renamed, move_dir, full_name, deleted_path, released_entry, move_entry,
  move_workspace, release, delete_data,
}

module _ (L : Libs) (h : Host) (s : Workspace) (name : Text) (build : h.setuid_build ≡ false) where
  module _ (db : Dict (DbFile L.File)) (dirs : Dict Dir) (euid egid : ℕ) where
    move_entry_lem :
        (source target : Text)
        → move_entry L h s name source target (idle allocate_caps db dirs euid egid) ≡ (
          if not (is_renamed (rename_in h source target db).0) then err db_not_deleted else ok tt,
          idle allocate_caps (rename_in h source target db).1 dirs euid egid,
        )
    unfolding move_entry raise_cap lower_cap become_db_user rename_if
    move_entry_lem source target =
        by_cap
          (λ k. move_entry L k s name source target (idle allocate_caps db dirs euid egid) ≡ (
            if not (is_renamed (rename_in k source target db).0) then err db_not_deleted else ok tt,
            idle allocate_caps (rename_in k source target db).1 dirs euid egid,
          ))
          h build refl

    move_workspace_lem :
        (source target : Text)
        → move_workspace L h s name source target (idle allocate_caps db dirs euid egid) ≡ (
          if not (move_dir L h source target dirs).0 then err ws_not_removed else ok tt,
          idle allocate_caps db (move_dir L h source target dirs).1 euid egid,
        )
    unfolding move_workspace raise_cap lower_cap
    move_workspace_lem source target =
        by_cap
          (λ k. move_workspace L k s name source target (idle allocate_caps db dirs euid egid) ≡ (
            if not (move_dir L k source target dirs).0 then err ws_not_removed else ok tt,
            idle allocate_caps db (move_dir L k source target dirs).1 euid egid,
          ))
          h build refl

module _ (L : Libs) (h : Host) (s : Workspace) (name database deleted : Text) (e : WsDb) where
  -- The entry's file, and where it and the directory are moved to.
  abbrev pub file : Text
  file = join_path database (full_name L h s name)

  abbrev pub file_target : Text
  file_target = deleted_path L h s name deleted file

  abbrev pub dir_target : Text
  dir_target = deleted_path L h s name deleted e.wsdir

  -- The capabilities build, in which the entry `e` can be written and moved; whether --delete-data
  -- is given.
  pub record CanRelease (deletes : Bool) (db : Dict (DbFile L.File)) : Type 0 where
    pub build : h.setuid_build ≡ false
    pub database_set : database_of s.config s.filesystem ≡ some database
    pub deleted_set : deleted_of s.config s.filesystem ≡ some deleted
    pub found : exists file db ≡ true
    pub opened :
        (dirs : Dict Dir) (euid egid : ℕ)
        → open_entry L file s.config.dbuid s.config.dbgid (idle allocate_caps db dirs euid egid)
          ≡ (ok e, idle allocate_caps db dirs euid egid)
    pub named : e.dbfilename ≡ file
    pub written : h.write_ok file ≡ true
    pub moved : h.rename_answer file file_target ≡ renamed
    pub apart : text_eq file_target file ≡ false
    pub option : s.opt.delete_data ≡ deletes

  -- The entry is in the `deleted` directory, with the time of the release, and no longer in its
  -- old place; all other files of the database are as they were.
  pub record IsMoved (db db' : Dict (DbFile L.File)) : Type 0 where
    pub gone : lookup file db' ≡ none
    pub there : Holds file_target (L.emit (entry_node L (released_entry L h s name e))) db'
    pub others :
        (q : Text)
        → text_eq file q ≡ false
        → text_eq file_target q ≡ false
        → lookup q db' ≡ lookup q db

  at_file :
      (new : WsDb) (db : Dict (DbFile L.File)) (euid egid : ℕ)
      → new.dbfilename ≡ file
      → h.write_ok file ≡ true
      → Holds file
          (L.emit (entry_node L new))
          (chown_entry L h new (chmod_entry L h new (store_entry L h new euid egid db)))
  at_file new db euid egid named written =
      subst
        (λ q.
          Holds q (L.emit (entry_node L new))
            (chown_entry L h new (chmod_entry L h new (store_entry L h new euid egid db))))
        named (written-Holds L h new db euid egid (rw named written))

  -- The release up to --delete-data.
  pub release_steps :
      (deletes : Bool) (db : Dict (DbFile L.File)) (dirs : Dict Dir) (euid egid : ℕ)
      → CanRelease deletes db
      → (db' : Dict (DbFile L.File)) × (release L h s name (idle allocate_caps db dirs euid egid)
          ≡ (if (move_dir L h e.wsdir dir_target dirs).0
              then when deletes
                  (delete_data L h s name dir_target file_target)
                  (idle allocate_caps db' (move_dir L h e.wsdir dir_target dirs).1 euid egid)
              else (
                err ws_not_removed,
                idle allocate_caps db' (move_dir L h e.wsdir dir_target dirs).1 euid egid,
              )))
        × IsMoved db db'
  unfolding release released_entry
  release_steps deletes db dirs euid egid c =
      let new = released_entry L h s name e in
      let db1 = chown_entry L h new (chmod_entry L h new (store_entry L h new euid egid db)) in
      let (f, stored, same) = at_file new db euid egid c.named c.written in
      let (db2, moved, there, gone, others) =
        rename_in-moves h file file_target f db1 stored c.moved c.apart in
      (
        db2,
        rw (c.database_set, release, c.found)
            (rw (c.opened, continue)
              (rw (write_dbfile_caps L h new db dirs euid egid c.build, continue, c.deleted_set)
                (rw
                  (
                    move_entry_lem L h s name c.build db1 dirs euid egid file file_target,
                    moved,
                    continue,
                  )
                  (rw (move_workspace_lem L h s name c.build db2 dirs euid egid e.wsdir dir_target)
                    (elim (Bool-cases (move_dir L h e.wsdir dir_target dirs).0) [
                      | inl done ↦ rw (done, continue, c.option) refl
                      | inr kept ↦ rw (kept, continue) refl
                    ]))))),
        record {
          gone = gone;
          there = (f, there, same);
          others = λ q not_file not_target.
              others q not_file not_target
              ∙ written-others L h new db euid egid q (rw c.named not_file);
        },
      )

  -- In the capabilities build, where the entry can be read, written and moved and --delete-data is
  -- not given, the release is decided by the move of the directory: it ends well exactly if that
  -- counts as moved. In both cases the entry has been moved before, with the time of the release,
  -- no other file of the database has changed, and no capability is left in effect.
  pub release_lem :
      (db : Dict (DbFile L.File)) (dirs : Dict Dir) (euid egid : ℕ)
      → CanRelease false db
      → (db' : Dict (DbFile L.File)) × (release L h s name (idle allocate_caps db dirs euid egid)
          ≡ (
            if (move_dir L h e.wsdir dir_target dirs).0 then ok tt else err ws_not_removed,
            idle allocate_caps db' (move_dir L h e.wsdir dir_target dirs).1 euid egid,
          ))
        × IsMoved db db'
  release_lem db dirs euid egid c =
      let (db', steps, is_moved) = release_steps false db dirs euid egid c in
      (
        db',
        elim (Bool-cases (move_dir L h e.wsdir dir_target dirs).0) [
          | inl done ↦ rw (steps, done) refl
          | inr kept ↦ rw (steps, kept) refl
        ],
        is_moved,
      )

  -- In the capabilities build, where the entry can be read, written and moved, the directory can
  -- be renamed, its new path is another one and --delete-data is not given: the release ends well,
  -- the entry is moved, the directory is found under its new name and its old path is free.
  pub release-moves :
      (db : Dict (DbFile L.File)) (dirs : Dict Dir) (euid egid : ℕ) (d : Dir)
      → CanRelease false db
      → lookup e.wsdir dirs ≡ some d
      → h.rename_answer e.wsdir dir_target ≡ renamed
      → text_eq dir_target e.wsdir ≡ false
      → (db' : Dict (DbFile L.File)) × (dirs' : Dict Dir) × (release L h s name
            (idle allocate_caps db dirs euid egid)
          ≡ (ok tt, idle allocate_caps db' dirs' euid egid))
        × IsMoved db db'
        × (lookup dir_target dirs' ≡ some d)
        × (lookup e.wsdir dirs' ≡ none)
  unfolding move_dir
  release-moves db dirs euid egid d c found answer apart =
      let (db', ends, is_moved) = release_lem db dirs euid egid c in
      let (dirs', step, there, gone, others) =
        rename_in-moves h e.wsdir dir_target d dirs found answer apart in
      let both : move_dir L h e.wsdir dir_target dirs ≡ (true, dirs') = rw (step, move_dir) refl in
      (db', dirs', rw (ends, both) refl, is_moved, there, gone)

  -- In the capabilities build, where the entry can be read, written and moved and --delete-data is
  -- not given, but the directory is to go to another file system and no child can be forked for
  -- `/bin/mv`: the release ends well and the entry is moved, but every directory stays where it
  -- is.
  pub release-no_child :
      (db : Dict (DbFile L.File)) (dirs : Dict Dir) (euid egid : ℕ) (d : Dir)
      → CanRelease false db
      → lookup e.wsdir dirs ≡ some d
      → h.rename_answer e.wsdir dir_target ≡ cross_device
      → h.fork_answer e.wsdir dir_target ≡ no_child
      → (db' : Dict (DbFile L.File)) × (release L h s name (idle allocate_caps db dirs euid egid)
          ≡ (ok tt, idle allocate_caps db' dirs euid egid))
        × IsMoved db db'
  unfolding move_dir rename_in mv
  release-no_child db dirs euid egid d c found answer forked =
      let (db', ends, is_moved) = release_lem db dirs euid egid c in
      let both : move_dir L h e.wsdir dir_target dirs ≡ (true, dirs) =
        rw (found, answer, forked, move_dir, rename_in, mv) refl in
      (db', rw (ends, both) refl, is_moved)
