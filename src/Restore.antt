-- ===== src/Restore.antt =====
-- `Workspace::restore` of src/ws.cpp: the directory of a released workspace is moved into an
-- existing workspace, and its entry in the `deleted` directory is removed.
pub mod Ends
pub mod Again
pub mod After
pub mod Builds
use hpc_workspace.Base.{
  ℕ, Bool, true, false, ◌&&◌, not, Option, none, some, [], ◌++◌, ◌∷◌, ◌==◌, if◌then◌else◌,
}
use hpc_workspace.Base.{default_to}
use hpc_workspace.Base.Text.{Text}
use hpc_workspace.Base.Dict.{Dict, lookup, insert, erase}
use hpc_workspace.World.{
  Host, Libs, World, Dir, DbFile, M, RenameResult, renamed, cross_device, rename_failed, Result, ok,
  err, uncaught_exception, not_restorable, no_target, pure, or_fail, fail_if, gets, modify, when,
  ◌>>=◌, ◌>>◌,
}
use hpc_workspace.World.Caps.{
  may_write, cap_dac_override, cap_dac_read_search, raise_cap, lower_cap, become_db_user,
  become_root,
}
use hpc_workspace.Config.{bind, fs_config, database_of, deleted_of}
use hpc_workspace.Names.{join_path, entry_name}
use hpc_workspace.Db.{WsDb, open_entry}
use hpc_workspace.Workspace.{Workspace, entry_file, exists, rename_in, mv}

-- How a restore ends: "restore successful", "moving data failed", "workspace does not exist".
pub data Ending : Type 0 where
  restored kept_entry not_there : Ending

-- The move into the target workspace: `rename`, and `mv` on `EXDEV` only. Whether it counts as
-- done, and the directories, from the two answers.
abbrev pub or_mv : RenameResult × Dict Dir → ℕ × Dict Dir → Bool × Dict Dir
or_mv (renamed, dirs) m = (true, dirs)
or_mv (cross_device, _) (r, dirs) = (r == 0, dirs)
or_mv (rename_failed, dirs) m = (false, dirs)

unfoldable pub move_into : Libs → Host → Text → Text → Text → Dict Dir → Bool × Dict Dir
unfolding rename_in mv
move_into L h source targetpath targetwsdir dirs =
    or_mv (rename_in h source targetpath dirs) (mv L h source targetwsdir dirs)

module _ (L : Libs) (h : Host) (s : Workspace) (name target username : Text) where
  -- The raised part of `restore`.
  unfoldable pub move_data : Text → Text → Text → M L.File Ending
  move_data dbfilename wssource targetwsdir = do
    let targetpath = join_path targetwsdir (L.filename wssource)
    raise_cap h cap_dac_override
    raise_cap h cap_dac_read_search
    done ← gets (λ w. (move_into L h wssource targetpath targetwsdir w.dirs).0)
    modify (λ w. record w { dirs = (move_into L h wssource targetpath targetwsdir w.dirs).1 })
    become_db_user h s.config.dbuid s.config.dbgid
    modify (λ w. record w {
      db =
          if done && (may_write h s.config.dbuid w && h.remove_ok dbfilename)
          then erase dbfilename w.db
          else w.db;
    })
    become_root h
    lower_cap h cap_dac_override s.config.dbuid
    lower_cap h cap_dac_read_search s.config.dbuid
    pure (if done then restored else kept_entry)

  -- The entry of the released workspace, where it is there.
  unfoldable pub restore_from : Text → Text → Text → M L.File Ending
  restore_from deleted dbfilename targetwsdir = do
    dbentry ← open_entry L dbfilename s.config.dbuid s.config.dbgid
    move_data dbfilename (join_path (join_path (L.parent_path dbentry.wsdir) deleted) name)
        targetwsdir

  -- `Workspace::restore`
  unfoldable pub restore : M L.File Ending
  restore = do
    database ← or_fail (database_of s.config s.filesystem) uncaught_exception
    deleted ← or_fail (deleted_of s.config s.filesystem) uncaught_exception
    let dbfilename = join_path (join_path database deleted) name
    let targetdbfilename = join_path database (entry_name username target)
    fail_if (not (default_to true (bind (fs_config s.config s.filesystem) (λ c. c.restorable))))
        not_restorable
    target_found ← gets (λ w. exists targetdbfilename w.db)
    fail_if (not target_found) no_target
    targetdbentry ← open_entry L targetdbfilename s.config.dbuid s.config.dbgid
    found ← gets (λ w. exists dbfilename w.db)
    if found then restore_from deleted dbfilename targetdbentry.wsdir else pure not_there
