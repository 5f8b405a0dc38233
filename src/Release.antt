-- ===== src/Release.antt =====
-- `Workspace::release` of src/ws.cpp: the entry and the directory of a workspace are moved into the
-- `deleted` directories beside them, under a name with a timestamp; with --delete-data both are
-- removed from there.
pub mod Moved
pub mod Deleted
pub mod After
pub mod Builds
use hpc_workspace.Base.{
  ℕ, Bool, true, false, ◌&&◌, not, Option, none, some, [], ◌++◌, ◌∷◌, ◌==◌, if◌then◌else◌,
}
use hpc_workspace.Base.Int.{pos}
use hpc_workspace.Base.Text.{Text}
use hpc_workspace.Base.Dict.{Dict, lookup, insert, erase}
use hpc_workspace.World.{
  Host, Libs, World, Dir, DbFile, M, RenameResult, renamed, cross_device, rename_failed, Result, ok,
  err, uncaught_exception, ws_not_found, db_not_deleted, ws_not_removed, pure, or_fail, fail_if,
  gets, modify, when, ◌>>=◌, ◌>>◌,
}
use hpc_workspace.World.Caps.{
  may_write, cap_dac_override, cap_fowner, raise_cap, lower_cap, become_db_user, seteuid, setegid,
}
use hpc_workspace.Config.{database_of, deleted_of}
use hpc_workspace.Names.{join_path, entry_name}
use hpc_workspace.Db.{WsDb, open_entry, write_dbfile}
use hpc_workspace.Workspace.{Workspace, exists, rename_in, mv}

abbrev pub is_renamed : RenameResult → Bool
is_renamed renamed = true
is_renamed cross_device = false
is_renamed rename_failed = false

-- `if (rename(…)) { r = mv(…); if (r != 0) … }`: whether the directory counts as moved, and the
-- directories, from the two answers.
abbrev pub or_mv : RenameResult × Dict Dir → ℕ × Dict Dir → Bool × Dict Dir
or_mv (renamed, dirs) m = (true, dirs)
or_mv (cross_device, _) (r, dirs) = (r == 0, dirs)
or_mv (rename_failed, _) (r, dirs) = (r == 0, dirs)

unfoldable pub move_dir : Libs → Host → Text → Text → Dict Dir → Bool × Dict Dir
unfolding rename_in mv
move_dir L h source target dirs = or_mv (rename_in h source target dirs) (mv L h source target dirs)

-- `rename` of a file of the database, by a process that may change the database or may not.
unfoldable pub rename_if :
    {F : Type 0} → Bool → Host → Text → Text → Dict (DbFile F) → RenameResult × Dict (DbFile F)
unfolding rename_in
rename_if true h source target db = rename_in h source target db
rename_if false h source target db = (rename_failed, db)

module _ (L : Libs) (h : Host) (s : Workspace) (name : Text) where
  -- `userprefix + name`: root gives the whole name with --userworkspace.
  unfoldable pub full_name : Text
  full_name = if s.opt.userworkspace && h.uid == 0 then name else entry_name s.username name

  -- `userprefix + name + "-" + timestamp`, at the first reading of the clock.
  unfoldable pub stamped : Text
  unfolding full_name
  stamped = entry_name full_name (L.to_text (h.clock 0))

  -- `fs::path(p).parent_path().string() + "/" + deleted + "/" + stamped`
  unfoldable pub deleted_path : Text → Text → Text
  unfolding stamped join_path
  deleted_path deleted p = join_path (join_path (L.parent_path p) deleted) stamped

  -- The entry as it is written before it is moved.
  unfoldable pub released_entry : WsDb → WsDb
  released_entry e = record e { expiration = pos (h.clock 1); released = pos (h.clock 2) }

  -- The rename of the entry, by the database user.
  unfoldable pub move_entry : Text → Text → M L.File (Unit {0})
  move_entry source target = do
    raise_cap h cap_dac_override
    raise_cap h cap_fowner
    become_db_user h s.config.dbuid s.config.dbgid
    answer ← gets (λ w. (rename_if (may_write h s.config.dbuid w) h source target w.db).0)
    modify
        (λ w. record w { db = (rename_if (may_write h s.config.dbuid w) h source target w.db).1 })
    lower_cap h cap_dac_override s.config.dbuid
    lower_cap h cap_fowner s.config.dbuid
    fail_if (not (is_renamed answer)) db_not_deleted

  unfoldable pub move_workspace : Text → Text → M L.File (Unit {0})
  move_workspace source target = do
    raise_cap h cap_dac_override
    answer ← gets (λ w. (move_dir L h source target w.dirs).0)
    modify (λ w. record w { dirs = (move_dir L h source target w.dirs).1 })
    lower_cap h cap_dac_override s.config.dbuid
    fail_if (not answer) ws_not_removed

  -- `#ifdef SETUID`: a change of the effective user that only prints an error if it fails.
  abbrev pub try_user : ℕ → M L.File (Unit {0})
  try_user u = when h.setuid_build (seteuid h u >>= λ b. pure tt)

  abbrev pub try_db_user : M L.File (Unit {0})
  try_db_user = when h.setuid_build (do
    group_changed ← setegid h s.config.dbgid
    when group_changed (seteuid h s.config.dbuid >>= λ b. pure tt))

  -- The n-th `fs::remove_all(p, ec)`.
  unfoldable pub removed_all : ℕ → Text → Dict Dir → Dict Dir
  unfolding lookup insert erase
  removed_all n p dirs = elim (lookup p dirs) [
    | none ↦ dirs
    | some d ↦ elim (h.remove_all n p) [
      | none ↦ erase p dirs
      | some files ↦ insert p (record d { files = files }) dirs
    ]
  ]

  -- --delete-data: the directory is removed as the user, and what is left as the database user;
  -- then the entry is removed, and an error there is an exception.
  unfoldable pub delete_data : Text → Text → M L.File (Unit {0})
  unfolding erase removed_all
  delete_data wstarget dbtarget = do
    raise_cap h cap_fowner
    try_user h.uid
    modify (λ w. record w { dirs = removed_all 0 wstarget w.dirs })
    try_user 0
    lower_cap h cap_fowner s.config.dbuid
    modify (λ w. record w { dirs = removed_all 1 wstarget w.dirs })
    raise_cap h cap_dac_override
    try_db_user
    removes ← gets (λ w. may_write h s.config.dbuid w && h.remove_ok dbtarget)
    modify (λ w. record w { db = if removes then erase dbtarget w.db else w.db })
    fail_if (not removes) uncaught_exception
    lower_cap h cap_dac_override s.config.dbuid

  -- `Workspace::release`
  unfoldable pub release : M L.File (Unit {0})
  release = do
    database ← or_fail (database_of s.config s.filesystem) uncaught_exception
    let dbfilename = join_path database full_name
    found ← gets (λ w. exists dbfilename w.db)
    fail_if (not found) ws_not_found
    dbentry ← open_entry L dbfilename s.config.dbuid s.config.dbgid
    write_dbfile L h (released_entry dbentry)
    deleted ← or_fail (deleted_of s.config s.filesystem) uncaught_exception
    move_entry dbfilename (deleted_path deleted dbfilename)
    move_workspace dbentry.wsdir (deleted_path deleted dbentry.wsdir)
    when s.opt.delete_data
        (delete_data (deleted_path deleted dbentry.wsdir) (deleted_path deleted dbfilename))
