-- ===== src/Old/Release.antt =====
-- old/ws_release.cpp.
use hpc_workspace.Base.{Bool, true, false, not, Option, none, some, if◌then◌else◌}
use hpc_workspace.Base.Int.{pos}
use hpc_workspace.Base.Text.{Text}
use hpc_workspace.Base.Dict.{lookup}
use hpc_workspace.World.{
  Host, Libs, M, Result, ok, err, usage, bad_name, uncaught_exception, undefined_behaviour,
  ws_not_found, db_not_deleted, ws_not_removed, or_fail, fail_if, gets, modify, ◌>>=◌, ◌>>◌,
}
use hpc_workspace.World.Caps.{cap_dac_override}
use hpc_workspace.Config.{Config, UserConfig, ws_release, deleted_of}
use hpc_workspace.Names.{match_e1, join_path, entry_name}
use hpc_workspace.Workspace.{entry_file, exists, rename_in}
use hpc_workspace.Release.{is_renamed, move_dir}
use hpc_workspace.Programs.{of_result}
use hpc_workspace.Old.{read_dbfile, drop_cap, raise_cap, lower_cap}
use hpc_workspace.Old.Access.{validate}

pub record ReleaseOptions : Type 0 where
  pub help : Bool
  pub name : Option Text
  pub filesystem : Option Text

-- `commandline`
unfoldable pub release_commandline : ReleaseOptions → Result Text
unfolding match_e1
release_commandline o = if o.help then err usage else elim o.name [
  | none ↦ err usage
  | some name ↦ if not (match_e1 name) then err bad_name else ok name
]

module _ (L : Libs) (h : Host) (config : Config) where
  -- The rename of the entry.
  unfoldable pub move_entry : Text → Text → M L.File (Unit {0})
  unfolding raise_cap lower_cap rename_in
  move_entry source target = do
    raise_cap h cap_dac_override
    answer ← gets (λ w. (rename_in h source target w.db).0)
    modify (λ w. record w { db = (rename_in h source target w.db).1 })
    lower_cap h cap_dac_override config.dbuid
    fail_if (not (is_renamed answer)) db_not_deleted

  -- The rename of the directory, with `mv` if it fails.
  unfoldable pub move_workspace : Text → Text → M L.File (Unit {0})
  unfolding raise_cap lower_cap move_dir
  move_workspace source target = do
    raise_cap h cap_dac_override
    answer ← gets (λ w. (move_dir L h source target w.dirs).0)
    modify (λ w. record w { dirs = (move_dir L h source target w.dirs).1 })
    lower_cap h cap_dac_override config.dbuid
    fail_if (not answer) ws_not_removed

  -- The body of `main` behind the validation.
  unfoldable pub release : Text → Text → Text → M L.File (Unit {0})
  unfolding entry_file join_path entry_name lookup
  release filesystem username name = do
    dbfilename ← or_fail (entry_file config filesystem username name) uncaught_exception
    found ← gets (λ w. exists dbfilename w.db)
    fail_if (not found) ws_not_found
    e ← read_dbfile L dbfilename
    deleted ← or_fail (deleted_of config filesystem) uncaught_exception
    let stamped = entry_name (entry_name username name) (L.to_text (h.clock 0))
    move_entry dbfilename (join_path (join_path (L.parent_path dbfilename) deleted) stamped)
    move_workspace e.wsdir (join_path (join_path (L.parent_path e.wsdir) deleted) stamped)

  -- `main`
  unfoldable pub release_main : UserConfig → ReleaseOptions → M L.File (Unit {0})
  unfolding drop_cap raise_cap lower_cap validate release
  release_main userconfig o = do
    name ← of_result (release_commandline o)
    drop_cap h
        (record { chown = false; dac_override = true; dac_read_search = false; fowner = false })
        config.dbuid
    raise_cap h cap_dac_override
    lower_cap h cap_dac_override config.dbuid
    username ← or_fail (h.getpwuid h.uid) undefined_behaviour
    v ← validate h config userconfig username ws_release o.filesystem (pos 0) (pos 0)
    release v.filesystem username name
