-- ===== src/Workspace.antt =====
-- `class Workspace` of src/ws.h: its members, its constructor, and the names of database entries
-- that its operations share. The operations are in Allocate, Release and Restore.
pub mod Duration
pub mod Rename
pub mod After
use hpc_workspace.Base.{ℕ, Bool, true, false, Option, none, some, ◌==◌, if◌then◌else◌}
use hpc_workspace.Base.Int.{ℤ, pos, ◌+ℤ◌, ◌*ℤ◌, wrap32}
use hpc_workspace.Base.Text.{Text}
use hpc_workspace.Base.Dict.{Dict, lookup, insert, erase}
use hpc_workspace.World.{
  Host, Libs, Dir, M, RenameResult, renamed, cross_device, rename_failed, no_child, child, killed,
  undefined_behaviour, pure, or_fail, ◌>>=◌, ◌>>◌,
}
use hpc_workspace.World.Caps.{cap_dac_override, raise_cap, lower_cap}
use hpc_workspace.Config.{Config, UserConfig, Opts, WhichClient, bind, database_of}
use hpc_workspace.Names.{entry_name, join_path}
use hpc_workspace.Access.{validate}

pub record Workspace : Type 0 where
  pub config : Config
  pub userconfig : UserConfig
  pub opt : Opts
  pub maxextensions : ℤ
  pub duration : ℤ
  pub filesystem : Text
  pub acctcode : Text
  pub username : Text

-- The constructor: raises CAP_DAC_OVERRIDE to read the private configuration, asks who the caller
-- is, and validates. `max` is what `maxextensions` holds before it is set; a uid without a name is a
-- null pointer that is read.
unfoldable pub new_workspace :
    {F : Type 0} → Host → Config → UserConfig → WhichClient → Opts → ℤ → ℤ → M F Workspace
unfolding raise_cap lower_cap validate
new_workspace h config userconfig wc opt duration max = do
  raise_cap h cap_dac_override
  lower_cap h cap_dac_override config.dbuid
  username ← or_fail (h.getpwuid h.uid) undefined_behaviour
  v ← validate h config userconfig username wc opt duration max
  pure (record {
    config = config;
    userconfig = userconfig;
    opt = opt;
    maxextensions = v.maxextensions;
    duration = v.duration;
    filesystem = v.filesystem;
    acctcode = v.primarygroup;
    username = username;
  })

-- `config["workspaces"][fs]["database"].as<string>() + "/" + user + "-" + name`; `none` where the
-- key is missing and `as` throws.
unfoldable pub entry_file : Config → Text → Text → Text → Option Text
unfolding lookup join_path entry_name
entry_file config fs user name =
    bind (database_of config fs) (λ database. some (join_path database (entry_name user name)))

-- `fs::exists`
abbrev pub exists : {V : Type 0} → Text → Dict V → Bool
exists p m = elim (lookup p m) [ none ↦ false | some v ↦ true ]

-- `duration*24*3600`, in `int`.
unfoldable pub duration_seconds : ℤ → ℤ
unfolding ◌*ℤ◌ wrap32
duration_seconds duration = wrap32 (wrap32 (duration *ℤ 24) *ℤ 3600)

-- `time(NULL)+duration*24*3600`, at the n-th reading of the clock.
unfoldable pub expiration_after : Host → ℕ → ℤ → ℤ
unfolding ◌+ℤ◌ duration_seconds
expiration_after h n duration = pos (h.clock n) +ℤ duration_seconds duration

-- `rename(2)` on a part of the file tree: it fails on a source that is not there.
unfoldable pub rename_in : {V : Type 0} → Host → Text → Text → Dict V → RenameResult × Dict V
unfolding lookup insert erase
rename_in h source target m = elim (lookup source m) [
  | none ↦ (rename_failed, m)
  | some v ↦ elim (h.rename_answer source target) [
    | renamed ↦ (renamed, insert target v (erase source m))
    | cross_device ↦ (cross_device, m)
    | rename_failed ↦ (rename_failed, m)
  ]
]

-- Where `/bin/mv` puts a directory: into the target, if that is a directory.
abbrev pub mv_target : Libs → Text → Text → Dict Dir → Text
mv_target L source target dirs =
    if exists target dirs then join_path target (L.filename source) else target

-- What a child that ends with 0 has moved.
abbrev pub moved_dirs : Libs → Text → Text → Dict Dir → Dict Dir
moved_dirs L source target dirs = elim (lookup source dirs) [
  | none ↦ dirs
  | some d ↦ insert (mv_target L source target dirs) d (erase source dirs)
]

-- `Workspace::mv`: `WEXITSTATUS` of the child, which is 0 also where a signal has killed it, and 0 if
-- the fork fails. `/bin/mv` is taken to be there: a child that cannot start it would go on with the
-- program.
unfoldable pub mv : Libs → Host → Text → Text → Dict Dir → ℕ × Dict Dir
unfolding lookup insert erase join_path
mv L h source target dirs = elim (h.fork_answer source target) [
  | no_child ↦ (0, dirs)
  | child status ↦ (
    status,
    if status == 0 then moved_dirs L source target dirs else h.mv_left source target dirs,
  )
  | killed ↦ (0, h.mv_left source target dirs)
]
