-- ===== src/Programs.antt =====
-- The programs: the checks of src/ws_release.cpp, src/ws_restore.cpp and src/ws_allocate.cpp on
-- their options, and the order of calls in each `main`. The options are what Boost has parsed.
pub mod Restoring
pub mod Allocating
pub mod After
pub mod Runs
use hpc_workspace.Base.{
  ℕ, Bool, true, false, not, Option, none, some, List, [], if◌then◌else◌, default_to,
}
use hpc_workspace.Base.Int.{pos}
use hpc_workspace.Base.Text.{Text, text_eq, codes, is_empty}
use hpc_workspace.World.{Host, Libs, M, Result, ok, err, usage, bad_name, only_root, ◌>>=◌, ◌>>◌}
use hpc_workspace.World.Caps.{allocate_caps, drop_cap}
use hpc_workspace.Config.{Config, UserConfig, Opts, ws_release}
use hpc_workspace.Names.{valid_name}
use hpc_workspace.Workspace.{new_workspace}
use hpc_workspace.Release.{release}

abbrev pub of_result : {F A : Type 0} → Result A → M F A
of_result r w = (r, w)

-- A name that is required.
unfoldable pub checked_name : Option Text → Result Text
unfolding valid_name
checked_name none = err usage
checked_name (some name) = if not (valid_name name) then err bad_name else ok name

-- The options of ws_release; `shows` is --help or --version.
pub record ReleaseOptions : Type 0 where
  pub shows : Bool
  pub name : Option Text
  pub filesystem : Option Text
  pub userworkspace : Bool
  pub delete_data : Bool

-- `commandline` of src/ws_release.cpp
unfoldable pub release_commandline : ReleaseOptions → Result Text
release_commandline o = if o.shows then err usage else checked_name o.name

abbrev pub release_opts : ReleaseOptions → Opts
release_opts o = record {
  filesystem = o.filesystem;
  groupname = [];
  extension = false;
  group = false;
  userworkspace = o.userworkspace;
  delete_data = o.delete_data;
}

-- `main` of src/ws_release.cpp
unfoldable pub release_main :
    (L : Libs) → Host → Config → UserConfig → ReleaseOptions → M L.File (Unit {0})
release_main L h config userconfig o = do
  drop_cap h allocate_caps config.dbuid
  name ← of_result (release_commandline o)
  s ← new_workspace h config userconfig ws_release (release_opts o) (pos 0) (pos 0)
  release L h s name
