-- ===== src/Programs/Runs.antt =====
-- Runs of the three programs, one after the other, by any users of the machine.
pub mod Own
pub mod Steps
pub mod Owned
pub mod Refines
pub mod History
pub mod Privileges
pub mod Idle
pub mod Lifecycle
pub mod Meanwhile
pub mod Quota
pub mod Mains
pub mod Cycle
pub mod Undo
use hpc_workspace.Base.{ℕ, Bool, true, false, not, ◌&&◌, Option, some, List, ◌≡◌, ◌==◌, is_some}
use hpc_workspace.Base.Int.{ℤ}
use hpc_workspace.Base.Text.{Text, codes, has_char}
use hpc_workspace.World.{Host, Libs, World}
use hpc_workspace.Config.{Config, UserConfig}
use hpc_workspace.Programs.{ReleaseOptions, release_main}
use hpc_workspace.Programs.Restoring.{RestoreOptions, restore_main}
use hpc_workspace.Programs.Allocating.{AllocateOptions, UserHome, allocate_main}

-- A run of one of the programs, with everything that it is given.
pub data Run : Type 0 where
  allocates : (Text → Option UserHome) → (Text → Bool) → ℤ → ℤ → AllocateOptions → Option Text → Run
  releases : ReleaseOptions → Run
  restores : (Text → Option (List Text)) → (ℕ → ℕ) → Text → RestoreOptions → Run

-- The world that a run leaves, however it ends.
unfoldable pub run : (L : Libs) → Host → Config → UserConfig → Run → World L.File → World L.File
unfolding allocate_main release_main restore_main
run L h config userconfig (allocates load_home parses reminder duration o conf) w =
    (allocate_main h load_home parses reminder duration o L config userconfig conf w).1
run L h config userconfig (releases o) w = (release_main L h config userconfig o w).1
run L h config userconfig (restores list_dir rand typed o) w =
    (restore_main L h config userconfig list_dir rand typed o w).1

-- The run is not `ws_allocate -x -u`, which extends another user's workspace.
abbrev pub OwnRun : Run → Type 0
OwnRun (allocates load_home parses reminder duration o conf) =
    (o.extension && is_some o.username) ≡ false
OwnRun (releases o) = Unit
OwnRun (restores list_dir rand typed o) = Unit
