-- ===== src/Programs/Runs/Idle.antt =====
-- The privileges that a run leaves, in the capabilities build.
use hpc_workspace.Base.{true, ◌≡◌}
use hpc_workspace.Base.Text.{Text}
use hpc_workspace.World.{Host, World, CapSet}
use hpc_workspace.World.Caps.{allocate_caps, restore_caps}
use hpc_workspace.Config.{Config}
use hpc_workspace.Workspace.{Workspace}
use hpc_workspace.Programs.Runs.{Run, allocates, releases, restores}

-- The capabilities that the program keeps.
abbrev pub caps_of : Run → CapSet
caps_of (allocates load_home parses reminder duration o conf) = allocate_caps
caps_of (releases o) = allocate_caps
caps_of (restores list_dir rand typed o) = restore_caps

-- Where data are to be deleted, every file can be removed.
abbrev pub CanDelete : Host → Run → Type 0
CanDelete h (allocates load_home parses reminder duration o conf) = Unit
CanDelete h (releases o) = o.delete_data ≡ true → (p : Text) → h.remove_ok p ≡ true
CanDelete h (restores list_dir rand typed o) = Unit
