-- ===== src/Restore/Builds.antt =====
-- `restore` (src/ws.cpp) in the two builds.
use hpc_workspace.Base.Text.{Text}
use hpc_workspace.Base.Dict.{Dict}
use hpc_workspace.World.{World}
use hpc_workspace.Workspace.{Workspace}
