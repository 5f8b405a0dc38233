-- ===== src/Tests/Builds.antt =====
-- Witnesses for the two builds.
use hpc_workspace.Base.Text.{codes}
use hpc_workspace.World.{World}
use hpc_workspace.World.Caps.{idle, no_caps, restore_caps}
use hpc_workspace.World.Caps.Steps.{caps_host, setuid_host}
use hpc_workspace.Restore.{restore}
use hpc_workspace.Tests.{Node, libs, host, workspace}
use hpc_workspace.Tests.Restore.{two_entries, two_dirs}

abbrev restored_caps : World Node
restored_caps =
    (restore libs (caps_host host) workspace (codes "bob-w-7") (codes "t") (codes "bob")
      (idle restore_caps two_entries two_dirs 1001 100)).1

abbrev restored_setuid : World Node
restored_setuid =
    (restore libs (setuid_host host) workspace (codes "bob-w-7") (codes "t") (codes "bob")
      (idle no_caps two_entries two_dirs 900 0)).1
