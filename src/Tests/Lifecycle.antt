-- ===== src/Tests/Lifecycle.antt =====
-- A later time, for the witnesses of a release.
use hpc_workspace.Base.{◌+◌}
use hpc_workspace.World.{Host}
use hpc_workspace.Tests.{host}

-- Later on the same machine.
abbrev pub later : Host
later = record host { clock = λ n. 8 + n }
