-- ===== src/Release/Deleted.antt =====
-- A release with --delete-data, in the capabilities build.
use hpc_workspace.Base.Text.{Text}
use hpc_workspace.Base.Dict.{Dict}
use hpc_workspace.World.{Host, Libs}
use hpc_workspace.Workspace.{Workspace}
use hpc_workspace.Db.{WsDb}
use hpc_workspace.Release.Moved.{dir_target}

module _ (L : Libs) (h : Host) (s : Workspace) (name database deleted : Text) (e : WsDb) where
  abbrev to : Text
  to = dir_target L h s name database deleted e
