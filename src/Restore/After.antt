-- ===== src/Restore/After.antt =====
-- What `restore` (src/ws.cpp) keeps, however it ends, if its one step that changes anything keeps it.
use hpc_workspace.Base.{some, ◌≡◌}
use hpc_workspace.Base.Text.{Text}
use hpc_workspace.World.{Host, Libs, World}
use hpc_workspace.World.After.{After, After-continue, After-end, After-some, After-branch}
use hpc_workspace.Config.{database_of, deleted_of}
use hpc_workspace.Names.{join_path}
use hpc_workspace.Db.After.{After-with_entry}
use hpc_workspace.Workspace.{Workspace}
use hpc_workspace.Restore.{move_data, restore_from, restore}

module _ (L : Libs) (h : Host) (s : Workspace) (name target username : Text)
    (P : World L.File → Type 0) where
  -- The step that moves the data and removes the entry keeps `P`.
  pub record KeepsRestore : Type 0 where
    pub moves :
        (database deleted source targetwsdir : Text) (w : World L.File)
        → database_of s.config s.filesystem ≡ some database
        → deleted_of s.config s.filesystem ≡ some deleted
        → P w
        → let file = join_path (join_path database deleted) name in
          After P (move_data L h s name target username file source targetwsdir w)

  module _ (k : KeepsRestore) where
    After-restore_from :
        (database deleted targetwsdir : Text) (w : World L.File)
        → database_of s.config s.filesystem ≡ some database
        → deleted_of s.config s.filesystem ≡ some deleted
        → P w
        → let file = join_path (join_path database deleted) name in
          After P (restore_from L h s name target username deleted file targetwsdir w)
    unfolding restore_from
    After-restore_from database deleted targetwsdir w d g q =
        search (After-with_entry L P, k.moves) depth 20

    pub After-restore : (w : World L.File) → P w → After P (restore L h s name target username w)
    unfolding restore
    After-restore w q =
        search
          (
            After-some P,
            After-with_entry L P,
            After-continue P,
            After-branch P,
            After-end P,
            After-restore_from,
          )
          depth 60
