-- ===== src/Release/After.antt =====
-- What `release` (src/ws.cpp) keeps, however it ends, if each of its steps keeps it.
use hpc_workspace.Base.{some, ◌≡◌, true}
use hpc_workspace.Base.Text.{Text}
use hpc_workspace.World.{Host, Libs, World}
use hpc_workspace.World.After.{After, After-continue, After-end, After-when, After-some}
use hpc_workspace.Config.{database_of, deleted_of}
use hpc_workspace.Names.{join_path}
use hpc_workspace.Db.{WsDb, write_dbfile}
use hpc_workspace.Db.After.{Writes, After-with_entry}
use hpc_workspace.Workspace.{Workspace}
use hpc_workspace.Release.{
  full_name, deleted_path, released_entry, move_entry, move_workspace, delete_data, release,
}

module _ (L : Libs) (h : Host) (s : Workspace) (name : Text) (P : World L.File → Type 0) where
  -- Every change that `release` makes keeps `P`.
  pub record KeepsRelease : Type 0 where
    pub writes :
        (database : Text)
        → database_of s.config s.filesystem ≡ some database
        → Writes L h P (join_path database (full_name L h s name))
    pub moves :
        (database deleted : Text) (w : World L.File)
        → database_of s.config s.filesystem ≡ some database
        → deleted_of s.config s.filesystem ≡ some deleted
        → P w
        → let file = join_path database (full_name L h s name) in
          After P (move_entry L h s name file (deleted_path L h s name deleted file) w)
    pub moves_dir :
        (source target : Text) (w : World L.File)
        → P w
        → After P (move_workspace L h s name source target w)
    pub deletes :
        (database deleted p : Text) (w : World L.File)
        → s.opt.delete_data ≡ true
        → database_of s.config s.filesystem ≡ some database
        → deleted_of s.config s.filesystem ≡ some deleted
        → P w
        → let file = join_path database (full_name L h s name) in
          After P (delete_data L h s name p (deleted_path L h s name deleted file) w)

  module _ (k : KeepsRelease) where
    After-write_released :
        (database : Text) (e : WsDb) (w : World L.File)
        → database_of s.config s.filesystem ≡ some database
        → e.dbfilename ≡ join_path database (full_name L h s name)
        → P w
        → After P (write_dbfile L h (released_entry L h s name e) w)
    unfolding released_entry
    After-write_released database e w d same q =
        k.writes database d (released_entry L h s name e) w same q

    pub After-release : (w : World L.File) → P w → After P (release L h s name w)
    unfolding release
    After-release w q =
        search
          (
            After-some P,
            After-with_entry L P,
            After-continue P,
            After-end P,
            After-when P,
            After-write_released,
            k.moves,
            k.moves_dir,
            k.deletes,
          )
          depth 60
