-- ===== src/Programs/Runs/Steps.antt =====
-- Each step of the operations keeps a statement of the database files, if the changes of them that
-- it makes keep it.
use hpc_workspace.Base.{ℕ, Bool, true, false, if◌then◌else◌}
use hpc_workspace.Base.Text.{Text}
use hpc_workspace.Base.Dict.{Dict, erase}
use hpc_workspace.World.{Host, Libs, World, DbFile, Dir, Error}
use hpc_workspace.World.Caps.{Cap}
use hpc_workspace.World.After.{After, After-continue, After-end, After-if}
use hpc_workspace.World.After.Files.{
  Files, OnFiles, After-raise_cap, After-lower_cap, After-seteuid, After-setegid,
  After-become_db_user, After-become_root,
}
use hpc_workspace.Workspace.{Workspace, rename_in}
use hpc_workspace.Allocate.{Request, make_directory, change_with}
use hpc_workspace.Release.{
  rename_if, move_entry, move_workspace, delete_data, try_user, try_db_user,
}
use hpc_workspace.Restore.{move_data}

module _ (L : Libs) (h : Host) (s : Workspace) (K : Dict (DbFile L.File) → Type 0) where
  abbrev Q : Files L.File
  Q db dirs = K db

  abbrev P : World L.File → Type 0
  P = OnFiles Q

  module _ (r : Request) (w : World L.File) (k : P w) where
    pub After-make_directory : (wsdir : Text) → After P (make_directory L h s r wsdir w)
    unfolding make_directory
    After-make_directory wsdir =
        search (After-continue P, After-end P, After-raise_cap Q h, After-lower_cap Q h) depth 30

    pub After-change_with :
        (c : Cap) (succeeds : Bool) (f : Dir → Dir) (wsdir : Text) (e : Error)
        → After P (change_with L h s r c succeeds f wsdir e w)
    unfolding change_with
    After-change_with c succeeds f wsdir e =
        search (After-continue P, After-end P, After-raise_cap Q h, After-lower_cap Q h) depth 30

  module _ (name : Text) where
    pub After-move_workspace :
        (source target : Text) (w : World L.File)
        → P w
        → After P (move_workspace L h s name source target w)
    unfolding move_workspace
    After-move_workspace source target w k =
        search (After-continue P, After-end P, After-raise_cap Q h, After-lower_cap Q h) depth 30

    renamed_if :
        (b : Bool) (source target : Text) (db : Dict (DbFile L.File))
        → (K db → K (rename_in h source target db).1)
        → K db
        → K (rename_if b h source target db).1
    unfolding rename_if
    renamed_if true source target db renames k = renames k
    renamed_if false source target db renames k = k

    pub After-move_entry :
        (source target : Text) (w : World L.File)
        → ((db : Dict (DbFile L.File)) → K db → K (rename_in h source target db).1)
        → P w
        → After P (move_entry L h s name source target w)
    unfolding move_entry
    After-move_entry source target w renames k =
        search
          (
            After-continue P,
            After-end P,
            After-raise_cap Q h,
            After-lower_cap Q h,
            After-become_db_user Q h,
            renamed_if,
            renames,
          )
          depth 40

    After-try_user : (u : ℕ) (w : World L.File) → P w → After P (try_user L h s name u w)
    After-try_user u w q =
        After-if P h.setuid_build _ _ (record { holds = (After-seteuid Q h u w q).holds })
          (After-end P _ w q)

    After-try_db_user : (w : World L.File) → P w → After P (try_db_user L h s name w)
    After-try_db_user w q =
        let changed = After-setegid Q h s.config.dbgid w q in
        After-if P h.setuid_build _ _
          (After-if P (h.setegid_ok s.config.dbgid) _ _
            (record { holds = (After-seteuid Q h s.config.dbuid _ changed.holds).holds })
            (record { holds = changed.holds }))
          (After-end P _ w q)

    pub After-delete_data :
        (p target : Text) (w : World L.File)
        → ((b : Bool) (db : Dict (DbFile L.File)) → K db → K (if b then erase target db else db))
        → P w
        → After P (delete_data L h s name p target w)
    unfolding delete_data
    After-delete_data p target w erases k =
        search
          (
            After-continue P,
            After-end P,
            After-raise_cap Q h,
            After-lower_cap Q h,
            After-try_user,
            After-try_db_user,
            erases,
          )
          depth 60

    pub After-move_data :
        (target username file source targetwsdir : Text) (w : World L.File)
        → ((b : Bool) (db : Dict (DbFile L.File)) → K db → K (if b then erase file db else db))
        → P w
        → After P (move_data L h s name target username file source targetwsdir w)
    unfolding move_data
    After-move_data target username file source targetwsdir w erases k =
        search
          (
            After-continue P,
            After-end P,
            After-raise_cap Q h,
            After-lower_cap Q h,
            After-become_db_user Q h,
            After-become_root Q h,
            erases,
          )
          depth 60
