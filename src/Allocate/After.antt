-- ===== src/Allocate/After.antt =====
-- Which files `allocate` (src/ws.cpp) can change, however it ends: the database entry with the
-- user's and the workspace's names on one of the filesystems, and directories.
pub mod Whole
use hpc_workspace.Base.{
  ℕ, Bool, not, ◌&&◌, Option, some, none, Option-cases, Bool-cases, List, [], ◌∷◌, inl, inr, refl,
  ◌≡◌, true, false, if◌then◌else◌,
}
use hpc_workspace.Base.Int.{ℤ, pos, eqb_ℤ}
use hpc_workspace.Base.Text.{Text}
use hpc_workspace.Base.Dict.{Dict}
use hpc_workspace.World.{
  Host, Libs, World, DbFile, Dir, M, ok, err, Error, continue, or_fail, Result-cases,
}
use hpc_workspace.World.Caps.{cap_chown, cap_fowner}
use hpc_workspace.World.After.{
  After, After-continue, After-end, After-or_fail, After-if, After-some, After-branch,
}
use hpc_workspace.Access.After.{After-get_valid_fslist}
use hpc_workspace.Db.{WsDb, create_entry}
use hpc_workspace.Db.After.{Writes, After-with_entry, After-use_extension, After-create_entry}
use hpc_workspace.Workspace.{Workspace, entry_file}
use hpc_workspace.Allocate.{
  Request, Allocated, new_entry, entry_user, search_list, new_expiration, extend_entry, use_entry,
  search_in, make_directory, change_with, target_ids, entry_group, create_directory, choose_wsdir,
  create,
}

module _ (L : Libs) (h : Host) (s : Workspace) (r : Request) (P : World L.File → Type 0) where
  -- Every change that `allocate` makes keeps `P`.
  pub record KeepsAllocate : Type 0 where
    pub writes :
        (fs p : Text) → entry_file s.config fs (entry_user L h s r) r.name ≡ some p → Writes L h P p
    pub makes : (wsdir : Text) (w : World L.File) → P w → After P (make_directory L h s r wsdir w)
    pub owns :
        (succeeds : Bool) (f : Dir → Dir) (wsdir : Text) (e : Error) (w : World L.File)
        → P w
        → After P (change_with L h s r cap_chown succeeds f wsdir e w)
    pub modes :
        (succeeds : Bool) (f : Dir → Dir) (wsdir : Text) (e : Error) (w : World L.File)
        → P w
        → After P (change_with L h s r cap_fowner succeeds f wsdir e w)

  -- Every change that `create` makes keeps `P`.
  pub record KeepsCreate : Type 0 where
    pub writes :
        (p : Text)
        → entry_file s.config s.filesystem (entry_user L h s r) r.name ≡ some p
        → Writes L h P p
    pub makes : (wsdir : Text) (w : World L.File) → P w → After P (make_directory L h s r wsdir w)
    pub owns :
        (succeeds : Bool) (f : Dir → Dir) (wsdir : Text) (e : Error) (w : World L.File)
        → P w
        → After P (change_with L h s r cap_chown succeeds f wsdir e w)
    pub modes :
        (succeeds : Bool) (f : Dir → Dir) (wsdir : Text) (e : Error) (w : World L.File)
        → P w
        → After P (change_with L h s r cap_fowner succeeds f wsdir e w)

  pub KeepsAllocate-create : KeepsAllocate → KeepsCreate
  KeepsAllocate-create k = record {
    writes = k.writes s.filesystem;
    makes = k.makes;
    owns = k.owns;
    modes = k.modes;
  }

  pub After-search_list : (w : World L.File) → P w → After P (search_list L h s r w)
  unfolding search_list
  After-search_list w q = elim (Option-cases s.opt.filesystem) [
    | inl missing ↦
        rw (missing, search_list)
          (search
            (
              After-continue P,
              After-end P,
              After-get_valid_fslist h s.config s.userconfig s.username P,
            )
            depth 20)
    | inr (fs, given) ↦ rw (given, search_list) (After-end P _ w q)
  ]

  pub After-new_expiration :
      (fs : Text) (w : World L.File) → P w → After P (new_expiration L h s r fs w)
  unfolding new_expiration
  After-new_expiration fs w q = elim (Bool-cases (eqb_ℤ s.duration (pos 0))) [
    | inl unset ↦ rw (unset, new_expiration) (After-end P _ w q)
    | inr set ↦ rw (set, new_expiration) (search (After-some P, After-end P) depth 20)
  ]

  module _ (p : Text) (k : Writes L h P p) where
    After-extend_entry :
        (fs : Text) (e : WsDb)
        → e.dbfilename ≡ p
        → (w : World L.File) → P w
        → After P (extend_entry L h s r fs e w)
    unfolding extend_entry
    After-extend_entry fs e same w q =
        search (After-continue P, After-end P, After-new_expiration, After-use_extension L h P p k)
          depth 30

    pub After-use_entry : (fs : Text) (w : World L.File) → P w → After P (use_entry L h s r fs p w)
    unfolding use_entry
    After-use_entry fs w q =
        After-with_entry L P p s.config.dbuid s.config.dbgid _ w q (λ e v same q'.
          elim (Bool-cases r.extensionflag) [
            | inl extends ↦ rw extends (After-extend_entry fs e same v q')
            | inr reuses ↦ rw reuses (After-end P _ v q')
          ])

  module _ (k : KeepsAllocate) where
    pub After-search_in :
        (fs : Text) (more : M L.File (Option Allocated)) (w : World L.File)
        → P w
        → ((v : World L.File) → P v → After P (more v))
        → After P (search_in L h s r fs more w)
    unfolding search_in
    After-search_in fs more w q go =
        search
          (After-some P, After-branch P, After-continue P, After-end P, After-use_entry, k.writes)
          depth 40

  module _ (k : KeepsCreate) where
    After-target_ids : (w : World L.File) → P w → After P (target_ids L h s r w)
    unfolding target_ids
    After-target_ids w q =
        search (After-branch P, After-continue P, After-or_fail P, After-end P) depth 20

    After-entry_group : (w : World L.File) → P w → After P (entry_group L h s r w)
    unfolding entry_group
    After-entry_group w q =
        search (After-branch P, After-continue P, After-or_fail P, After-end P) depth 20

    After-create_directory :
        (wsdir : Text) (w : World L.File) → P w → After P (create_directory L h s r wsdir w)
    unfolding create_directory
    After-create_directory wsdir w q =
        search (After-continue P, After-target_ids, k.makes, k.owns, k.modes) depth 30

    After-choose_wsdir : (w : World L.File) → P w → After P (choose_wsdir L h s r w)
    unfolding choose_wsdir
    After-choose_wsdir w q = search (After-continue P, After-or_fail P, After-end P) depth 30

    After-new_entry :
        (p wsdir group : Text) (w : World L.File)
        → entry_file s.config s.filesystem (entry_user L h s r) r.name ≡ some p
        → P w
        → After P (create_entry L h (new_entry L h s r p wsdir group) w)
    After-new_entry p wsdir group w file q =
        After-create_entry L h P p (k.writes p file) (new_entry L h s r p wsdir group) refl w q

    pub After-create : (w : World L.File) → P w → After P (create L h s r w)
    unfolding create
    After-create w q =
        search
          (
            After-some P,
            After-continue P,
            After-end P,
            After-choose_wsdir,
            After-create_directory,
            After-entry_group,
            After-new_entry,
          )
          depth 60
