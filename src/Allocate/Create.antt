-- ===== src/Allocate/Create.antt =====
-- What `allocate` leaves when it creates a workspace, in the capabilities build.
use hpc_workspace.Base.{ℕ, ◌≡◌, refl, Bool, true, false, not, some, []}
use hpc_workspace.Base.{if◌then◌else◌}
use hpc_workspace.Base.Text.{Text, text_eq_refl}
use hpc_workspace.Base.Dict.{Dict, lookup, lookup-insert}
use hpc_workspace.World.{
  Host, Libs, World, Dir, DbFile, Error, ok, err, chown_failed, chmod_failed, mkdir_failed,
  continue,
}
use hpc_workspace.World.Caps.{Cap, cap_chown, cap_dac_override, cap_fowner, idle, allocate_caps}
use hpc_workspace.World.Caps.Steps.{by_cap}
use hpc_workspace.Workspace.{Workspace, exists}
use hpc_workspace.Allocate.Choice.{dir_mode}
use hpc_workspace.Allocate.{
  unlinked, Request, made_dirs, make_directory, changed_dirs, change_with, create_directory,
  target_ids,
}

-- Every capability that ws_allocate raises for a directory is permitted.
abbrev IsRaised : Cap → Type 0
IsRaised cap_chown = Unit
IsRaised cap_fowner = Unit
IsRaised cap_dac_override = ⊥
IsRaised Cap.cap_dac_read_search = ⊥

-- A directory as `create_directories` leaves it.
abbrev pub bare_dir : ℕ → ℕ → Dir
bare_dir euid egid = record { owner = euid; group = egid; mode = 0o700; files = [] }

-- The finished directory, with its owner and group.
abbrev pub finished_dir : Workspace → Request → ℕ × ℕ → Dir
finished_dir s r ids = record {
  owner = ids.0;
  group = ids.1;
  mode = dir_mode s.opt.group r.groupname;
  files = [];
}

module _ (L : Libs) (h : Host) (s : Workspace) (r : Request) (build : h.setuid_build ≡ false) where
  -- The directories after `chown` or `chmod`, and `unlink` if it fails.
  abbrev left_dirs : Host → Bool → (Dir → Dir) → Text → Dict Dir → Dict Dir
  left_dirs k succeeds f wsdir m =
      let changed = changed_dirs L k s r succeeds f wsdir m in
      if succeeds then changed else unlinked L k s r wsdir changed

  module _ (db : Dict (DbFile L.File)) (dirs : Dict Dir) (euid egid : ℕ) where
    make_directory_lem :
        (wsdir : Text)
        → make_directory L h s r wsdir (idle allocate_caps db dirs euid egid) ≡ (
          if not (h.mkdir_ok wsdir) then err mkdir_failed else ok tt,
          idle allocate_caps db (made_dirs L h s r wsdir euid egid dirs) euid egid,
        )
    unfolding make_directory
    make_directory_lem wsdir =
        by_cap
          (λ k. make_directory L k s r wsdir (idle allocate_caps db dirs euid egid) ≡ (
            if not (k.mkdir_ok wsdir) then err mkdir_failed else ok tt,
            idle allocate_caps db (made_dirs L k s r wsdir euid egid dirs) euid egid,
          ))
          h build refl

    change_with_lem :
        (c : Cap) (succeeds : Bool) (f : Dir → Dir) (wsdir : Text) (e : Error)
        → IsRaised c
        → change_with L h s r c succeeds f wsdir e (idle allocate_caps db dirs euid egid) ≡ (
          if not succeeds then err e else ok tt,
          idle allocate_caps db (left_dirs h succeeds f wsdir dirs) euid egid,
        )
    unfolding change_with
    change_with_lem cap_chown succeeds f wsdir e p =
        by_cap
          (λ k.
            change_with L k s r cap_chown succeeds f wsdir e (idle allocate_caps db dirs euid egid)
            ≡ (
              if not succeeds then err e else ok tt,
              idle allocate_caps db (left_dirs k succeeds f wsdir dirs) euid egid,
            ))
          h build refl
    change_with_lem cap_fowner succeeds f wsdir e p =
        by_cap
          (λ k.
            change_with L k s r cap_fowner succeeds f wsdir e (idle allocate_caps db dirs euid egid)
            ≡ (
              if not succeeds then err e else ok tt,
              idle allocate_caps db (left_dirs k succeeds f wsdir dirs) euid egid,
            ))
          h build refl
    change_with_lem cap_dac_override succeeds f wsdir e p = elim p [ ]
    change_with_lem Cap.cap_dac_read_search succeeds f wsdir e p = elim p [ ]

  module _ (wsdir : Text) (db : Dict (DbFile L.File)) (dirs : Dict Dir) (euid egid : ℕ)
      (ids : ℕ × ℕ) where
    lookup-made_dirs :
        h.mkdir_ok wsdir ≡ true
        → exists wsdir dirs ≡ false
        → lookup wsdir (made_dirs L h s r wsdir euid egid dirs) ≡ some (bare_dir euid egid)
    unfolding made_dirs
    lookup-made_dirs made new = rw (made, new, made_dirs) (rw (lookup-insert, text_eq_refl wsdir))

    lookup-changed_dirs :
        (f : Dir → Dir) (d : Dir) (m : Dict Dir)
        → lookup wsdir m ≡ some d
        → lookup wsdir (changed_dirs L h s r true f wsdir m) ≡ some (f d)
    unfolding changed_dirs
    lookup-changed_dirs f d m found =
        rw (found, changed_dirs) (rw (lookup-insert, text_eq_refl wsdir))

    -- Every call succeeds: the directory has its owner and its permissions.
    pub create_directory_lem :
        h.mkdir_ok wsdir ≡ true
        → h.chown_ok wsdir ≡ true
        → h.chmod_ok wsdir ≡ true
        → exists wsdir dirs ≡ false
        → ((w : World L.File) → target_ids L h s r w ≡ (ok ids, w))
        → (dirs' : Dict Dir) × (create_directory L h s r wsdir
              (idle allocate_caps db dirs euid egid)
            ≡ (ok tt, idle allocate_caps db dirs' euid egid))
          × (lookup wsdir dirs' ≡ some (finished_dir s r ids))
    unfolding create_directory
    create_directory_lem made owned moded new target =
        let d1 = made_dirs L h s r wsdir euid egid dirs in
        let f1 : Dir → Dir = λ d. record d { owner = ids.0; group = ids.1 } in
        let d2 = changed_dirs L h s r true f1 wsdir d1 in
        let f2 : Dir → Dir = λ d. record d { mode = dir_mode s.opt.group r.groupname } in
        (
          changed_dirs L h s r true f2 wsdir d2,
          rw (make_directory_lem db dirs euid egid wsdir, create_directory, made)
              (rw (target, continue, owned)
                (rw
                  (
                    change_with_lem db d1 euid egid cap_chown true f1 wsdir chown_failed tt,
                    continue,
                    moded,
                  )
                  (change_with_lem db d2 euid egid cap_fowner true f2 wsdir chmod_failed tt))),
          lookup-changed_dirs f2 _ d2 (lookup-changed_dirs f1 _ d1 (lookup-made_dirs made new)),
        )
