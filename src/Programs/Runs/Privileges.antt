-- ===== src/Programs/Runs/Privileges.antt =====
-- The privileges that each step of the operations leaves, in the capabilities build.
use hpc_workspace.Base.{ℕ, Bool, true, false, ◌≡◌, refl}
use hpc_workspace.Base.Int.{ℤ}
use hpc_workspace.Base.Text.{Text}
use hpc_workspace.Base.Dict.{Dict}
use hpc_workspace.World.{Host, Libs, World, DbFile, Dir, CapSet, Error, Result, M}
use hpc_workspace.World.Caps.{
  no_caps, subset, idle, allocate_caps, restore_caps, drop_cap, raise_cap, lower_cap,
  become_db_user, become_root, cap_chown, cap_fowner, cap_dac_override, set_flag,
}
use hpc_workspace.World.Caps.Steps.{by_cap, caps_host}
use hpc_workspace.World.After.{After}
use hpc_workspace.Config.{Config, UserConfig, Opts, WhichClient}
use hpc_workspace.Workspace.After.{After-lowered}
use hpc_workspace.Db.{WsDb, write_dbfile, give_entry}
use hpc_workspace.Workspace.{Workspace, new_workspace}
use hpc_workspace.Allocate.{Request, make_directory, change_with}
use hpc_workspace.Release.{move_entry, move_workspace, delete_data}
use hpc_workspace.Restore.{move_data}
use mathlib.Core.Path.{subst⁻¹}

-- No capability is in effect, and just `caps` are permitted.
pub record IsIdle {F : Type 0} (caps : CapSet) (w : World F) : Type 0 where
  pub permitted : w.permitted ≡ caps
  pub effective : w.effective ≡ no_caps

-- A step that ends idle by computation.
ends_idle :
    {F A : Type 0} (caps : CapSet) (r : Result A) (db : Dict (DbFile F)) (dirs : Dict Dir)
    (euid egid : ℕ)
    → After (IsIdle caps) (r, idle caps db dirs euid egid)
ends_idle caps r db dirs euid egid = record {
  holds = record { permitted = refl; effective = refl };
}

module _ (L : Libs) (h : Host) (build : h.setuid_build ≡ false) where
  -- To prove a step of an idle world, prove it where the build and the capabilities are written out.
  from_idle :
      {A : Type 0} (caps : CapSet) (m : Host → M L.File A)
      → ((db : Dict (DbFile L.File)) (dirs : Dict Dir) (euid egid : ℕ)
          → After (IsIdle caps) (m (caps_host h) (idle caps db dirs euid egid)))
      → (w : World L.File) → IsIdle caps w
      → After (IsIdle caps) (m h w)
  from_idle caps m go w p =
      subst⁻¹ (λ u. After (IsIdle caps) (m h u))
        (λ i. record w { permitted = p.permitted i; effective = p.effective i })
        (by_cap (λ k. After (IsIdle caps) (m k (idle caps w.db w.dirs w.euid w.egid))) h build
          (go w.db w.dirs w.euid w.egid))

  module _ (w : World L.File) (p : IsIdle allocate_caps w) where
    pub After-write_dbfile : (e : WsDb) → After (IsIdle allocate_caps) (write_dbfile L h e w)
    unfolding write_dbfile give_entry raise_cap lower_cap become_db_user become_root
    After-write_dbfile e =
        from_idle allocate_caps (λ k. write_dbfile L k e)
          (λ db dirs euid egid. ends_idle _ _ _ _ _ _) w p

    module _ (s : Workspace) (r : Request) where
      pub After-make_directory :
          (wsdir : Text) → After (IsIdle allocate_caps) (make_directory L h s r wsdir w)
      unfolding make_directory raise_cap lower_cap
      After-make_directory wsdir =
          from_idle allocate_caps (λ k. make_directory L k s r wsdir)
            (λ db dirs euid egid. ends_idle _ _ _ _ _ _) w p

      pub After-chown :
          (b : Bool) (f : Dir → Dir) (wsdir : Text) (e : Error)
          → After (IsIdle allocate_caps) (change_with L h s r cap_chown b f wsdir e w)
      unfolding change_with raise_cap lower_cap
      After-chown b f wsdir e =
          from_idle allocate_caps (λ k. change_with L k s r cap_chown b f wsdir e)
            (λ db dirs euid egid. ends_idle _ _ _ _ _ _) w p

      pub After-chmod :
          (b : Bool) (f : Dir → Dir) (wsdir : Text) (e : Error)
          → After (IsIdle allocate_caps) (change_with L h s r cap_fowner b f wsdir e w)
      unfolding change_with raise_cap lower_cap
      After-chmod b f wsdir e =
          from_idle allocate_caps (λ k. change_with L k s r cap_fowner b f wsdir e)
            (λ db dirs euid egid. ends_idle _ _ _ _ _ _) w p

    module _ (s : Workspace) (name source target : Text) where
      pub After-move_entry : After (IsIdle allocate_caps) (move_entry L h s name source target w)
      unfolding move_entry raise_cap lower_cap become_db_user
      After-move_entry =
          from_idle allocate_caps (λ k. move_entry L k s name source target)
            (λ db dirs euid egid. ends_idle _ _ _ _ _ _) w p

      pub After-move_workspace :
          After (IsIdle allocate_caps) (move_workspace L h s name source target w)
      unfolding move_workspace raise_cap lower_cap
      After-move_workspace =
          from_idle allocate_caps (λ k. move_workspace L k s name source target)
            (λ db dirs euid egid. ends_idle _ _ _ _ _ _) w p

      -- An error in the removal of the entry is thrown while CAP_DAC_OVERRIDE is in effect.
      pub After-delete_data :
          h.remove_ok target ≡ true
          → After (IsIdle allocate_caps) (delete_data L h s name source target w)
      unfolding delete_data raise_cap lower_cap
      After-delete_data removable =
          from_idle allocate_caps (λ k. delete_data L k s name source target)
            (λ db dirs euid egid. rw removable (ends_idle _ _ _ _ _ _)) w p

  pub After-move_data :
      (s : Workspace) (name target username file source targetwsdir : Text) (w : World L.File)
      → IsIdle restore_caps w
      → After (IsIdle restore_caps) (move_data L h s name target username file source targetwsdir w)
  unfolding move_data raise_cap lower_cap become_db_user become_root
  After-move_data s name target username file source targetwsdir =
      from_idle restore_caps (λ k. move_data L k s name target username file source targetwsdir)
        (λ db dirs euid egid. ends_idle _ _ _ _ _ _)

  abbrev raised : World L.File → World L.File
  raised w = record w { effective = set_flag cap_dac_override true w.effective }

  -- The constructor of `Workspace` raises CAP_DAC_OVERRIDE and lowers it again.
  module _ (config : Config) (userconfig : UserConfig) (wc : WhichClient) (opt : Opts)
      (duration max : ℤ) where
    pub allocate-new_workspace :
        (w : World L.File)
        → IsIdle allocate_caps w
        → After (IsIdle allocate_caps) (new_workspace h config userconfig wc opt duration max w)
    unfolding raise_cap lower_cap
    allocate-new_workspace =
        from_idle allocate_caps (λ k. new_workspace k config userconfig wc opt duration max)
          (λ db dirs euid egid.
            let w : World L.File = idle allocate_caps db dirs euid egid in
            After-lowered (caps_host h) config userconfig wc opt duration max (IsIdle allocate_caps)
              w (raised w) w refl refl (record { permitted = refl; effective = refl }))

    pub restore-new_workspace :
        (w : World L.File)
        → IsIdle restore_caps w
        → After (IsIdle restore_caps) (new_workspace h config userconfig wc opt duration max w)
    unfolding raise_cap lower_cap
    restore-new_workspace =
        from_idle restore_caps (λ k. new_workspace k config userconfig wc opt duration max)
          (λ db dirs euid egid.
            let w : World L.File = idle restore_caps db dirs euid egid in
            After-lowered (caps_host h) config userconfig wc opt duration max (IsIdle restore_caps)
              w (raised w) w refl refl (record { permitted = refl; effective = refl }))

  pub After-drop_cap :
      (caps : CapSet) (dbuid : ℕ) (w : World L.File)
      → subset caps w.permitted ≡ true
      → After (IsIdle caps) (drop_cap h caps dbuid w)
  unfolding drop_cap
  After-drop_cap caps dbuid w enough =
      by_cap (λ k. After (IsIdle caps) (drop_cap k caps dbuid w)) h build
        (rw enough (record { holds = record { permitted = refl; effective = refl } }))
