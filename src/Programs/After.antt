-- ===== src/Programs/After.antt =====
-- What a run of ws_release or of ws_restore keeps, however it ends, if each of its steps keeps it.
use hpc_workspace.Base.{
  ℕ, true, false, Option, some, none, List, [], ◌∷◌, ◌≡◌, arith, default_to, Bool-cases, inl, inr,
}
use hpc_workspace.Base.Int.{ℤ}
use hpc_workspace.Base.Text.{Text}
use hpc_workspace.World.{Host, Libs, World, ok}
use hpc_workspace.World.After.{
  After, After-continue, After-end, After-value, After-branch, After-or_fail, After-either,
}
use hpc_workspace.World.Caps.{drop_cap, allocate_caps, restore_caps}
use hpc_workspace.Config.{Config, UserConfig, Opts, WhichClient}
use hpc_workspace.Names.{valid_name, check_name}
use hpc_workspace.Programs.Restoring.Filesystems.{get_valid_fslist}
use hpc_workspace.Workspace.{Workspace, new_workspace}
use hpc_workspace.Workspace.After.{IsOf, After-with_workspace}
use hpc_workspace.Release.After.{KeepsRelease, After-release}
use hpc_workspace.Restore.After.{KeepsRestore, After-restore}
use hpc_workspace.Programs.{
  ReleaseOptions, checked_name, release_opts, release_commandline, release_main,
}
use hpc_workspace.Programs.Restoring.{
  RestoreOptions, restore_opts, restore_commandline, get_restorable, list_each, list_main,
  restore_checked, restore_one, restore_main,
}

checked_name-valid :
    (o : Option Text) (name : Text) → checked_name o ≡ ok name → valid_name name ≡ true
unfolding checked_name
checked_name-valid none name e = ground arith
checked_name-valid (some n) name e = ground arith

pub release_commandline-valid :
    (o : ReleaseOptions) (name : Text) → release_commandline o ≡ ok name → valid_name name ≡ true
unfolding release_commandline
release_commandline-valid o name e = ground (arith, checked_name-valid o.name name)

-- Making a workspace object keeps `P`.
abbrev pub Makes : {F : Type 0} → Host → Config → UserConfig → (World F → Type 0) → Type 0
Makes {F} h config userconfig P =
    (wc : WhichClient) (opt : Opts) (duration max : ℤ) (w : World F)
    → P w
    → After P (new_workspace h config userconfig wc opt duration max w)

module _ (L : Libs) (h : Host) (config : Config) (userconfig : UserConfig)
    (P : World L.File → Type 0) (reads : Makes h config userconfig P) where
  pub After-release_main :
      (o : ReleaseOptions)
      → ((s : Workspace) (name : Text)
          → IsOf h config (release_opts o) s
          → valid_name name ≡ true
          → KeepsRelease L h s name P)
      → (w : World L.File) → After P (drop_cap h allocate_caps config.dbuid w)
      → After P (release_main L h config userconfig o w)
  unfolding release_main
  After-release_main o k w q =
      search
        (
          After-value P,
          After-with_workspace h config userconfig,
          After-continue P,
          After-release,
          reads,
          release_commandline-valid,
          k,
        )
        depth 40

  restore_commandline-valid :
      (o : RestoreOptions) (u : Unit {0})
      → restore_commandline o ≡ ok u
      → o.list ≡ false
      → valid_name (default_to [] o.name) ≡ true
  unfolding restore_commandline checked_name
  restore_commandline-valid o u e no_list = ground arith

  module _ (list_dir : Text → Option (List Text)) (rand : ℕ → ℕ) (typed : Text)
      (o : RestoreOptions) where
    After-get_restorable :
        (fs username : Text) (w : World L.File)
        → P w
        → After P (get_restorable L h config userconfig list_dir rand typed o fs username w)
    unfolding get_restorable
    After-get_restorable fs username w q =
        search (After-continue P, After-or_fail P, After-end P) depth 30

    After-list_each :
        (list : List Text) (w : World L.File)
        → P w
        → After P (list_each L h config userconfig list_dir rand typed o list w)
    unfolding list_each
    After-list_each [] w q = After-end P _ w q
    After-list_each (fs ∷ rest) w q =
        search
          (
            After-continue P,
            After-or_fail P,
            After-end P,
            After-get_restorable,
            After-list_each rest,
          )
          depth 30

    After-get_valid_fslist : (w : World L.File) → P w → After P (get_valid_fslist h config w)
    unfolding get_valid_fslist
    After-get_valid_fslist w q = search (After-continue P, After-or_fail P, After-end P) depth 30

    After-list_main :
        (w : World L.File) → P w → After P (list_main L h config userconfig list_dir rand typed o w)
    unfolding list_main
    After-list_main w q =
        search
          (After-continue P, After-or_fail P, After-end P, After-list_each, After-get_valid_fslist)
          depth 40

    module _
        (k : (s : Workspace) (username : Text)
          → IsOf h config (restore_opts o) s
          → valid_name (default_to [] o.name) ≡ true
          → check_name (default_to [] o.name) username s.username ≡ true
          → KeepsRestore L h s (default_to [] o.name) (default_to [] o.target) username P) where
      After-restore_checked :
          (s : Workspace) (username : Text) (w : World L.File)
          → IsOf h config (restore_opts o) s
          → valid_name (default_to [] o.name) ≡ true
          → P w
          → After P (restore_checked L h config userconfig list_dir rand typed o s username w)
      unfolding restore_checked
      After-restore_checked s username w made valid q =
          elim (Bool-cases (check_name (default_to [] o.name) username s.username)) [
            | inl own ↦
                rw (own, restore_checked)
                  (search
                    (
                      After-continue P,
                      After-or_fail P,
                      After-branch P,
                      After-end P,
                      After-restore,
                      k,
                    )
                    depth 40)
            | inr foreign ↦ rw (foreign, restore_checked) (After-end P _ w q)
          ]

      pub After-restore_main :
          (w : World L.File)
          → After P (drop_cap h restore_caps config.dbuid w)
          → After P (restore_main L h config userconfig list_dir rand typed o w)
      unfolding restore_main restore_one
      After-restore_main w q =
          search
            (
              After-either P,
              After-value P,
              After-with_workspace h config userconfig,
              After-continue P,
              reads,
              After-list_main,
              After-restore_checked,
              restore_commandline-valid,
            )
            depth 60
