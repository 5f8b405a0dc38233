-- ===== src/Workspace/After.antt =====
-- The constructor of `Workspace` (src/ws.cpp) changes no file, and keeps the caller's name.
use hpc_workspace.Base.{◌≡◌, some}
use hpc_workspace.Base.Int.{ℤ}
use hpc_workspace.World.{Host, World, M, ok, continue}
use hpc_workspace.World.Caps.{cap_dac_override, raise_cap, lower_cap}
use hpc_workspace.World.After.{After, After-continue, After-end, After-or_fail, After-then}
use hpc_workspace.World.After.Gives.{Gives, Gives-some, Gives-then, Gives-end}
use hpc_workspace.World.After.Files.{Files, OnFiles, After-raise_cap, After-lower_cap}
use hpc_workspace.Config.{Config, UserConfig, Opts, WhichClient}
use hpc_workspace.Access.After.{After-validate, IsGiven, validate-IsGiven}
use hpc_workspace.Access.{Validated, validate}
use hpc_workspace.Base.Text.{Text}
use hpc_workspace.Workspace.{Workspace, new_workspace}

-- What a workspace object knows of its caller and of the configuration and the options.
abbrev pub IsOf : Host → Config → Opts → Workspace → Type 0
IsOf h config opt s =
    (h.getpwuid h.uid ≡ some s.username)
    × (s.config ≡ config)
    × (s.opt ≡ opt)
    × IsGiven opt s.filesystem

module _ {F : Type 0} (h : Host) (config : Config) (userconfig : UserConfig) (wc : WhichClient)
    (opt : Opts) (duration max : ℤ) where
  pub After-new_workspace :
      (Q : Files F) (w : World F)
      → OnFiles Q w
      → After (OnFiles Q) (new_workspace h config userconfig wc opt duration max w)
  unfolding new_workspace
  After-new_workspace Q w q =
      search
        (
          After-continue (OnFiles Q),
          After-end (OnFiles Q),
          After-or_fail (OnFiles Q),
          After-raise_cap Q h,
          After-lower_cap Q h,
          After-validate h config userconfig _ (OnFiles Q),
        )
        depth 40

  -- The same for any statement that holds once the capability is lowered again.
  pub After-lowered :
      (P : World F → Type 0) (w u v : World F)
      → raise_cap h cap_dac_override w ≡ (ok tt, u)
      → lower_cap h cap_dac_override config.dbuid u ≡ (ok tt, v)
      → P v
      → After P (new_workspace h config userconfig wc opt duration max w)
  unfolding new_workspace
  After-lowered P w u v raised lowered p =
      rw (raised, new_workspace)
        (rw (lowered, continue)
          (search
            (After-continue P, After-or_fail P, After-end P, After-validate h config userconfig _ P)
            depth 30))

  Gives-validated :
      (username : Text) (u : World F) (f : Validated → M F Workspace)
      → ((v : Validated) (u' : World F)
          → IsGiven opt v.filesystem
          → Gives (IsOf h config opt) (f v u'))
      → Gives
          (IsOf h config opt)
          (continue (validate h config userconfig username wc opt duration max u) f)
  Gives-validated username u f go = Gives-then (IsOf h config opt) _ f (λ v u' e.
      go v u' ((validate-IsGiven h config userconfig username opt wc duration max u).holds v u' e))

  pub new_workspace-IsOf :
      (w : World F)
      → Gives (IsOf h config opt) (new_workspace h config userconfig wc opt duration max w)
  unfolding new_workspace
  new_workspace-IsOf w =
      search
        (
          Gives-some (IsOf h config opt),
          Gives-validated,
          Gives-then (IsOf h config opt),
          Gives-end (IsOf h config opt),
        )
        depth 30

  -- Making the object and going on with it.
  pub After-with_workspace :
      {A : Type 0} (P : World F → Type 0) (f : Workspace → M F A) (w : World F)
      → After P (new_workspace h config userconfig wc opt duration max w)
      → ((s : Workspace) (v : World F) → IsOf h config opt s → P v → After P (f s v))
      → After P (continue (new_workspace h config userconfig wc opt duration max w) f)
  After-with_workspace P f w q go =
      After-then P _ f q (λ s v e q'. go s v ((new_workspace-IsOf w).holds s v e) q')
