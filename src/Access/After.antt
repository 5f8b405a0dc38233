-- ===== src/Access/After.antt =====
-- The validation of src/ws.cpp changes no file.
use hpc_workspace.Base.{Option-cases, inl, inr, List, some, ◌≡◌, arith}
use hpc_workspace.Base.Int.{ℤ}
use hpc_workspace.Base.Text.{Text}
use hpc_workspace.World.{Host, World, M, continue}
use hpc_workspace.World.After.Gives.{Gives, Gives-some, Gives-then, Gives-end}
use hpc_workspace.World.After.{After, After-continue, After-end, After-or_fail, After-branch}
use hpc_workspace.Config.{Config, UserConfig, Opts, WhichClient, fs_config}
use hpc_workspace.Access.{Validated, choose_filesystem, limits, validate, get_valid_fslist}

module _ {F : Type 0} (h : Host) (config : Config) (userconfig : UserConfig) (username : Text)
    (P : World F → Type 0) where
  pub After-get_valid_fslist :
      (w : World F) → P w → After P (get_valid_fslist h config userconfig username w)
  unfolding get_valid_fslist
  After-get_valid_fslist w q = search (After-continue P, After-end P, After-or_fail P) depth 20

  After-choose_filesystem :
      (wc : WhichClient) (opt : Opts) (group : Text) (groups : List Text) (w : World F)
      → P w
      → After P (choose_filesystem h config userconfig username wc opt group groups w)
  unfolding choose_filesystem
  After-choose_filesystem wc opt group groups w q = elim (Option-cases opt.filesystem) [
    | inl missing ↦ rw (missing, choose_filesystem) (After-or_fail P _ _ w q)
    | inr (fs, given) ↦ elim (Option-cases (fs_config config fs)) [
      | inl unknown ↦ rw (given, unknown, choose_filesystem) (After-end P _ w q)
      | inr (c, known) ↦
          rw (given, known, choose_filesystem) (search (After-branch P, After-end P) depth 20)
    ]
  ]

  After-limits :
      (wc : WhichClient) (fs : Text) (duration max : ℤ) (w : World F)
      → P w
      → After P (limits h config userconfig username wc fs duration max w)
  unfolding limits
  After-limits wc fs duration max w q =
      search (After-branch P, After-continue P, After-or_fail P, After-end P) depth 30

  pub After-validate :
      (wc : WhichClient) (opt : Opts) (duration max : ℤ) (w : World F)
      → P w
      → After P (validate h config userconfig username wc opt duration max w)
  unfolding validate
  After-validate wc opt duration max w q =
      search (After-continue P, After-or_fail P, After-end P, After-choose_filesystem, After-limits)
        depth 40

-- A filesystem that is given with -F is the one that is chosen.
abbrev pub IsGiven : Opts → Text → Type 0
IsGiven opt chosen = (fs : Text) → opt.filesystem ≡ some fs → chosen ≡ fs

module _ {F : Type 0} (h : Host) (config : Config) (userconfig : UserConfig) (username : Text)
    (opt : Opts) where
  choose_filesystem-IsGiven :
      (wc : WhichClient) (group : Text) (groups : List Text) (w : World F)
      → Gives (IsGiven opt) (choose_filesystem h config userconfig username wc opt group groups w)
  unfolding choose_filesystem
  choose_filesystem-IsGiven wc group groups w = record {
    holds = λ chosen v e fs given. ground arith;
  }

  pub validate-IsGiven :
      (wc : WhichClient) (duration max : ℤ) (w : World F)
      → Gives
          (λ v. IsGiven opt v.filesystem)
          (validate h config userconfig username wc opt duration max w)
  unfolding validate
  validate-IsGiven wc duration max w =
      let R : Validated → Type 0 = λ v. IsGiven opt v.filesystem in
      search (Gives-some R, Gives-with, Gives-then R, Gives-end R) depth 30
    where
      Gives-with :
          (group : Text) (groups : List Text) (u : World F) (f : Text → M F Validated)
          → ((fs : Text) (v : World F)
              → IsGiven opt fs
              → Gives (λ v. IsGiven opt v.filesystem) (f fs v))
          → Gives
              (λ v. IsGiven opt v.filesystem)
              (continue (choose_filesystem h config userconfig username wc opt group groups u) f)
      Gives-with group groups u f go =
          Gives-then (λ v. IsGiven opt v.filesystem) _ f
            (λ fs v e. go fs v ((choose_filesystem-IsGiven wc group groups u).holds fs v e))
