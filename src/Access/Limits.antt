-- ===== src/Access/Limits.antt =====
-- The limits that `validate` and `allocate` impose.
use mathlib.Core.Path.{subst}
use hpc_workspace.Base.{
  ap, not, ◌&&◌, ◌⊎◌, List, ℕ, ◌≡◌, ◌≢◌, Bool, true, false, some, arith, Option-cases, Bool-cases,
  inl, inr,
}
use hpc_workspace.Base.Int.{ℤ, pos, ◌≤ℤ◌}
use hpc_workspace.Base.Text.{Text, is_empty, contains}
use hpc_workspace.World.{Host, World, ok, Result-cases, ok-injective}
use hpc_workspace.Config.{
  Config, UserConfig, Opts, ws_allocate, config_duration, config_maxextensions,
}
use hpc_workspace.Access.{
  Validated, validate, limits, clamp_duration, group_names, choose_filesystem,
}

module _ (h : Host) (config : Config) (userconfig : UserConfig) (username : Text) where
  clamp_duration-bounds :
      (limit d : ℤ)
      → h.uid ≢ 0
      → (clamp_duration h config userconfig username limit d ≤ℤ limit)
        × (pos 0 ≤ℤ limit → pos 0 ≤ℤ clamp_duration h config userconfig username limit d)
        × (pos 0 ≤ℤ d → d ≤ℤ limit → clamp_duration h config userconfig username limit d ≡ d)
  unfolding clamp_duration
  clamp_duration-bounds limit d user = (ground arith, λ p. ground arith, λ p q. ground arith)

  limits-ok :
      {F : Type 0} (w : World F) (filesystem : Text) (duration max : ℤ) (l : ℤ × ℤ)
      → (limits h config userconfig username ws_allocate filesystem duration max w).0 ≡ ok l
      → (limit : ℤ) × (config_duration config userconfig filesystem username ≡ some limit)
        × (config_maxextensions config userconfig filesystem username ≡ some l.1)
        × (l.0 ≡ clamp_duration h config userconfig username limit duration)
  unfolding limits
  limits-ok w filesystem duration max l e =
      elim (Option-cases (config_duration config userconfig filesystem username)) [
        | inl missing ↦ absurd (cc (rw (missing, limits) at e))
        | inr (limit, d) ↦
            elim (Option-cases (config_maxextensions config userconfig filesystem username)) [
              | inl missing ↦ absurd (cc (rw (d, missing, limits) at e))
              | inr (m, x) ↦
                  let q = rw (d, x, limits) at e in (limit, d, ground arith, ground arith)
            ]
      ]

  abbrev IsLimited : ℤ → Validated → Type 0
  IsLimited duration v =
      (limit : ℤ) × (config_duration config userconfig v.filesystem username ≡ some limit)
      × (config_maxextensions config userconfig v.filesystem username ≡ some v.maxextensions)
      × (v.duration ≤ℤ limit)
      × (pos 0 ≤ℤ limit → pos 0 ≤ℤ v.duration)
      × (pos 0 ≤ℤ duration → duration ≤ℤ limit → v.duration ≡ duration)

  limits-IsLimited :
      {F : Type 0} (w : World F) (filesystem group : Text) (duration max : ℤ) (l : ℤ × ℤ)
      → h.uid ≢ 0
      → (limits h config userconfig username ws_allocate filesystem duration max w).0 ≡ ok l
      → IsLimited duration (record {
        filesystem = filesystem;
        duration = l.0;
        maxextensions = l.1;
        primarygroup = group;
      })
  limits-IsLimited w filesystem group duration max l user e =
      let (limit, d, m, c) = limits-ok w filesystem duration max l e in
      let (below, nonneg, same) = clamp_duration-bounds limit duration user in
      (limit, d, m, rw c below, rw c nonneg, rw c same)

  -- A user other than root whose ws_allocate passes `validate` gets a duration within the limit
  -- that applies (the user's exception, else the workspace's, else the global one), not negative
  -- if the limit is not, and the wanted one if it is within the limit; and the number of
  -- extensions that applies.
  pub validate-limits :
      {F : Type 0} (w : World F) (opt : Opts) (duration max : ℤ) {v : Validated}
      → h.uid ≢ 0
      → (validate h config userconfig username ws_allocate opt duration max w).0 ≡ ok v
      → (limit : ℤ) × (config_duration config userconfig v.filesystem username ≡ some limit)
        × (config_maxextensions config userconfig v.filesystem username ≡ some v.maxextensions)
        × (v.duration ≤ℤ limit)
        × (pos 0 ≤ℤ limit → pos 0 ≤ℤ v.duration)
        × (pos 0 ≤ℤ duration → duration ≤ℤ limit → v.duration ≡ duration)
  unfolding validate limits
  validate-limits w opt duration max {v} user e =
      elim (Option-cases (h.getgrouplist username h.gid)) [
        | inl gl ↦ absurd (cc (rw (gl, validate) at e))
        | inr (gids, gl) ↦ elim (Option-cases (h.getgrgid h.gid)) [
          | inl g ↦ absurd (cc (rw (gl, g, validate) at e))
          | inr (group, g) ↦ go gids group gl g (Bool-cases (invalid gids))
        ]
      ]
    where
      invalid : List ℕ → Bool
      invalid gids =
          not (is_empty opt.groupname) && not (contains (group_names h.getgrgid gids) opt.groupname)

      go :
          (gids : List ℕ) (group : Text)
          → h.getgrouplist username h.gid ≡ some gids
          → h.getgrgid h.gid ≡ some group
          → (invalid gids ≡ true) ⊎ (invalid gids ≡ false)
          → IsLimited duration v
      go gids group gl g (inl bad) = absurd (cc (rw (gl, g, bad, validate) at e))
      go gids group gl g (inr good) =
          let groups = group_names h.getgrgid gids in
          elim (Result-cases
            (choose_filesystem h config userconfig username ws_allocate opt group groups w)) [
              | inr (x, w', c) ↦ absurd (cc (rw (gl, g, good, c, validate) at e))
              | inl (fs, w', c) ↦
                  elim (Result-cases
                    (limits h config userconfig username ws_allocate fs duration max w')) [
                      | inr (x, w'', q) ↦ absurd (cc (rw (gl, g, good, c, q, validate) at e))
                      | inl (l, w'', q) ↦
                          subst (IsLimited duration)
                            (ok-injective (rw (gl, g, good, c, q, validate) at e))
                            (limits-IsLimited w' fs group duration max l user (ap (λ r. r.0) q))
                    ]
            ]
