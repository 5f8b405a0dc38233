-- ===== src/Access/Acl.antt =====
-- Who may use a filesystem: the list of `get_valid_fslist` against the answer of `validate`.
use hpc_workspace.Base.{
  ℕ, ◌≡◌, ◌⊎◌, refl, sym, ap, ◌∙◌, true, false, ◌||◌, ◌==◌, none, some, List, [], ◌∷◌, arith,
}
use hpc_workspace.Base.{Bool, Option, inl, inr, Option-cases}
use hpc_workspace.Base.Int.{ℤ}
use hpc_workspace.Base.Text.{Text, text_eq_iff, contains}
use hpc_workspace.Base.Dict.{Dict, lookup}
use hpc_workspace.World.{Host, World, Result, ok, err, no_such_filesystem, not_allowed, continue}
use hpc_workspace.Config.{FsConfig, Config, UserConfig, Opts, ws_restore}
use hpc_workspace.Access.{
  any_in, user_ok, group_names, valid_fs, get_valid_fslist, choose_filesystem, validate, limits,
}

-- No key is listed twice, as in every YAML map.
abbrev pub Distinct : {V : Type 0} → Dict V → Type 0
Distinct [] = Unit
Distinct ((k, v) ∷ m) = (lookup k m ≡ none) × Distinct m

module _ (granted : FsConfig → Bool) (fs : Text) where
  abbrev pub granted_at : Dict FsConfig → Bool
  granted_at ws = elim (lookup fs ws) [ none ↦ false | some c ↦ granted c ]

  contains-valid_fs_of_absent :
      (ws : Dict FsConfig) → lookup fs ws ≡ none → contains (valid_fs granted ws) fs ≡ false
  unfolding contains valid_fs lookup
  contains-valid_fs_of_absent [] h = refl
  contains-valid_fs_of_absent ((k, c) ∷ ws) h = ground (arith, contains-valid_fs_of_absent ws)

  -- A filesystem is listed exactly if it is configured and granted.
  pub contains-valid_fs :
      (ws : Dict FsConfig) → Distinct ws → contains (valid_fs granted ws) fs ≡ granted_at ws
  unfolding contains valid_fs lookup
  contains-valid_fs [] d = refl
  contains-valid_fs ((k, c) ∷ ws) d =
      ground (arith, contains-valid_fs ws d.1, contains-valid_fs_of_absent ws, text_eq_iff k fs)

-- What `choose_filesystem` answers to -F.
abbrev answer : Option FsConfig → Bool → Text → Result Text
answer none ok_here fs = err no_such_filesystem
answer (some c) true fs = ok fs
answer (some c) false fs = err not_allowed

module _ (granted : FsConfig → Bool) (fs : Text) (ws : Dict FsConfig) where
  answer_granted :
      granted_at granted fs ws ≡ true → answer (lookup fs ws) (granted_at granted fs ws) fs ≡ ok fs
  answer_granted g = elim (Option-cases (lookup fs ws)) [
    | inl absent ↦ absurd (ground arith)
    | inr (c, found) ↦ rw (g, found)
  ]

  answer_refused :
      granted_at granted fs ws ≡ false
      → (answer (lookup fs ws) (granted_at granted fs ws) fs ≡ err no_such_filesystem)
        ⊎ (answer (lookup fs ws) (granted_at granted fs ws) fs ≡ err not_allowed)
  answer_refused g = elim (Option-cases (lookup fs ws)) [
    | inl absent ↦ inl (rw absent)
    | inr (c, found) ↦ inr (rw (g, found))
  ]

module _ (h : Host) (config : Config) (userconfig : UserConfig) (username : Text) {F : Type 0}
    (w : World F) where
  abbrev granted_to : Text → List ℕ → FsConfig → Bool
  granted_to group gids c =
      user_ok h.check_all_groups username group (group_names h.getgrgid gids) c || h.uid == 0

  choose_given :
      (opt : Opts) (fs group : Text) (gids : List ℕ)
      → opt.filesystem ≡ some fs
      → choose_filesystem h config userconfig username ws_restore opt group
          (group_names h.getgrgid gids)
          w
        ≡ (
          answer
              (lookup fs config.workspaces)
              (granted_at (granted_to group gids) fs config.workspaces)
              fs,
          w,
        )
  unfolding choose_filesystem
  choose_given opt fs group gids given = elim (Option-cases (lookup fs config.workspaces)) [
    | inl absent ↦ rw (given, absent, choose_filesystem, answer, granted_at)
    | inr (c, found) ↦ rw (given, found, choose_filesystem, answer, granted_at) (ground arith)
  ]

  -- With the same groups for the effective ids as for the real ones, `validate` accepts -F with a
  -- filesystem (for ws_restore, which reads no limits) exactly if `get_valid_fslist` lists it;
  -- otherwise it ends with one of the two errors for a filesystem. Both need the caller's group to
  -- have a name, at most 128 groups, and no filesystem configured twice.
  pub get_valid_fslist-validate :
      (opt : Opts) (duration max : ℤ) (fs group : Text) (gids : List ℕ)
      → Distinct config.workspaces
      → opt.filesystem ≡ some fs
      → h.getgrgid h.gid ≡ some group
      → h.getgrgid w.egid ≡ some group
      → h.getgrouplist username h.gid ≡ some gids
      → h.getgrouplist username w.euid ≡ some gids
      → (l : List Text) × (get_valid_fslist h config userconfig username w ≡ (ok l, w))
        × (contains l fs ≡ true
            → validate h config userconfig username ws_restore opt duration max w ≡ (
              ok (record {
                filesystem = fs;
                duration = duration;
                maxextensions = max;
                primarygroup = group;
              }),
              w,
            ))
        × (contains l fs ≡ false
            → (validate h config userconfig username ws_restore opt duration max w
                ≡ (err no_such_filesystem, w))
              ⊎ (validate h config userconfig username ws_restore opt duration max w
                  ≡ (err not_allowed, w)))
  unfolding get_valid_fslist validate limits
  get_valid_fslist-validate opt duration max fs group gids d given g eg gl egl =
      let granted = granted_to group gids in
      let ws = config.workspaces in
      let c = contains-valid_fs granted fs ws d in
      let a = choose_given opt fs group gids given in
      (
        valid_fs granted ws,
        rw (eg, egl, get_valid_fslist),
        λ listed.
            rw (gl, g, validate)
              (rw (a ∙ ap (λ r. (r, w)) (answer_granted granted fs ws (sym c ∙ listed)), continue)),
        λ unlisted. elim (answer_refused granted fs ws (sym c ∙ unlisted)) [
          | inl e ↦ inl (rw (gl, g, validate) (rw (a ∙ ap (λ r. (r, w)) e, continue)))
          | inr e ↦ inr (rw (gl, g, validate) (rw (a ∙ ap (λ r. (r, w)) e, continue)))
        ],
      )

-- `getgrouplist` includes the group that it is given.
abbrev pub IncludesBase : Host → Type 0
IncludesBase h =
    (user name : Text) (base : ℕ) (gids : List ℕ)
    → h.getgrouplist user base ≡ some gids
    → h.getgrgid base ≡ some name
    → contains (group_names h.getgrgid gids) name ≡ true

any_in_of_contains :
    (acl groups : List Text) (g : Text)
    → contains acl g ≡ true
    → contains groups g ≡ true
    → any_in acl groups ≡ true
unfolding any_in contains
any_in_of_contains acl [] g a b = b
any_in_of_contains acl (x ∷ groups) g a b =
    ground (arith, text_eq_iff x g, any_in_of_contains acl groups g)

group_granted :
    (h : Host) (username group : Text) (groups : List Text) (c : FsConfig) (acl : List Text)
    → h.check_all_groups ≡ true
    → c.group_acl ≡ some acl
    → any_in acl groups ≡ true
    → (user_ok h.check_all_groups username group groups c || h.uid == 0) ≡ true
unfolding user_ok
group_granted h username group groups c acl all listed any =
    rw (all, listed, any, user_ok) (ground arith)

-- With CHECK_ALL_GROUPS, `get_valid_fslist` lists a filesystem for every user of which the effective
-- USER id is, as a number, the id of a group in the filesystem's `group_acl`: it passes
-- `geteuid()` where `getgrouplist` takes a group id.
pub get_valid_fslist-euid :
    (h : Host) (config : Config) (userconfig : UserConfig) (username fs name group : Text)
    (c : FsConfig) (gids : List ℕ) (acl : List Text) {F : Type 0} (w : World F)
    → IncludesBase h
    → Distinct config.workspaces
    → h.check_all_groups ≡ true
    → lookup fs config.workspaces ≡ some c
    → c.group_acl ≡ some acl
    → contains acl name ≡ true
    → h.getgrgid w.euid ≡ some name
    → h.getgrgid w.egid ≡ some group
    → h.getgrouplist username w.euid ≡ some gids
    → (l : List Text) × (get_valid_fslist h config userconfig username w ≡ (ok l, w))
      × (contains l fs ≡ true)
unfolding get_valid_fslist
get_valid_fslist-euid h config userconfig username fs name group c gids acl w base d all found
      listed inside eg g gl =
    let groups = group_names h.getgrgid gids in
    let granted : FsConfig → Bool =
      λ c. user_ok h.check_all_groups username group groups c || h.uid == 0 in
    let any = any_in_of_contains acl groups name inside (base username name w.euid gids gl eg) in
    (
      valid_fs granted config.workspaces,
      rw (g, gl, get_valid_fslist),
      contains-valid_fs granted fs config.workspaces d
          ∙ rw (found, granted_at) (group_granted h username group groups c acl all listed any),
    )
