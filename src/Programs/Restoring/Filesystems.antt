-- ===== src/Programs/Restoring/Filesystems.antt =====
-- src/ws_restore.cpp has a `get_valid_fslist` of its own, beside the one of `Workspace`.
use hpc_workspace.Base.{
  ℕ, ◌≡◌, refl, Bool, true, false, ◌&&◌, ◌||◌, ◌==◌, Option, none, some, List, [], ◌∷◌,
  if◌then◌else◌, default_to, Option-cases, inl, inr, arith,
}
use hpc_workspace.Base.Text.{Text, contains}
use hpc_workspace.Base.Dict.{Dict}
use hpc_workspace.World.{
  Host, World, M, no_group, undefined_behaviour, pure, or_fail, gets, continue, ◌>>=◌,
}
use hpc_workspace.Config.{FsConfig, Config, UserConfig}
use hpc_workspace.Access
use hpc_workspace.Access.{is_nil, user_ok, group_names, any_in, valid_fs}

-- The loop that fills `groupnames`.
unfoldable pub names_of : (ℕ → Option Text) → List ℕ → List Text
names_of getgrgid [] = []
names_of getgrgid (g ∷ gids) =
    let rest = names_of getgrgid gids in elim (getgrgid g) [ none ↦ rest | some name ↦ name ∷ rest ]

-- The loop under CHECK_ALL_GROUPS, with its `break`.
unfoldable pub some_group : List Text → List Text → Bool → Bool
unfolding contains
some_group acl [] userok = userok
some_group acl (g ∷ groups) userok =
    let rest = some_group acl groups userok in if contains acl g then true else rest

-- `userok` of one workspace.
unfoldable pub userok : Host → Text → Text → List Text → FsConfig → Bool
unfolding contains some_group
userok h username primarygroup groupnames c =
    let user_acl = default_to [] c.user_acl in
    let group_acl = default_to [] c.group_acl in
    let ok0 = if is_nil user_acl && is_nil group_acl then true else false in
    let ok1 = if contains group_acl primarygroup then true else ok0 in
    let ok2 = if h.check_all_groups then some_group group_acl groupnames ok1 else ok1 in
    if contains user_acl username then true else ok2

-- The loop over the workspaces, which appends to `fslist`.
unfoldable pub listed_fs : Host → (FsConfig → Bool) → Dict FsConfig → List Text
listed_fs h granted [] = []
listed_fs h granted ((fs, c) ∷ rest) =
    let more = listed_fs h granted rest in if granted c || h.uid == 0 then fs ∷ more else more

-- `get_valid_fslist`
unfoldable pub get_valid_fslist : {F : Type 0} → Host → Config → M F (List Text)
unfolding userok names_of listed_fs
get_valid_fslist h config = do
  username ← or_fail (h.getpwuid h.uid) undefined_behaviour
  euid ← gets (λ w. w.euid)
  let groupnames = names_of h.getgrgid (default_to [] (h.getgrouplist username euid))
  egid ← gets (λ w. w.egid)
  primarygroup ← or_fail (h.getgrgid egid) no_group
  pure (listed_fs h (userok h username primarygroup groupnames) config.workspaces)

names_of-eq : (g : ℕ → Option Text) (l : List ℕ) → names_of g l ≡ group_names g l
unfolding names_of group_names
names_of-eq g [] = refl
names_of-eq g (x ∷ l) = elim (Option-cases (g x)) [
  | inl nameless ↦ rw (nameless, names_of, group_names) (names_of-eq g l)
  | inr (name, named) ↦ rw (named, names_of, group_names) (rw (names_of-eq g l))
]

some_group-eq :
    (acl groups : List Text) (b : Bool)
    → some_group acl groups b ≡ (if any_in acl groups then true else b)
unfolding some_group any_in
some_group-eq acl [] b = refl
some_group-eq acl (g ∷ groups) b = rw (some_group-eq acl groups b) (ground arith)

userok-eq :
    (h : Host) (username group : Text) (groups : List Text) (c : FsConfig)
    → userok h username group groups c ≡ user_ok h.check_all_groups username group groups c
unfolding userok user_ok
userok-eq h username group groups c = rw some_group-eq (ground arith)

listed_fs-eq :
    (h : Host) (f g : FsConfig → Bool) (d : Dict FsConfig)
    → ((c : FsConfig) → f c ≡ g c)
    → listed_fs h f d ≡ valid_fs (λ c. g c || h.uid == 0) d
unfolding listed_fs valid_fs
listed_fs-eq h f g [] same = refl
listed_fs-eq h f g ((fs, c) ∷ rest) same = rw (same c, listed_fs-eq h f g rest same) refl

-- However it ends, the `get_valid_fslist` of ws_restore does what that of `Workspace` does for the
-- user with the caller's id, and a uid without a name is read as a null pointer.
pub get_valid_fslist-eq :
    {F : Type 0} (h : Host) (config : Config) (userconfig : UserConfig) (w : World F)
    → get_valid_fslist h config w
      ≡ (or_fail (h.getpwuid h.uid) undefined_behaviour >>= λ username.
            Access.get_valid_fslist h config userconfig username)
          w
unfolding get_valid_fslist Access.get_valid_fslist
get_valid_fslist-eq h config userconfig w = elim (Option-cases (h.getpwuid h.uid)) [
  | inl nobody ↦ rw (nobody, get_valid_fslist, continue) refl
  | inr (username, named) ↦ elim (Option-cases (h.getgrgid w.egid)) [
    | inl groupless ↦
        rw (named, groupless, get_valid_fslist, Access.get_valid_fslist, continue) refl
    | inr (group, grouped) ↦
        rw (named, grouped, get_valid_fslist, Access.get_valid_fslist, continue)
          (rw (names_of-eq h.getgrgid (default_to [] (h.getgrouplist username w.euid))) (
            rw
              (listed_fs-eq h _ _ config.workspaces (
                userok-eq h username group
                  (group_names h.getgrgid (default_to [] (h.getgrouplist username w.euid)))))
              refl))
  ]
]
