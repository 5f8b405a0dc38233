-- ===== src/Programs/Restoring/Offers.antt =====
-- What `ws_restore -l` lists is accepted by `ws_restore`.
use mathlib.Core.Path.{subst}
use hpc_workspace.Base.{
  ℕ, ◌≡◌, refl, ap, sym, ◌∙◌, true, Option, some, List, [], ◌∷◌, ◌++◌, All, arith, Bool-cases, inl,
  inr, ◌⊎◌, if◌then◌else◌, default_to,
}
use hpc_workspace.Base.Int.{pos}
use hpc_workspace.Base.Text.{
  Text, text_eq, text_eq_refl, text_eq→eq, codes, contains, is_empty, starts_with,
}
use hpc_workspace.World.{Host, Libs, World, ok, ok-injective, M, continue, pure, ◌>>=◌}
use hpc_workspace.World.After.Gives.{Gives, Gives-end, Gives-then, Gives-some}
use hpc_workspace.Config.{Config, UserConfig, ws_restore}
use hpc_workspace.Names.{check_name}
use hpc_workspace.Access.{validate}
use hpc_workspace.Access.Acl.{Distinct, get_valid_fslist-validate}
use hpc_workspace.Programs.Restoring.{
  RestoreOptions, restore_user, restorable_names, restore_opts, get_restorable, list_each,
  list_main, listing, Printed,
}
use hpc_workspace.Programs.Restoring.Filesystems.{get_valid_fslist, get_valid_fslist-eq}

restore_user-own :
    (username user real : Text)
    → restore_user username real ≡ ok user
    → (text_eq real (codes "root") ≡ true) ⊎ (real ≡ user)
unfolding restore_user
restore_user-own username user real e = elim (Bool-cases (is_empty username)) [
  | inl unnamed ↦ inr (ok-injective (rw (unnamed, restore_user) at e))
  | inr named ↦ elim (Bool-cases (text_eq real username)) [
    | inl own ↦
        inr (text_eq→eq real username own ∙ ok-injective (rw (named, own, restore_user) at e))
    | inr other ↦ elim (Bool-cases (text_eq real (codes "root"))) [
      | inl root ↦ inl root
      | inr user ↦ absurd (let e' = rw (named, other, user, restore_user) at e in ground arith)
    ]
  ]
]

-- Every name that begins with the user's name passes `check_name`, for the user and for root.
own_name-Accepted :
    (username user real n : Text)
    → restore_user username real ≡ ok user
    → starts_with n (user ++ (b'-' ∷ [])) ≡ true
    → check_name n user real ≡ true
unfolding check_name
own_name-Accepted username user real n e own = elim (restore_user-own username user real e) [
  | inl root ↦ rw (root, check_name) refl
  | inr same ↦ rw (same, check_name) (rw own (ground arith))
]

abbrev pub Accepted : Text → Text → List Text → Type 0
Accepted user real = All (λ n. check_name n user real ≡ true)

restorable_names-Accepted :
    (username user real : Text) (names : List Text)
    → restore_user username real ≡ ok user
    → Accepted user real (restorable_names user names)
unfolding restorable_names
restorable_names-Accepted username user real [] e = tt
restorable_names-Accepted username user real (n ∷ names) e =
    let rest = restorable_names-Accepted username user real names e in
    elim (Bool-cases (starts_with n (user ++ (b'-' ∷ [])))) [
      | inl own ↦ rw (own, restorable_names) (own_name-Accepted username user real n e own, rest)
      | inr foreign ↦ rw (foreign, restorable_names) rest
    ]

All-contains :
    (l m : List Text)
    → ((x : Text) → contains l x ≡ true → contains m x ≡ true)
    → All (λ x. contains m x ≡ true) l
unfolding contains
All-contains [] m inside = tt
All-contains (x ∷ l) m inside =
    (inside x (rw (text_eq_refl x) refl), All-contains l m (λ y at. inside y (ground arith)))

listing-injective : {l m : List (Text × List Text)} → listing l ≡ listing m → l ≡ m
listing-injective h = cc

module _ (L : Libs) (h : Host) (config : Config) (userconfig : UserConfig)
    (list_dir : Text → Option (List Text)) (rand : ℕ → ℕ) (typed : Text) (o : RestoreOptions)
    (real user : Text) (named : h.getpwuid h.uid ≡ some real)
    (for : restore_user o.username real ≡ ok user) (G : Text → Type 0) where
  abbrev Listed : Text × List Text → Type 0
  Listed x = G x.0 × Accepted user real x.1

  abbrev each : List Text → M L.File (List (Text × List Text))
  each = list_each L h config userconfig list_dir rand typed o

  get_restorable-Accepted :
      (fs : Text) (w : World L.File)
      → Gives
          (Accepted user real)
          (get_restorable L h config userconfig list_dir rand typed o fs user w)
  unfolding get_restorable
  get_restorable-Accepted fs w =
      search
        (
          Gives-some (Accepted user real),
          Gives-end (Accepted user real),
          restorable_names-Accepted o.username,
        )
        depth 20

  list_each-Listed : (l : List Text) → All G l → (w : World L.File) → Gives (All Listed) (each l w)
  unfolding list_each
  list_each-Listed [] g w = Gives-end (All Listed) [] w tt
  list_each-Listed (fs ∷ l) g w =
      rw (named, for, list_each, continue)
        (Gives-then (All Listed)
          (get_restorable L h config userconfig list_dir rand typed o fs user w)
          (λ names. each l >>= λ others. pure ((fs, names) ∷ others))
          (λ names v e.
            Gives-then (All Listed) (each l v) (λ others. pure ((fs, names) ∷ others))
              (λ others u e'. Gives-end (All Listed) ((fs, names) ∷ others) u (
                (g.0, (get_restorable-Accepted fs w).holds names v e),
                (list_each-Listed l g.1 v).holds others u e',
              ))))

  abbrev Shows : Printed → Type 0
  Shows p = (lists : List (Text × List Text)) → p ≡ listing lists → All Listed lists

  abbrev chosen : List Text → List Text
  chosen validfs =
      let filesystem = default_to [] o.filesystem in
      if is_empty filesystem
      then validfs
      else if contains validfs filesystem
      then filesystem ∷ []
      else []

  All-usable :
      (l m : List Text)
      → ((fs : Text) → contains l fs ≡ true → G fs)
      → All (λ x. contains l x ≡ true) m
      → All G m
  All-usable l [] usable inside = tt
  All-usable l (x ∷ m) usable inside = (usable x inside.0, All-usable l m usable inside.1)

  chosen-usable : (l : List Text) → ((fs : Text) → contains l fs ≡ true → G fs) → All G (chosen l)
  chosen-usable l usable = elim (Bool-cases (is_empty (default_to [] o.filesystem))) [
    | inl all ↦ rw all (All-usable l l usable (All-contains l l (λ x at. at)))
    | inr one ↦ elim (Bool-cases (contains l (default_to [] o.filesystem))) [
      | inl known ↦ rw (one, known) (usable _ known, tt)
      | inr unknown ↦ rw (one, unknown) tt
    ]
  ]

  list_main-Shows :
      (w : World L.File) (l : List Text)
      → get_valid_fslist h config w ≡ (ok l, w)
      → ((fs : Text) → contains l fs ≡ true → G fs)
      → Gives Shows (list_main L h config userconfig list_dir rand typed o w)
  unfolding list_main
  list_main-Shows w l e usable =
      rw (e, list_main, continue)
        (Gives-then Shows (each (chosen l) w) (λ lists. pure (listing lists))
          (λ lists v q. Gives-end Shows (listing lists) v (λ lists' same.
            subst (All Listed) (listing-injective same)
              ((list_each-Listed (chosen l) (chosen-usable l usable) w).holds lists v q))))

module _ (L : Libs) (h : Host) (config : Config) (userconfig : UserConfig)
    (list_dir : Text → Option (List Text)) (rand : ℕ → ℕ) (typed : Text) (o : RestoreOptions)
    (real user group : Text) (gids : List ℕ) where
  -- The caller and the group have names, the caller may name the user of -u, the effective ids have
  -- the same groups as the real ones, and no filesystem is configured twice.
  pub record CanList (w : World L.File) : Type 0 where
    pub named : h.getpwuid h.uid ≡ some real
    pub for : restore_user o.username real ≡ ok user
    pub distinct : Distinct config.workspaces
    pub grouped : h.getgrgid h.gid ≡ some group
    pub grouped_effective : h.getgrgid w.egid ≡ some group
    pub groups : h.getgrouplist real h.gid ≡ some gids
    pub groups_effective : h.getgrouplist real w.euid ≡ some gids

  -- `validate` accepts the filesystem with -F.
  abbrev pub Usable : World L.File → Text → Type 0
  Usable w fs =
      validate h config userconfig real ws_restore
        (record (restore_opts o) { filesystem = some fs }) (pos 0) (pos 0) w
      ≡ (
        ok (record {
          filesystem = fs;
          duration = pos 0;
          maxextensions = pos 0;
          primarygroup = group;
        }),
        w,
      )

  abbrev pub Offered : World L.File → Text × List Text → Type 0
  Offered w x = Usable w x.0 × Accepted user real x.1

  -- What `ws_restore -l` lists can be restored as far as the checks go, where the effective ids have
  -- the same groups as the real ones, at most 128, and no filesystem is configured twice: for each
  -- filesystem in the list `validate` accepts -F with it, and each name under it passes `check_name`
  -- for the caller, also where root has named another user.
  pub list_main-Offered :
      (w w' : World L.File) (lists : List (Text × List Text))
      → CanList w
      → list_main L h config userconfig list_dir rand typed o w ≡ (ok (listing lists), w')
      → All (Offered w) lists
  list_main-Offered w w' lists c e =
      let valid = λ (fs : Text).
        get_valid_fslist-validate h config userconfig real w
          (record (restore_opts o) { filesystem = some fs }) (pos 0) (pos 0) fs group gids
          c.distinct refl c.grouped c.grouped_effective c.groups c.groups_effective in
      let (l, listed, accepts, refuses) = valid [] in
      let own : get_valid_fslist h config w ≡ (ok l, w) =
        get_valid_fslist-eq h config userconfig w ∙ rw (c.named, continue) listed in
      (list_main-Shows L h config userconfig list_dir rand typed o real user c.named c.for
          (Usable w) w l own
          (λ fs at.
            let (m, listed', accepts', refuses') = valid fs in
            let same : l ≡ m = ok-injective (ap (λ x. x.0) (sym listed ∙ listed')) in
            accepts' (rw (sym same) at))).holds
        (listing lists) w' e lists refl
