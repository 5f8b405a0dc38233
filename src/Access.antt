-- ===== src/Access.antt =====
-- `Workspace::validate` and `Workspace::get_valid_fslist` of src/ws.cpp: who may use which
-- filesystem, which one is taken if none is given, and the limits on duration and extensions.
pub mod After
pub mod Acl
pub mod Default
pub mod Limits
use hpc_workspace.Base.{ℕ, Bool, true, false, ◌&&◌, ◌||◌, not, Option, none, some, List, [], ◌∷◌}
use hpc_workspace.Base.{default_to, is_some, ◌==◌, if◌then◌else◌}
use hpc_workspace.Base.Int.{ℤ, pos, ltb_ℤ}
use hpc_workspace.Base.Text.{Text, contains, is_empty}
use hpc_workspace.Base.Dict.{Dict, lookup, insert}
use hpc_workspace.World.{
  Host, World, M, Result, ok, err, uncaught_exception, too_many_groups, no_group, invalid_group,
  no_such_filesystem, not_allowed, no_default, pure, fail, or_fail, fail_if, gets, ◌>>=◌, ◌>>◌,
}
use hpc_workspace.Config.{
  FsConfig, Config, UserConfig, Opts, WhichClient, is_allocate, fs_config, config_duration,
  config_maxextensions,
}

-- `l.size() == 0`
abbrev pub is_nil : List Text → Bool
is_nil [] = true
is_nil (x ∷ l) = false

-- The loop under CHECK_ALL_GROUPS: some group of the user is listed.
unfoldable pub any_in : List Text → List Text → Bool
unfolding contains
any_in acl [] = false
any_in acl (g ∷ groups) = contains acl g || any_in acl groups

-- `userok` after the checks of the access lists.
unfoldable pub user_ok : Bool → Text → Text → List Text → FsConfig → Bool
unfolding contains any_in
user_ok check_all username primarygroup groupnames c =
    let user_acl = default_to [] c.user_acl in
    let group_acl = default_to [] c.group_acl in
    let ok0 = is_nil user_acl && is_nil group_acl in
    let ok1 = if contains group_acl primarygroup then true else ok0 in
    let ok2 = if check_all && any_in group_acl groupnames then true else ok1 in
    if contains user_acl username then true else ok2

-- The names of the groups that still have one.
unfoldable pub group_names : (ℕ → Option Text) → List ℕ → List Text
group_names getgrgid [] = []
group_names getgrgid (g ∷ gids) =
    let rest = group_names getgrgid gids in
    elim (getgrgid g) [ none ↦ rest | some name ↦ name ∷ rest ]

-- The loop of `get_valid_fslist` over the workspaces.
unfoldable pub valid_fs : (FsConfig → Bool) → Dict FsConfig → List Text
valid_fs granted [] = []
valid_fs granted ((fs, c) ∷ rest) =
    let more = valid_fs granted rest in if granted c then fs ∷ more else more

-- `groups_defaults[u] = v` for each listed `u`.
unfoldable pub set_all : List Text → Text → Dict Text → Dict Text
unfolding insert
set_all [] v m = m
set_all (u ∷ us) v m = set_all us v (insert u v m)

-- The loop that searches the defaults, with the list of one kind picked by `field`: workspaces
-- that cannot be allocated are skipped where `skip` is set.
unfoldable pub collect_defaults :
    (FsConfig → Option (List Text)) → Bool → Dict FsConfig → Dict Text → Dict Text
unfolding set_all
collect_defaults field skip [] m = m
collect_defaults field skip ((v, c) ∷ rest) m = collect_defaults field skip rest (
    if skip && not (default_to true c.allocatable)
    then m
    else set_all (default_to [] (field c)) v m)

-- The first of the groups with a default, under CHECK_ALL_GROUPS.
unfoldable pub first_default : Dict Text → List Text → Option Text
unfolding lookup
first_default m [] = none
first_default m (g ∷ groups) =
    let rest = first_default m groups in elim (lookup g m) [ none ↦ rest | some fs ↦ some fs ]

-- What `validate` sets.
pub record Validated : Type 0 where
  pub filesystem : Text
  pub duration : ℤ
  pub maxextensions : ℤ
  pub primarygroup : Text

module _ (h : Host) (config : Config) (userconfig : UserConfig) (username : Text) where
  -- `Workspace::get_valid_fslist`. It asks for the groups with the effective user's id as the base
  -- group; with too many groups it prints an error and goes on with none.
  unfoldable pub get_valid_fslist : {F : Type 0} → M F (List Text)
  unfolding user_ok group_names valid_fs
  get_valid_fslist = do
    euid ← gets (λ w. w.euid)
    egid ← gets (λ w. w.egid)
    let groupnames = group_names h.getgrgid (default_to [] (h.getgrouplist username euid))
    primarygroup ← or_fail (h.getgrgid egid) no_group
    pure (
        valid_fs (λ c. user_ok h.check_all_groups username primarygroup groupnames c || h.uid == 0)
          config.workspaces)

  -- The filesystem that is taken if none is given.
  unfoldable pub find_default : WhichClient → Bool → Text → List Text → Option Text
  unfolding collect_defaults first_default lookup
  find_default wc extension primarygroup groupnames =
      let skip = is_allocate wc && not extension in
      let user_defaults = collect_defaults (λ c. c.userdefault) skip config.workspaces [] in
      let groups_defaults = collect_defaults (λ c. c.groupdefault) skip config.workspaces [] in
      elim (lookup username user_defaults) [
        | some fs ↦ some fs
        | none ↦ elim (lookup primarygroup groups_defaults) [
          | some fs ↦ some fs
          | none ↦
              elim (if h.check_all_groups then first_default groups_defaults groupnames else none) [
                | some fs ↦ some fs
                | none ↦ config.default_fs
              ]
        ]
      ]

  -- The filesystem that `validate` settles on.
  unfoldable pub choose_filesystem : {F : Type 0} → WhichClient → Opts → Text → List Text → M F Text
  unfolding user_ok find_default lookup
  choose_filesystem wc opt primarygroup groupnames = elim opt.filesystem [
    | none ↦ or_fail (find_default wc opt.extension primarygroup groupnames) no_default
    | some fs ↦ elim (fs_config config fs) [
      | none ↦ fail no_such_filesystem
      | some c ↦
          if not (user_ok h.check_all_groups username primarygroup groupnames c) && not (h.uid == 0)
          then fail not_allowed
          else pure fs
    ]
  ]

  -- The test of a duration against the limit, also made by `allocate` for an extension. Root is
  -- not limited.
  unfoldable pub clamp_duration : ℤ → ℤ → ℤ
  clamp_duration configduration duration =
      if not (h.uid == 0) && (ltb_ℤ configduration duration || ltb_ℤ duration (pos 0))
      then configduration
      else duration

  -- The limits, which `validate` reads for ws_allocate only.
  unfoldable pub limits : {F : Type 0} → WhichClient → Text → ℤ → ℤ → M F (ℤ × ℤ)
  unfolding config_duration config_maxextensions clamp_duration
  limits wc filesystem duration maxextensions =
      if is_allocate wc
      then (do
        configduration ←
            or_fail (config_duration config userconfig filesystem username) uncaught_exception
        max ←
            or_fail (config_maxextensions config userconfig filesystem username) uncaught_exception
        pure (clamp_duration configduration duration, max))
      else pure (duration, maxextensions)

  -- `Workspace::validate`. `maxextensions` is what the member holds before.
  unfoldable pub validate : {F : Type 0} → WhichClient → Opts → ℤ → ℤ → M F Validated
  unfolding choose_filesystem limits group_names contains
  validate wc opt duration maxextensions = do
    gids ← or_fail (h.getgrouplist username h.gid) too_many_groups
    let groupnames = group_names h.getgrgid gids
    primarygroup ← or_fail (h.getgrgid h.gid) no_group
    fail_if
        (is_allocate wc && not (is_empty opt.groupname) && not (contains groupnames opt.groupname))
        invalid_group
    filesystem ← choose_filesystem wc opt primarygroup groupnames
    l ← limits wc filesystem duration maxextensions
    pure (record {
      filesystem = filesystem;
      duration = l.0;
      maxextensions = l.1;
      primarygroup = primarygroup;
    })
