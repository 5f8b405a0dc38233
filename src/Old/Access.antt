-- ===== src/Old/Access.antt =====
-- `validate` of old/ws_util.cpp.
use hpc_workspace.Base.{
  Bool, true, ◌&&◌, not, Option, none, some, List, [], ◌==◌, default_to, if◌then◌else◌,
}
use hpc_workspace.Base.Int.{ℤ, ltb_ℤ}
use hpc_workspace.Base.Text.{Text, contains}
use hpc_workspace.Base.Dict.{lookup}
use hpc_workspace.World.{
  Host, M, uncaught_exception, undefined_behaviour, not_allowed, pure, or_fail, fail_if, gets,
  ◌>>=◌, ◌>>◌,
}
use hpc_workspace.Config.{
  Config, UserConfig, WhichClient, is_allocate, bind, fs_config, config_duration,
  config_maxextensions,
}
use hpc_workspace.Access.{is_nil, any_in, group_names}

-- What `validate` sets in its reference parameters.
pub record Validated : Type 0 where
  pub filesystem : Text
  pub duration : ℤ
  pub maxextensions : ℤ
  pub primarygroup : Text

-- `userok`: with an access list, one of the groups or the user must be on it. A filesystem that is
-- not configured has none.
unfoldable pub user_ok : Config → Text → Text → List Text → Bool
unfolding contains any_in lookup
user_ok config filesystem username groupnames =
    let user_acl = default_to [] (bind (fs_config config filesystem) (λ c. c.user_acl)) in
    let group_acl = default_to [] (bind (fs_config config filesystem) (λ c. c.group_acl)) in
    let ok0 = is_nil user_acl && is_nil group_acl in
    let ok1 = if any_in group_acl groupnames then true else ok0 in
    if contains user_acl username then true else ok1

module _ (h : Host) (config : Config) (userconfig : UserConfig) (username : Text) where
  -- The filesystem. The lists of defaults are looked up under the key `workspaces.`, which is not
  -- there, so that only the default of the configuration is left.
  unfoldable pub choose_filesystem : {F : Type 0} → Option Text → List Text → M F Text
  unfolding user_ok
  choose_filesystem none groupnames = or_fail config.default_fs uncaught_exception
  choose_filesystem (some fs) groupnames =
      fail_if (not (user_ok config fs username groupnames)) not_allowed >> pure fs

  -- The two limits, which are read for ws_allocate only.
  unfoldable pub limits : {F : Type 0} → WhichClient → Text → ℤ → ℤ → M F (ℤ × ℤ)
  unfolding config_duration config_maxextensions
  limits wc filesystem duration maxextensions =
      if is_allocate wc
      then (do
        configduration ←
            or_fail (config_duration config userconfig filesystem username) uncaught_exception
        max ←
            or_fail (config_maxextensions config userconfig filesystem username) uncaught_exception
        pure (
          if not (h.uid == 0) && ltb_ℤ configduration duration then configduration else duration,
          max,
        ))
      else pure (duration, maxextensions)

  -- `validate`. With too many groups it prints an error and goes on with none; a group without a
  -- name is a null pointer that is read.
  unfoldable pub validate : {F : Type 0} → WhichClient → Option Text → ℤ → ℤ → M F Validated
  unfolding group_names choose_filesystem limits
  validate wc filesystem duration maxextensions = do
    euid ← gets (λ w. w.euid)
    egid ← gets (λ w. w.egid)
    let groupnames = group_names h.getgrgid (default_to [] (h.getgrouplist username euid))
    primarygroup ← or_fail (h.getgrgid egid) undefined_behaviour
    fs ← choose_filesystem filesystem groupnames
    l ← limits wc fs duration maxextensions
    pure (record {
      filesystem = fs;
      duration = l.0;
      maxextensions = l.1;
      primarygroup = primarygroup;
    })
