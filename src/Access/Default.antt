-- ===== src/Access/Default.antt =====
-- Which filesystem is taken when none is given.
use hpc_workspace.Base.{
  ◌≡◌, refl, ◌∙◌, Bool, true, not, ◌&&◌, Option, none, some, List, [], ◌∷◌, arith,
}
use hpc_workspace.Base.{if◌then◌else◌, default_to}
use hpc_workspace.Base.Text.{Text, contains}
use hpc_workspace.Base.Dict.{Dict, lookup, insert, lookup-insert}
use hpc_workspace.World.{Host}
use hpc_workspace.Config.{FsConfig, Config, UserConfig, WhichClient, is_allocate}
use hpc_workspace.Access.{set_all, collect_defaults, first_default, find_default}

abbrev pub or_else {ℓ} : {A : Type ℓ} → Option A → Option A → Option A
or_else none b = b
or_else (some a) b = some a

module _ (field : FsConfig → Option (List Text)) (skip : Bool) where
  -- Whether the workspace is a default for `u`: it lists `u`, and is not skipped.
  abbrev pub is_default : Text → FsConfig → Bool
  is_default u c =
      not (skip && not (default_to true c.allocatable)) && contains (default_to [] (field c)) u

  -- The last workspace of the file that is a default for `u`.
  abbrev pub last_default : Text → Dict FsConfig → Option Text
  last_default u [] = none
  last_default u ((v, c) ∷ ws) =
      or_else (last_default u ws) (if is_default u c then some v else none)

  -- The first of the groups with a default, and its default.
  abbrev pub group_default : Dict FsConfig → List Text → Option Text
  group_default ws [] = none
  group_default ws (g ∷ groups) = or_else (last_default g ws) (group_default ws groups)

lookup-set_all :
    (us : List Text) (v u : Text) (m : Dict Text)
    → lookup u (set_all us v m) ≡ (if contains us u then some v else lookup u m)
unfolding set_all contains
lookup-set_all [] v u m = refl
lookup-set_all (x ∷ us) v u m =
    ground (arith, lookup-set_all us v u (insert x v m), lookup-insert x u v m)

module _ (field : FsConfig → Option (List Text)) (skip : Bool) where
  lookup-collect_defaults :
      (u : Text) (ws : Dict FsConfig) (m : Dict Text)
      → lookup u (collect_defaults field skip ws m)
        ≡ or_else (last_default field skip u ws) (lookup u m)
  unfolding collect_defaults
  lookup-collect_defaults u [] m = refl
  lookup-collect_defaults u ((v, c) ∷ ws) m = ground (
    arith,
    lookup-collect_defaults u ws m,
    lookup-collect_defaults u ws (set_all (default_to [] (field c)) v m),
    lookup-set_all (default_to [] (field c)) v u m,
  )

  lookup-defaults :
      (u : Text) (ws : Dict FsConfig)
      → lookup u (collect_defaults field skip ws []) ≡ last_default field skip u ws
  unfolding lookup
  lookup-defaults u ws = lookup-collect_defaults u ws [] ∙ ground arith

  first_default-eq :
      (ws : Dict FsConfig) (groups : List Text)
      → first_default (collect_defaults field skip ws []) groups
        ≡ group_default field skip ws groups
  unfolding first_default
  first_default-eq ws [] = refl
  first_default-eq ws (g ∷ groups) =
      ground (arith, lookup-defaults g ws, first_default-eq ws groups)

-- Without -F the filesystem is, in this order: the last workspace of the file whose `userdefault`
-- lists the user; the last whose `groupdefault` lists the current group; with CHECK_ALL_GROUPS, the
-- default of the first group that has one; the configured global default. Workspaces that are not
-- allocatable do not count when ws_allocate creates. No access list is asked.
pub find_default-eq :
    (h : Host) (config : Config) (userconfig : UserConfig) (username : Text) (wc : WhichClient)
    (extension : Bool) (primarygroup : Text) (groups : List Text)
    → let skip = is_allocate wc && not extension in
      find_default h config userconfig username wc extension primarygroup groups
      ≡ or_else (last_default (λ c. c.userdefault) skip username config.workspaces) (
          or_else (last_default (λ c. c.groupdefault) skip primarygroup config.workspaces) (
            or_else
              (if h.check_all_groups
                then group_default (λ c. c.groupdefault) skip config.workspaces groups
                else none)
              config.default_fs))
unfolding find_default
find_default-eq h config userconfig username wc extension primarygroup groups =
    let skip = is_allocate wc && not extension in
    ground (
      arith,
      lookup-defaults (λ c. c.userdefault) skip username config.workspaces,
      lookup-defaults (λ c. c.groupdefault) skip primarygroup config.workspaces,
      first_default-eq (λ c. c.groupdefault) skip config.workspaces groups,
    )
