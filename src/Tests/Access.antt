-- ===== src/Tests/Access.antt =====
-- Witnesses for Access.
use hpc_workspace.Base.{◌≡◌, ◌⊎◌, refl, true, false, none, some, List, [], ◌∷◌, arith}
use hpc_workspace.Base.Int.{ℤ, pos, ◌≤ℤ◌}
use hpc_workspace.Base.Text.{Text, codes, contains, text_eq}
use hpc_workspace.Base.Dict.{lookup}
use hpc_workspace.World.{Host, ok, err, no_such_filesystem, not_allowed, World}
use hpc_workspace.World.Caps.{idle, allocate_caps}
use hpc_workspace.Config.{FsConfig, ws_allocate, ws_restore, config_duration, config_maxextensions}
use hpc_workspace.Programs.Restoring.Filesystems
use hpc_workspace.Programs.Restoring.Filesystems.{get_valid_fslist-eq}
use hpc_workspace.World.{undefined_behaviour, or_fail, ◌>>=◌}
use hpc_workspace.Access.{get_valid_fslist, find_default, validate, group_names}
use hpc_workspace.Access.Acl.{get_valid_fslist-validate, get_valid_fslist-euid, IncludesBase}
use hpc_workspace.Access.Default.{last_default, or_else, find_default-eq}
use hpc_workspace.Access.Limits.{validate-limits}
use hpc_workspace.Tests.{Node, host, fs, fs_name, config, opts}

abbrev world : World Node
world = idle allocate_caps [] [] 100 100

get_valid_fslist-validate_example :
    (l : List Text) × (get_valid_fslist host config [] (codes "bob") world ≡ (ok l, world))
    × (contains l fs_name ≡ true
        → validate host config [] (codes "bob") ws_restore opts (pos 7) (pos 0) world ≡ (
          ok (record {
            filesystem = fs_name;
            duration = pos 7;
            maxextensions = pos 0;
            primarygroup = codes "users";
          }),
          world,
        ))
    × (contains l fs_name ≡ false
        → (validate host config [] (codes "bob") ws_restore opts (pos 7) (pos 0) world
            ≡ (err no_such_filesystem, world))
          ⊎ (validate host config [] (codes "bob") ws_restore opts (pos 7) (pos 0) world
              ≡ (err not_allowed, world)))
unfolding lookup
get_valid_fslist-validate_example =
    get_valid_fslist-validate host config [] (codes "bob") world opts (pos 7) (pos 0) fs_name
      (codes "users") (100 ∷ []) (refl, tt) refl refl refl refl refl

abbrev check_host : Host
check_host = record host { check_all_groups = true }

abbrev users_fs : FsConfig
users_fs = record fs { group_acl = some (codes "users" ∷ []) }

check_host-IncludesBase : IncludesBase check_host
unfolding group_names contains text_eq
check_host-IncludesBase user name base gids listed named =
    let e : base ∷ [] ≡ gids = cc in let n : codes "users" ≡ name = cc in rw (← e, ← n) refl

get_valid_fslist-euid_example :
    (l : List Text) × (get_valid_fslist check_host
        (record config { workspaces = (fs_name, users_fs) ∷ [] })
        []
        (codes "bob")
        world
      ≡ (ok l, world))
    × (contains l fs_name ≡ true)
unfolding lookup contains text_eq
get_valid_fslist-euid_example =
    get_valid_fslist-euid check_host (record config { workspaces = (fs_name, users_fs) ∷ [] }) []
      (codes "bob") fs_name (codes "users") (codes "users") users_fs (100 ∷ []) (codes "users" ∷ [])
      world check_host-IncludesBase (refl, tt) refl refl refl refl refl refl refl

find_default-eq_example :
    find_default host config [] (codes "bob") ws_allocate false (codes "users") []
    ≡ or_else (last_default (λ c. c.userdefault) true (codes "bob") config.workspaces) (
        or_else
          (last_default (λ c. c.groupdefault) true (codes "users") config.workspaces)
          (or_else none (some fs_name)))
find_default-eq_example =
    find_default-eq host config [] (codes "bob") ws_allocate false (codes "users") []

validate-limits_example :
    (limit : ℤ) × (config_duration config [] fs_name (codes "bob") ≡ some limit)
    × (config_maxextensions config [] fs_name (codes "bob") ≡ some (pos 3))
    × (pos 30 ≤ℤ limit)
    × (pos 0 ≤ℤ limit → pos 0 ≤ℤ pos 30)
    × (pos 0 ≤ℤ pos 99 → pos 99 ≤ℤ limit → pos 30 ≡ pos 99)
unfolding validate
validate-limits_example =
    validate-limits host config [] (codes "bob") world opts (pos 99) (pos 0)
      {v = record {
        filesystem = fs_name;
        duration = pos 30;
        maxextensions = pos 3;
        primarygroup = codes "users";
      }}
      (omega arith) refl

get_valid_fslist-eq_example :
    Filesystems.get_valid_fslist host config world
    ≡ (or_fail (host.getpwuid host.uid) undefined_behaviour >>= λ username.
          get_valid_fslist host config [] username)
        world
get_valid_fslist-eq_example = get_valid_fslist-eq host config [] world
