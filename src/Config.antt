-- ===== src/Config.antt =====
-- What the tools read of /etc/ws.conf and /etc/ws_private.conf, as they read it: a key that is
-- missing is `none`. And what the command line gave to the options that `Workspace` looks at.
-- The two limits of a workspace, for its duration and its extensions, are read here.
use hpc_workspace.Base.{ℕ, Bool, Option, none, some, List}
use hpc_workspace.Base.Int.{ℤ}
use hpc_workspace.Base.Text.{Text}
use hpc_workspace.Base.Dict.{Dict, lookup}

-- `config["workspaces"][filesystem]`
pub record FsConfig : Type 0 where
  pub database : Option Text
  pub deleted : Option Text
  pub spaces : Option (List Text)
  pub spaceselection : Option Text
  pub allocatable : Option Bool
  pub extendable : Option Bool
  pub restorable : Option Bool
  pub user_acl : Option (List Text)
  pub group_acl : Option (List Text)
  pub groupdefault : Option (List Text)
  pub userdefault : Option (List Text)
  pub duration : Option ℤ
  pub maxextensions : Option ℤ

pub record Config : Type 0 where
  pub dbuid : ℕ
  pub dbgid : ℕ
  -- In the order of the file.
  pub workspaces : Dict FsConfig
  pub duration : Option ℤ
  pub maxextensions : Option ℤ
  pub default_fs : Option Text

-- `userconfig["workspaces"][filesystem]["userexceptions"][username]`
pub record UserException : Type 0 where
  pub duration : Option ℤ
  pub maxextensions : Option ℤ

abbrev pub UserConfig : Type 0
UserConfig = Dict (Dict UserException)

-- `po::variables_map`: the options that `Workspace` asks for.
pub record Opts : Type 0 where
  pub filesystem : Option Text
  pub groupname : Text
  pub extension : Bool
  pub group : Bool
  pub userworkspace : Bool
  pub delete_data : Bool

-- `enum whichclient`
pub data WhichClient : Type 0 where
  ws_allocate ws_release ws_restore : WhichClient

abbrev pub is_allocate : WhichClient → Bool
is_allocate ws_allocate = Bool.true
is_allocate ws_release = Bool.false
is_allocate ws_restore = Bool.false

abbrev pub bind {ℓ κ} : {A : Type ℓ} {B : Type κ} → Option A → (A → Option B) → Option B
bind none f = none
bind (some a) f = f a

abbrev or_else {ℓ} : {A : Type ℓ} → Option A → Option A → Option A
or_else none b = b
or_else (some a) b = some a

module _ (config : Config) where
  -- `config["workspaces"][filesystem]`, where it is there.
  abbrev pub fs_config : Text → Option FsConfig
  fs_config filesystem = lookup filesystem config.workspaces

  -- `config["workspaces"][filesystem]["database"].as<string>()`, which throws on `none`.
  abbrev pub database_of : Text → Option Text
  database_of filesystem = bind (fs_config filesystem) (λ c. c.database)

  abbrev pub deleted_of : Text → Option Text
  deleted_of filesystem = bind (fs_config filesystem) (λ c. c.deleted)

  module _ (userconfig : UserConfig) (filesystem username : Text) where
    abbrev pub exception : Option UserException
    exception = bind (lookup filesystem userconfig) (lookup username)

    -- `configduration`: the user's exception, else the workspace's limit, else the global one;
    -- `none` where the last is missing and `as<int>()` throws.
    unfoldable pub config_duration : Option ℤ
    unfolding lookup
    config_duration =
        or_else (bind exception (λ x. x.duration))
          (or_else (bind (fs_config filesystem) (λ c. c.duration)) config.duration)

    -- The same for `maxextensions`.
    unfoldable pub config_maxextensions : Option ℤ
    unfolding lookup
    config_maxextensions =
        or_else (bind exception (λ x. x.maxextensions))
          (or_else (bind (fs_config filesystem) (λ c. c.maxextensions)) config.maxextensions)
