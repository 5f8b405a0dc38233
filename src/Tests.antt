-- ===== src/Tests.antt =====
-- A small installation for the witnesses: one filesystem, one caller, and libraries that keep an
-- entry as two dictionaries.
pub mod Names
pub mod Db
pub mod Access
pub mod Allocate
pub mod Release
pub mod Restore
pub mod Programs
pub mod Again
pub mod Runs
pub mod Lifecycle
pub mod Extend
pub mod Meanwhile
pub mod Old
pub mod Older
pub mod Quota
pub mod Cycle
pub mod Builds
pub mod Offers
use hpc_workspace.Base.{
  ℕ, ◌%◌, ◌+◌, Bool, true, false, Option, none, some, List, [], ◌∷◌, ◌==◌, if◌then◌else◌, refl,
}
use hpc_workspace.Base.Int.{ℤ, pos}
use hpc_workspace.Base.Text.{Text, codes, has_char, text_eq}
use hpc_workspace.Base.Dict.{Dict, lookup, insert, lookup-insert}
use hpc_workspace.World.{Host, Libs, IsLawful, World, Doc, map_doc, renamed, cross_device, no_child}
use hpc_workspace.Config.{FsConfig, Config, Opts}
use hpc_workspace.Workspace.{Workspace}
use hpc_workspace.Db.{WsDb}

pub record Node : Type 0 where
  pub texts : Dict Text
  pub ints : Dict ℤ

-- The part before the last slash, and the part behind it.
abbrev pub parent_path : Text → Text
parent_path [] = []
parent_path (c ∷ s) = if has_char b'/' s then c ∷ parent_path s else []

abbrev pub filename : Text → Text
filename [] = []
filename (c ∷ s) = if has_char b'/' s then filename s else if c == b'/' then s else c ∷ s

abbrev pub libs : Libs
libs = record {
  Node = Node;
  File = Node;
  empty = record { texts = []; ints = [] };
  set_text = λ k v n. record n { texts = insert k v n.texts };
  set_int = λ k v n. record n { ints = insert k v n.ints };
  emit = λ n. n;
  cut_short = λ n. record { texts = []; ints = [] };
  load = λ n. some (map_doc n);
  text_at = λ n k. lookup k n.texts;
  int_at = λ n k. lookup k n.ints;
  long_at = λ n k. lookup k n.ints;
  bytes = λ n. [];
  split = λ s c. s ∷ [];
  lexical_cast = λ s. none;
  to_text = λ n. (b'0' + n % 10) ∷ [];
  parent_path = parent_path;
  filename = filename;
}

pub libs-IsLawful : IsLawful libs
unfolding lookup
libs-IsLawful = record {
  load-emit = λ n. refl;
  text_at-empty = λ k. refl;
  text_at-set_text = λ k j v n. lookup-insert k j v n.texts;
  text_at-set_int = λ k j v n e. refl;
  int_at-set_text = λ k j v n e. refl;
  int_at-set_int = λ k j v n fits. lookup-insert k j v n.ints;
  int_at-set_other = λ k j v n e. rw (lookup-insert k j v n.ints, e);
  long_at-set_text = λ k j v n e. refl;
  long_at-set_int = λ k j v n fits. lookup-insert k j v n.ints;
  long_at-set_other = λ k j v n e. rw (lookup-insert k j v n.ints, e);
}

-- Every call is granted; the names and groups are those of one user.
abbrev pub host : Host
host = record {
  uid = 1001;
  gid = 100;
  setuid_build = false;
  check_all_groups = false;
  clock = λ n. n;
  rand = 4;
  getpwuid = λ u. some (codes "bob");
  getpwnam = λ s. some (1001, 100);
  getgrgid = λ g. some (codes "users");
  getgrnam = λ s. some 100;
  getgrouplist = λ s g. some (g ∷ []);
  can_access = λ p. true;
  free_bytes = λ p. 10;
  seteuid_ok = λ u. true;
  setegid_ok = λ g. true;
  open_ok = λ p. true;
  write_ok = λ p. true;
  root_squash = true;
  chmod_ok = λ p. true;
  chown_ok = λ p. true;
  mkdir_ok = λ p. true;
  unlink_ok = λ p. false;
  remove_all = λ n p. none;
  remove_ok = λ p. true;
  rename_answer = λ p q. renamed;
  fork_answer = λ p q. no_child;
  mv_left = λ p q dirs. dirs;
}

abbrev pub fs_name : Text
fs_name = codes "fs"

abbrev pub fs : FsConfig
fs = record {
  database = some (codes "/db");
  deleted = some (codes "old");
  spaces = some (codes "/ws" ∷ []);
  spaceselection = none;
  allocatable = none;
  extendable = none;
  restorable = none;
  user_acl = none;
  group_acl = none;
  groupdefault = none;
  userdefault = none;
  duration = none;
  maxextensions = none;
}

abbrev pub config : Config
config = record {
  dbuid = 900;
  dbgid = 901;
  workspaces = (fs_name, fs) ∷ [];
  duration = some (pos 30);
  maxextensions = some (pos 3);
  default_fs = some fs_name;
}

abbrev pub opts : Opts
opts = record {
  filesystem = some fs_name;
  groupname = [];
  extension = false;
  group = false;
  userworkspace = false;
  delete_data = false;
}

abbrev pub workspace : Workspace
workspace = record {
  config = config;
  userconfig = [];
  opt = opts;
  maxextensions = pos 3;
  duration = pos 7;
  filesystem = fs_name;
  acctcode = codes "users";
  username = codes "bob";
}

-- An entry of the workspace `w` of that user.
abbrev pub entry : WsDb
entry = record {
  dbfilename = codes "/db/bob-w";
  wsdir = codes "/ws/bob-w";
  expiration = pos 100;
  extensions = pos 2;
  acctcode = codes "users";
  dbuid = 900;
  dbgid = 901;
  reminder = pos 0;
  mailaddress = [];
  group = [];
  comment = codes "c";
  released = pos 0;
}
