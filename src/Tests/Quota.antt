-- ===== src/Tests/Quota.antt =====
-- The witness for extensions over many runs.
use hpc_workspace.Base.{true, false, some, none, [], ◌∷◌, refl, arith}
use hpc_workspace.Base.Int.{pos}
use hpc_workspace.Base.Text.{codes}
use hpc_workspace.Base.Dict.{lookup}
use hpc_workspace.World.{World}
use hpc_workspace.World.Caps.{idle, allocate_caps}
use hpc_workspace.Allocate.Paid.{HoldsPaid}
use hpc_workspace.Programs.Allocating.{AllocateOptions}
use hpc_workspace.Programs.Runs.Quota.{Call, called, IsCounted, nothing, then_call, Calls-HoldsPaid}
use hpc_workspace.Tests.{Node, libs, libs-IsLawful, host, config, fs_name, entry}
use hpc_workspace.Tests.Db.{entry-IsRanged}
use hpc_workspace.Tests.Release.{file_of}

-- `ws_allocate -x -F fs w 7`, without a ~/.ws_user.conf.
abbrev pub extending : AllocateOptions
extending = record {
  shows = false;
  name = some (codes "w");
  duration = some (pos 7);
  filesystem = some fs_name;
  reminder = none;
  mailaddress = none;
  extension = true;
  username = none;
  group = false;
  groupname = [];
  comment = none;
}

abbrev pub call : Call
call = record {
  host = host;
  config = config;
  userconfig = [];
  load_home =
      λ t. some (record { reminder = none; groupname = none; duration = none; mail = none });
  parses = λ t. true;
  reminder = pos 0;
  duration = pos 1;
  options = extending;
  conf = some [];
}

call-IsCounted : IsCounted call
call-IsCounted = record {
  mortal = refl;
  whole = λ p opened. refl;
  early = omega arith;
  filesystem = fs_name;
  given = refl;
  default_int = (omega arith, omega arith);
  option_int = λ n e. absurd (ground arith);
  home_int = λ t x n e e'. absurd (ground arith);
}

abbrev start : World Node
start = idle allocate_caps ((codes "/db/bob-w", file_of entry) ∷ []) [] 1001 100

start-HoldsPaid : HoldsPaid libs entry (codes "/db/bob-w") start.db
unfolding lookup
start-HoldsPaid = record {
  entry = entry;
  stored = (file_of entry, refl, refl);
  fits = entry-IsRanged;
  is_paid = record {
    same_dir = refl;
    left = omega arith;
    no_more = omega arith;
    paid = λ later. absurd (omega arith);
  };
}

-- The same extension, asked for twice.
Calls-HoldsPaid_example :
    HoldsPaid libs entry (codes "/db/bob-w") (called libs call (called libs call start)).db
Calls-HoldsPaid_example =
    Calls-HoldsPaid libs libs-IsLawful entry (codes "/db/bob-w") start _
      (then_call start (called libs call start) call
        (then_call start start call (nothing start) call-IsCounted) call-IsCounted)
      start-HoldsPaid
