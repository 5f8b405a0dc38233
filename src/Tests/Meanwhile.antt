-- ===== src/Tests/Meanwhile.antt =====
-- Another user, for the witnesses of runs.
use hpc_workspace.Base.{refl, some, arith}
use hpc_workspace.Base.Text.{codes, has_char}
use hpc_workspace.World.{Host}
use hpc_workspace.Programs.Runs.History.{IsOther}
use hpc_workspace.Tests.{host}

abbrev pub ann : Host
ann = record host { uid = 1002; getpwuid = λ u. some (codes "ann") }

pub ann-IsOther : IsOther (codes "bob") ann
unfolding has_char
ann-IsOther = record {
  user = codes "ann";
  caller = record { named = refl; mortal = refl; not_root = λ e. ground arith };
  plain = record { no_dash = refl; no_slash = refl };
  other_plain = record { no_dash = refl; no_slash = refl };
  different = λ e. ground arith;
}
