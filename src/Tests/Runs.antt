-- ===== src/Tests/Runs.antt =====
-- Witnesses for the runs of the programs.
use hpc_workspace.Base.{ℕ, false, some, [], ◌∷◌, ◌≡◌, refl, arith}
use hpc_workspace.Base.Text.{codes, has_char}
use hpc_workspace.Base.Dict.{lookup}
use hpc_workspace.World.{World}
use hpc_workspace.World.Caps.{idle, allocate_caps}
use hpc_workspace.Names.Owner.{IsEntryOf}
use hpc_workspace.Names.{join_path, entry_name}
use hpc_workspace.Programs.{ReleaseOptions}
use hpc_workspace.Programs.Runs.{releases, run}
use hpc_workspace.Spec.{view, Trace}
use hpc_workspace.Programs.Runs.Refines.{IsCaller, Permits, run-refines}
use hpc_workspace.Programs.Runs.History.{IsOther, nothing, then_run, History-others}
use hpc_workspace.Tests.{Node, libs, host, config, entry}
use hpc_workspace.Tests.Release.{file_of}

pub numbers : (n : ℕ) → has_char b'/' (libs.to_text n) ≡ false
unfolding has_char
numbers n = grind arith

-- `ws_release -F fs w`
abbrev pub options : ReleaseOptions
options = record {
  shows = false;
  name = some (codes "w");
  filesystem = some (codes "fs");
  userworkspace = false;
  delete_data = false;
}

-- Both bob and ann have a workspace `w`.
abbrev start : World Node
start =
    idle allocate_caps
      ((codes "/db/bob-w", file_of entry) ∷ (codes "/db/ann-w", file_of entry) ∷ []) [] 1001 100

bob-IsCaller : IsCaller (codes "bob") host
bob-IsCaller = record { named = refl; mortal = refl; not_root = λ e. ground arith }

bob-IsOther : IsOther (codes "ann") host
unfolding has_char
bob-IsOther = record {
  user = codes "bob";
  caller = bob-IsCaller;
  plain = record { no_dash = refl; no_slash = refl };
  other_plain = record { no_dash = refl; no_slash = refl };
  different = λ e. ground arith;
}

ann-IsEntryOf : IsEntryOf (codes "ann") (codes "/db/ann-w")
unfolding join_path entry_name has_char
ann-IsEntryOf = (codes "/db", codes "w", refl, refl)

History-others_example :
    lookup (codes "/db/ann-w") (run libs host config [] (releases options) start).db
    ≡ lookup (codes "/db/ann-w") start.db
History-others_example =
    History-others libs numbers (codes "ann") (codes "/db/ann-w") start _ ann-IsEntryOf
      (then_run start start host config [] (releases options) (nothing start) bob-IsOther tt)

run-refines_example :
    Trace
      (Permits (codes "bob") (releases options))
      (view start.db)
      (view (run libs host config [] (releases options) start).db)
run-refines_example =
    run-refines libs numbers host config [] (releases options) start (codes "bob") bob-IsCaller tt
