-- ===== src/Tests/Cycle.antt =====
-- The witness for ws_allocate and then ws_release, with a run of another user in between.
use hpc_workspace.Base.{false, ◌≡◌, refl, some, none, [], ◌∷◌}
use hpc_workspace.Base.Int.{pos}
use hpc_workspace.Base.Text.{codes, text_eq, has_char}
use hpc_workspace.Base.Dict.{Dict, lookup}
use hpc_workspace.World.{World, DbFile, Dir, Result, ok}
use hpc_workspace.World.Caps.{idle, allocate_caps}
use hpc_workspace.Names.{join_path, entry_name, match_e1, search_e2, valid_name}
use hpc_workspace.Config.{config_duration, config_maxextensions}
use hpc_workspace.Access.{
  Validated, validate, choose_filesystem, user_ok, group_names, limits, any_in, clamp_duration,
}
use hpc_workspace.Workspace.{entry_file}
use hpc_workspace.Allocate.{Allocated, search_list, entry_user}
use hpc_workspace.Allocate.Create.{finished_dir}
use hpc_workspace.Allocate.Twice.{created, report}
use hpc_workspace.Release.{full_name, stamped, deleted_path}
use hpc_workspace.Release.Moved.{IsMoved}
use hpc_workspace.Programs.{release_commandline, checked_name, release_main}
use hpc_workspace.Programs.Allocating.{
  AllocateOptions, Arguments, no_home, allocate_commandline, complete, checked_mail,
  taken_groupname, first_user, allocate_main,
}
use hpc_workspace.Programs.Runs.{releases, run}
use hpc_workspace.Programs.Runs.History.{nothing, then_run, then_aside}
use hpc_workspace.Programs.Runs.Cycle.{CanCycle, allocate_main-release_main}
use hpc_workspace.Tests.{Node, libs, libs-IsLawful, host, config, fs_name, workspace}
use hpc_workspace.Tests.Allocate.{request, file, wsdir, workspace-CanCreate, created-IsRanged}
use hpc_workspace.Tests.Runs.{numbers, options}
use hpc_workspace.Tests.Lifecycle.{later}
use hpc_workspace.Tests.Meanwhile.{ann, ann-IsOther}
use hpc_workspace.Tests.Quota.{extending, call}

-- `ws_allocate -F fs w 7`
abbrev creating : AllocateOptions
creating = record extending { extension = false }

abbrev arguments : Arguments
arguments = record {
  name = codes "w";
  mailaddress = [];
  completed = record {
    reminder = pos 0;
    groupname = [];
    duration = some (pos 7);
    user_option = [];
    home = no_home;
  };
}

abbrev validated : Validated
validated = record {
  filesystem = fs_name;
  duration = pos 7;
  maxextensions = pos 3;
  primarygroup = codes "users";
}

abbrev pub validated_later : Validated
validated_later = record validated { duration = pos 0; maxextensions = pos 0 }

bob-CanCycle :
    CanCycle libs host later config []
      (codes "bob")
      call.load_home
      call.parses
      (pos 0)
      (pos 1)
      creating
      []
      options
      arguments
      validated
      validated_later
      file
      wsdir
      []
      (codes "/db")
      (codes "old")
      (1001, 100)
      1001
      100
      allocate_caps
      allocate_caps
unfolding full_name stamped deleted_path join_path entry_name lookup text_eq has_char
    allocate_commandline complete checked_mail taken_groupname first_user valid_name match_e1
    search_e2 release_commandline checked_name validate choose_filesystem user_ok group_names limits
    any_in config_duration config_maxextensions clamp_duration
bob-CanCycle = record {
  enough = refl;
  enough_later = refl;
  asked = refl;
  days = pos 7;
  set = refl;
  asked_later = refl;
  named = refl;
  named_later = refl;
  valid = λ db dirs. refl;
  valid_later = λ db dirs. refl;
  retires = record {
    law = libs-IsLawful;
    fits = created-IsRanged;
    creates = workspace-CanCreate;
    mortal = refl;
    mortal_later = refl;
    same_config = refl;
    same_filesystem = refl;
    same_user = refl;
    build = refl;
    database_set = refl;
    deleted_set = refl;
    written = refl;
    moved = refl;
    apart = refl;
    keeps = refl;
    away = refl;
    away_apart = refl;
  };
}

abbrev before : World Node
before = idle allocate_caps [] [] 1001 100

abbrev made : Result Allocated × World Node
made =
    allocate_main host call.load_home call.parses (pos 0) (pos 1) creating libs config [] (some [])
      before

-- `ws_release w` by ann, who has no such workspace.
abbrev after : World Node
after = run libs ann config [] (releases options) made.1

abbrev dir : Dir
dir = finished_dir workspace request (1001, 100)

allocate_main-release_main_example :
    (made.0 ≡ ok (report libs host workspace request file wsdir [] (1001, 100) 1001 100))
    × (db'' : Dict (DbFile Node)) × (dirs'' : Dict Dir) × (release_main libs later config [] options
          (idle allocate_caps after.db ((wsdir, dir) ∷ []) 1001 100)
        ≡ (ok tt, idle allocate_caps db'' dirs'' 1001 100))
    × IsMoved libs later
        (record workspace { duration = pos 0; maxextensions = pos 0 })
        (codes "w")
        (codes "/db")
        (codes "old")
        (created libs host workspace request file wsdir [] (1001, 100) 1001 100)
        after.db
        db''
    × (lookup (codes "/ws/old/bob-w-8") dirs'' ≡ some dir)
    × (lookup wsdir dirs'' ≡ none)
unfolding full_name stamped deleted_path join_path entry_name lookup text_eq has_char search_list
    entry_file entry_user
allocate_main-release_main_example =
    allocate_main-release_main libs host later config [] (codes "bob") call.load_home call.parses
      (pos 0) (pos 1) creating [] options arguments validated validated_later file wsdir []
      (codes "/db") (codes "old") (1001, 100) 1001 100 numbers allocate_caps allocate_caps
      bob-CanCycle [] after.db [] ((wsdir, dir) ∷ []) (fs_name ∷ []) dir refl refl
      ((file, refl, refl), tt)
      (then_aside made.1 after (idle allocate_caps after.db ((wsdir, dir) ∷ []) 1001 100)
        (then_run made.1 made.1 ann config [] (releases options) (nothing made.1) ann-IsOther tt)
        refl)
      refl
