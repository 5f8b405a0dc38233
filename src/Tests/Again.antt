-- ===== src/Tests/Again.antt =====
-- The witness for ws_release and then ws_restore, with a run of another user in between.
use hpc_workspace.Base.{false, ◌≡◌, refl, none, some, [], ◌∷◌, List, arith}
use hpc_workspace.Base.Int.{pos}
use hpc_workspace.Base.Text.{codes, text_eq, has_char, starts_with}
use hpc_workspace.Base.Dict.{Dict, lookup}
use hpc_workspace.Ruh.{ruh, draw, show_word, scheme2}
use hpc_workspace.Ruh.Screen.{Output}
use hpc_workspace.World.{World, DbFile, Dir, Result, ok}
use hpc_workspace.World.Caps.{idle, allocate_caps, restore_caps}
use hpc_workspace.Names.{join_path, entry_name, check_name, match_e1, search_e2, valid_name}
use hpc_workspace.Access.{validate, choose_filesystem, user_ok, group_names, any_in}
use hpc_workspace.Workspace.{Workspace}
use hpc_workspace.Db.Written.{open_entry-Holds}
use hpc_workspace.Db.RoundTrip.{read_dbfile-entry_node, IsRanged}
use hpc_workspace.Release.{full_name, stamped, deleted_path, released_entry}
use hpc_workspace.Release.Moved.{CanRelease}
use hpc_workspace.Restore.{restored}
use hpc_workspace.Restore.Again.{CanUndo}
use hpc_workspace.Programs.{release_commandline, checked_name, release_main}
use hpc_workspace.Programs.Restoring.{
  RestoreOptions, ended, restore_commandline, restore_user, restore_main,
}
use hpc_workspace.Programs.Runs.Undo.{IsAsked, CanReturn, release_main-restore_main}
use hpc_workspace.Tests.{Node, libs, libs-IsLawful, host, config, fs_name, workspace, entry}
use hpc_workspace.Programs.Runs.{releases, run}
use hpc_workspace.Programs.Runs.History.{nothing, then_run, then_aside}
use hpc_workspace.Tests.Meanwhile.{ann, ann-IsOther}
use hpc_workspace.Tests.Runs.{numbers, options}
use hpc_workspace.Tests.Cycle.{validated_later}
use hpc_workspace.Tests.Lifecycle.{later}
use hpc_workspace.Tests.Db.{entry-IsRanged}
use hpc_workspace.Tests.Release.{file_of, dir, dirs}
use hpc_workspace.Tests.Restore.{target_entry}

abbrev idle_workspace : Workspace
idle_workspace = record workspace { duration = pos 0; maxextensions = pos 0 }

-- `ws_restore -F fs bob-w-0 t`
abbrev restoring : RestoreOptions
restoring = record {
  shows = false;
  list = false;
  name = some (codes "bob-w-0");
  target = some (codes "t");
  filesystem = some fs_name;
  username = [];
}

-- What the terminal is sent for the word `iue`.
abbrev shown : List Output
shown = scheme2 (codes "i") (codes "u") (codes "e" ∷ [])

-- The workspaces `w` and `t`.
abbrev db : Dict (DbFile Node)
db = (codes "/db/bob-w", file_of entry) ∷ (codes "/db/bob-t", file_of target_entry) ∷ []

db-CanRelease :
    CanRelease libs host idle_workspace (codes "w") (codes "/db") (codes "old") entry false db
unfolding full_name stamped deleted_path join_path entry_name lookup text_eq has_char
db-CanRelease = record {
  build = refl;
  database_set = refl;
  deleted_set = refl;
  found = refl;
  opened = λ dirs euid egid.
      open_entry-Holds libs host entry (idle allocate_caps db dirs euid egid) libs-IsLawful
        entry-IsRanged (file_of entry, refl, refl);
  named = refl;
  written = refl;
  moved = refl;
  apart = refl;
  option = refl;
}

released-IsRanged : IsRanged (released_entry libs host idle_workspace (codes "w") entry)
unfolding released_entry
released-IsRanged = record {
  expiration_fits = (omega arith, omega arith);
  extensions_fits = (omega arith, omega arith);
  reminder_fits = (omega arith, omega arith);
}

target-IsRanged : IsRanged target_entry
target-IsRanged = record {
  expiration_fits = (omega arith, omega arith);
  extensions_fits = (omega arith, omega arith);
  reminder_fits = (omega arith, omega arith);
}

db-CanUndo :
    CanUndo libs host later idle_workspace idle_workspace
      (codes "w")
      (codes "t")
      (codes "bob")
      (codes "/db")
      (codes "old")
      entry
      target_entry
      db
      dirs
      dir
unfolding full_name stamped deleted_path join_path entry_name lookup text_eq has_char
db-CanUndo = record {
  law = libs-IsLawful;
  fits = released-IsRanged;
  releases = db-CanRelease;
  directory = refl;
  away = refl;
  away_apart = refl;
  parent = refl;
  build = refl;
  database_set = refl;
  deleted_set = refl;
  restorable = refl;
  target_there = (
    file_of target_entry,
    refl,
    read_dbfile-entry_node libs libs-IsLawful target_entry target-IsRanged,
  );
  other_entry = refl;
  other_old = refl;
  removed = refl;
  back = refl;
  back_apart = refl;
}

bob-IsAsked :
    IsAsked libs later config []
      (codes "bob")
      (λ p. none)
      (λ i. i)
      (codes "iue")
      restoring
      validated_later
      (codes "bob-w-0")
      (codes "t")
      (codes "bob")
      shown
unfolding restore_commandline restore_user checked_name valid_name match_e1 search_e2 check_name
    text_eq starts_with ruh draw show_word scheme2
bob-IsAsked = record {
  asked = refl;
  no_list = refl;
  name_given = refl;
  target_given = refl;
  user_given = refl;
  own_name = refl;
  human = refl;
  named = refl;
}

bob-CanReturn :
    CanReturn libs host later config []
      (codes "bob")
      (codes "bob")
      (λ p. none)
      (λ i. i)
      (codes "iue")
      options
      restoring
      validated_later
      validated_later
      (codes "w")
      (codes "t")
      (codes "/db")
      (codes "old")
      shown
      entry
      target_entry
      1001
      100
      db
      dirs
      dir
      allocate_caps
      restore_caps
unfolding full_name stamped deleted_path join_path entry_name text_eq has_char release_commandline
    checked_name valid_name match_e1 search_e2 validate choose_filesystem user_ok group_names any_in
bob-CanReturn = record {
  enough = refl;
  enough_later = refl;
  asked = refl;
  named = refl;
  mortal = refl;
  target_plain = refl;
  asked_later = bob-IsAsked;
  valid = refl;
  valid_later = λ db' dirs'. refl;
  undoes = db-CanUndo;
}

abbrev made : Result (Unit {0}) × World Node
made = release_main libs host config [] options (idle allocate_caps db dirs 1001 100)

-- `ws_release w` by ann, who has no such workspace.
abbrev after : World Node
after = run libs ann config [] (releases options) made.1

abbrev there : Dict Dir
there = (codes "/ws/old/bob-w-0", dir) ∷ []

release_main-restore_main_example :
    (made.0 ≡ ok tt)
    × (lookup (codes "/ws/bob-w") made.1.dirs ≡ none)
    × (db'' : Dict (DbFile Node)) × (dirs'' : Dict Dir) × (restore_main libs later config []
          (λ p. none)
          (λ i. i)
          (codes "iue")
          restoring
          (idle restore_caps after.db there 1001 100)
        ≡ (ok (ended restored), idle restore_caps db'' dirs'' 1001 100))
    × (lookup (codes "/ws/bob-t/bob-w-0") dirs'' ≡ some dir)
    × (lookup (codes "/ws/old/bob-w-0") dirs'' ≡ none)
    × (lookup (codes "/db/old/bob-w-0") db'' ≡ none)
unfolding full_name stamped deleted_path join_path entry_name text_eq has_char lookup
release_main-restore_main_example =
    release_main-restore_main libs host later config [] (codes "bob") (codes "bob") (λ p. none)
      (λ i. i) (codes "iue") options restoring validated_later validated_later (codes "w")
      (codes "t") (codes "/db") (codes "old") shown entry target_entry 1001 100 numbers db dirs dir
      allocate_caps restore_caps bob-CanReturn after.db there
      (then_aside made.1 after (idle allocate_caps after.db there 1001 100)
        (then_run made.1 made.1 ann config [] (releases options) (nothing made.1) ann-IsOther tt)
        refl)
      refl
