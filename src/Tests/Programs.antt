-- ===== src/Tests/Programs.antt =====
-- Witnesses for the programs and the times.
use hpc_workspace.Base.{
  ◌≡◌, ◌≢◌, ◌↔◌, ◌≤◌, refl, true, false, Option, none, some, List, [], if◌then◌else◌,
}
use hpc_workspace.Base.Int.{ℤ, pos}
use hpc_workspace.Base.Text.{Text, codes, text_eq, has_char}
use hpc_workspace.World.{World, ok, ◌>>=◌, pure}
use hpc_workspace.World.Caps.{idle, restore_caps}
use hpc_workspace.Names.{check_name, valid_name, valid_mail, match_e1, search_e2}
use hpc_workspace.Ruh.{ruh}
use hpc_workspace.Ruh.Screen.{Output, line, play, onto}
use hpc_workspace.Restore.{restore}
use hpc_workspace.Workspace.{Workspace, expiration_after}
use hpc_workspace.Workspace.Duration.{expiration_after-exact}
use hpc_workspace.Programs.Restoring.{
  RestoreOptions, restore_checked, ended, not_human, not_allowed_name, restore_checked-guards,
}
use hpc_workspace.Programs.Allocating.{
  AllocateOptions, UserHome, no_home, Completed, is_old_format, taken_groupname, complete,
  first_user, checked_mail, found_mail, allocate_commandline,
}
use hpc_workspace.Programs.Allocating.Checks.{allocate_commandline-checks, complete-duration}
use hpc_workspace.Tests.{Node, libs, host, config, fs_name}

abbrev restoring : RestoreOptions
restoring = record {
  shows = false;
  list = false;
  name = some (codes "bob-w-7");
  target = some (codes "t");
  filesystem = some fs_name;
  username = [];
}

abbrev world : World Node
world = idle restore_caps [] [] 1001 100

restore_checked-guards_example :
    (out : List Output) × (word : Text) × (play out (line [] []) ≡ line (onto word []) [])
    × ((typed : Text) → ruh (λ i. i) typed ≡ some (out, text_eq typed word))
    × ((typed : Text) (s : Workspace) (username : Text) (w : World Node)
        → restore_checked libs host config [] (λ p. none) (λ i. i) typed restoring s username w ≡ (
            if check_name (codes "bob-w-7") username s.username
            then (if text_eq typed word
                then (restore libs host s (codes "bob-w-7") (codes "t") username >>= λ e.
                      pure (ended e))
                    w
                else (ok not_human, w))
            else (ok not_allowed_name, w)))
restore_checked-guards_example =
    restore_checked-guards libs host config [] (λ p. none) (λ i. i) restoring

-- A user who is not root names another one, without -x.
abbrev options : AllocateOptions
options = record {
  shows = false;
  name = some (codes "w");
  duration = none;
  filesystem = none;
  reminder = some (pos 2);
  mailaddress = none;
  extension = false;
  username = some (codes "ann");
  group = false;
  groupname = [];
  comment = none;
}

abbrev grouped : UserHome
grouped = record no_home { groupname = some (codes "users") }

abbrev completed : Completed
completed = record {
  reminder = pos 2;
  groupname = codes "users";
  duration = some (pos 1);
  user_option = codes "ann";
  home = grouped;
}

complete-duration_example :
    (◌≡◌ {A = Option ℤ} none none)
    ↔ ((is_old_format (codes "bob@x") ≡ true) × (◌≡◌ {A = Option ℤ} none none))
unfolding complete first_user has_char
complete-duration_example =
    complete-duration host (λ t. none) (λ t. true) (pos 0) (pos 1) options (codes "bob@x")
      {c = record {
        reminder = pos 2;
        groupname = [];
        duration = none;
        user_option = [];
        home = no_home;
      }}
      refl

allocate_commandline-checks_example :
    (valid_name (codes "w") ≡ true) × (pos 2 ≢ pos 0 → valid_mail (codes "bob") ≡ true)
unfolding allocate_commandline complete checked_mail found_mail taken_groupname has_char valid_name
    valid_mail match_e1 search_e2
allocate_commandline-checks_example =
    allocate_commandline-checks host (λ t. some grouped) (λ t. true) (pos 0) (pos 1) options
      (codes "groupname: users")
      {a = record { name = codes "w"; mailaddress = codes "bob"; completed = completed }} refl

expiration_after-exact_example : (expiration_after host 0 (pos 30) ≡ pos 2592000) ↔ (30 ≤ 24855)
expiration_after-exact_example = expiration_after-exact host 0 30
