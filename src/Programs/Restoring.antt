-- ===== src/Programs/Restoring.antt =====
-- src/ws_restore.cpp: the list of what can be restored, and the checks before a restore.
pub mod Filesystems
pub mod Offers
use hpc_workspace.Base.{
  ℕ, Bool, true, false, not, Option, none, some, List, [], ◌∷◌, if◌then◌else◌, default_to,
}
use hpc_workspace.Base.{◌≡◌, arith, ◌++◌, All, Bool-cases, inl, inr}
use hpc_workspace.Ruh.Screen.{Output, line, play, onto}
use hpc_workspace.Ruh.Shown.{ruh-shows}
use hpc_workspace.Base.Int.{pos}
use hpc_workspace.Base.Text.{Text, text_eq, codes, is_empty, contains, starts_with}
use hpc_workspace.World.{
  Host, Libs, World, M, Result, ok, err, usage, only_root, undefined_behaviour, uncaught_exception,
  pure, or_fail, ◌>>=◌, ◌>>◌,
}
use hpc_workspace.World.Caps.{restore_caps, drop_cap}
use hpc_workspace.Config.{Config, UserConfig, Opts, ws_restore, database_of, deleted_of}
use hpc_workspace.Names.{check_name, join_path}
use hpc_workspace.Programs.Restoring.Filesystems.{get_valid_fslist}
use hpc_workspace.Workspace.{Workspace, new_workspace}
use hpc_workspace.Ruh.{ruh}
use hpc_workspace.Restore.{Ending, restore}
use hpc_workspace.Programs.{of_result, checked_name}

-- The options of ws_restore; `shows` is --help or --version, and a text that is not given is empty.
pub record RestoreOptions : Type 0 where
  pub shows : Bool
  pub list : Bool
  pub name : Option Text
  pub target : Option Text
  pub filesystem : Option Text
  pub username : Text

-- `commandline`: with a name there must be a target, and without one -l.
unfoldable pub restore_commandline : RestoreOptions → Result (Unit {0})
unfolding checked_name
restore_commandline o = if o.shows then err usage else elim o.name [
  | none ↦ if o.list then ok tt else err usage
  | some name ↦ elim o.target [
    | none ↦ err usage
    | some target ↦ elim (checked_name (some name)) [ ok n ↦ ok tt | err e ↦ err e ]
  ]
]

-- The user whose entries are meant: only root may name another one.
unfoldable pub restore_user : Text → Text → Result Text
unfolding text_eq
restore_user username real_username =
    if is_empty username
    then ok real_username
    else if text_eq real_username username
    then ok username
    else if text_eq real_username (codes "root")
    then ok username
    else err only_root

-- The loop of `getRestorable`: the names that begin with the user's name and a dash.
unfoldable pub restorable_names : Text → List Text → List Text
unfolding starts_with
restorable_names username [] = []
restorable_names username (name ∷ names) =
    let rest = restorable_names username names in
    if starts_with name (username ++ (b'-' ∷ [])) then name ∷ rest else rest

-- What the program prints at the end.
pub data Printed : Type 0 where
  listing : List (Text × List Text) → Printed
  ended : Ending → Printed
  not_allowed_name not_human : Printed

abbrev pub restore_opts : RestoreOptions → Opts
restore_opts o = record {
  filesystem = o.filesystem;
  groupname = [];
  extension = false;
  group = false;
  userworkspace = false;
  delete_data = false;
}

-- `list_dir` gives the names that a directory iterator meets, and `none` where it throws; `rand` and
-- `typed` are what the human test draws and reads.
module _ (L : Libs) (h : Host) (config : Config) (userconfig : UserConfig)
    (list_dir : Text → Option (List Text)) (rand : ℕ → ℕ) (typed : Text) (o : RestoreOptions) where
  -- `getRestorable`
  unfoldable pub get_restorable : Text → Text → M L.File (List Text)
  unfolding join_path restorable_names
  get_restorable filesystem username = do
    database ← or_fail (database_of config filesystem) uncaught_exception
    deleted ← or_fail (deleted_of config filesystem) uncaught_exception
    pure (restorable_names username (default_to [] (list_dir (join_path database deleted))))

  -- The loop over the filesystems that are listed. It asks for the caller's name each time.
  unfoldable pub list_each : List Text → M L.File (List (Text × List Text))
  unfolding restore_user get_restorable
  list_each [] = pure []
  list_each (fs ∷ rest) =
      let more = list_each rest in
      or_fail (h.getpwuid h.uid) undefined_behaviour >>= λ real_username.
      of_result (restore_user o.username real_username) >>= λ username.
      get_restorable fs username >>= λ names. more >>= λ others. pure ((fs, names) ∷ others)

  -- The branch of `main` for -l.
  unfoldable pub list_main : M L.File Printed
  unfolding contains
  list_main = do
    validfs ← get_valid_fslist h config
    let filesystem = default_to [] o.filesystem
    let fslist =
        if is_empty filesystem
        then validfs
        else if contains validfs filesystem
        then filesystem ∷ []
        else []
    lists ← list_each fslist
    pure (listing lists)

  -- What follows on the checks of `main`.
  unfoldable pub restore_checked : Workspace → Text → M L.File Printed
  restore_checked s username =
      if not (check_name (default_to [] o.name) username s.username)
      then pure not_allowed_name
      else or_fail (ruh rand typed) undefined_behaviour >>= λ answer.
          if answer.1
          then (restore L h s (default_to [] o.name) (default_to [] o.target) username >>= λ e.
              pure (ended e))
          else pure not_human

  -- The branch of `main` for a restore.
  unfoldable pub restore_one : M L.File Printed
  restore_one = do
    s ← new_workspace h config userconfig ws_restore (restore_opts o) (pos 0) (pos 0)
    username ← of_result (restore_user o.username s.username)
    restore_checked s username

  -- `main`
  unfoldable pub restore_main : M L.File Printed
  restore_main = do
    drop_cap h restore_caps config.dbuid
    of_result (restore_commandline o)
    if o.list then list_main else restore_one

-- For every drawing there is a word that the terminal shows, and it does not depend on what is typed:
-- the answer of the human test is whether that word is typed, and the restore is made exactly if the
-- name of the entry passes `check_name` for the caller and that word is typed; else the program ends
-- well, and nothing has changed.
pub restore_checked-guards :
    (L : Libs) (h : Host) (config : Config) (userconfig : UserConfig)
    (list_dir : Text → Option (List Text)) (rand : ℕ → ℕ) (o : RestoreOptions)
    → (out : List Output) × (word : Text) × (play out (line [] []) ≡ line (onto word []) [])
      × ((typed : Text) → ruh rand typed ≡ some (out, text_eq typed word))
      × ((typed : Text) (s : Workspace) (username : Text) (w : World L.File)
          → restore_checked L h config userconfig list_dir rand typed o s username w ≡ (
              if check_name (default_to [] o.name) username s.username
              then (if text_eq typed word
                  then (restore L h s (default_to [] o.name) (default_to [] o.target) username
                        >>= λ e. pure (ended e))
                      w
                  else (ok not_human, w))
              else (ok not_allowed_name, w)))
unfolding restore_checked
restore_checked-guards L h config userconfig list_dir rand o =
    let (out, word, answers, shown) = ruh-shows rand [] in
    (
      out,
      word,
      shown,
      answers,
      λ typed s username w.
          elim (Bool-cases (check_name (default_to [] o.name) username s.username)) [
            | inl own ↦ elim (Bool-cases (text_eq typed word)) [
              | inl human ↦ rw (own, restore_checked, answers typed, human)
              | inr other ↦ rw (own, restore_checked, answers typed, other)
            ]
            | inr foreign ↦ rw (foreign, restore_checked)
          ],
    )

-- Every name that is listed for a user passes `check_name` for that user.
pub restorable_names-check_name :
    (user : Text) (names : List Text)
    → All (λ n. check_name n user user ≡ true) (restorable_names user names)
unfolding restorable_names check_name
restorable_names-check_name user [] = tt
restorable_names-check_name user (n ∷ names) =
    let rest = restorable_names-check_name user names in
    elim (Bool-cases (starts_with n (user ++ (b'-' ∷ [])))) [
      | inl own ↦ rw (own, restorable_names) (rw (own, check_name) (ground arith), rest)
      | inr foreign ↦ rw (foreign, restorable_names) rest
    ]
