-- ===== src/Programs/Allocating.antt =====
-- src/ws_allocate.cpp: `commandline`, which completes the options from ~/.ws_user.conf, and `main`.
pub mod Checks
pub mod After
use hpc_workspace.Base.{
  Bool, true, false, not, ◌&&◌, ◌||◌, ◌==◌, Option, none, some, [], ◌∷◌, if◌then◌else◌, default_to,
}
use hpc_workspace.Base.{◌≡◌, ◌≢◌, ◌↔◌, refl, arith, Bool-cases, Option-cases, inl, inr, is_some}
use hpc_workspace.Base.Int.{ℤ, pos, eqb_ℤ, eqb_ℤ_iff}
use hpc_workspace.Base.Text.{Text, is_empty, has_char}
use hpc_workspace.World.{
  Host, Libs, M, Result, ok, err, ok-injective, usage, bad_name, bad_mail, mail_without_reminder,
  conf_symlink, undefined_behaviour, uncaught_exception, or_fail, ◌>>=◌, ◌>>◌,
}
use hpc_workspace.World.Caps.{allocate_caps, drop_cap}
use hpc_workspace.Config.{Config, UserConfig, Opts, ws_allocate}
use hpc_workspace.Names.{valid_name, valid_mail}
use hpc_workspace.Workspace.{new_workspace}
use hpc_workspace.Allocate.{Allocated, allocate}
use hpc_workspace.Programs.{of_result}
use mathlib.Core.Path.{subst}

-- The options of ws_allocate; `shows` is --help or --version, and a groupname that is not given is
-- empty.
pub record AllocateOptions : Type 0 where
  pub shows : Bool
  pub name : Option Text
  pub duration : Option ℤ
  pub filesystem : Option Text
  pub reminder : Option ℤ
  pub mailaddress : Option Text
  pub extension : Bool
  pub username : Option Text
  pub group : Bool
  pub groupname : Text
  pub comment : Option Text

-- The values of ~/.ws_user.conf that can be converted.
pub record UserHome : Type 0 where
  pub reminder : Option ℤ
  pub groupname : Option Text
  pub duration : Option ℤ
  pub mail : Option Text

abbrev pub no_home : UserHome
no_home = record { reminder = none; groupname = none; duration = none; mail = none }

-- What `commandline` leaves in its reference parameters; `duration` is `none` where nothing has
-- set it.
pub record Completed : Type 0 where
  pub reminder : ℤ
  pub groupname : Text
  pub duration : Option ℤ
  pub user_option : Text
  pub home : UserHome

pub record Arguments : Type 0 where
  pub name : Text
  pub mailaddress : Text
  pub completed : Completed

abbrev pub first_line : Text → Text
first_line [] = []
first_line (c ∷ s) = if c == 10 then [] else c ∷ first_line s

abbrev pub starts_comment : Text → Bool
starts_comment [] = false
starts_comment (c ∷ s) = c == b'#'

-- The file has the old format: a mail address alone in its first line.
abbrev pub is_old_format : Text → Bool
is_old_format conf = not (has_char b':' (first_line conf)) && has_char b'@' (first_line conf)

abbrev pub and_then : {A B : Type 0} → Result A → (A → Result B) → Result B
and_then (ok a) f = f a
and_then (err e) f = err e

-- `load_home` is `YAML::Load` with the four conversions, and `none` where it throws; `parses` says
-- whether Boost takes a text as the argument of -G; the two defaults are those of the configuration.
module _ (h : Host) (load_home : Text → Option UserHome) (parses : Text → Bool)
    (reminderdefault durationdefault : ℤ) (o : AllocateOptions) where
  -- The groupname that is taken from the user's file.
  unfoldable pub taken_groupname : UserHome → Option Text
  taken_groupname home =
      if is_empty o.groupname
      then elim home.groupname [ none ↦ none | some g ↦ if parses g then some g else none ]
      else none

  -- -u is ignored without -x, but for root.
  unfoldable pub first_user : Text
  first_user =
      if is_some o.username && not (o.extension || h.uid == 0) then [] else default_to [] o.username

  -- The options, completed from the user's file. With a groupname from there `po::notify` is called
  -- again, which sets every variable again from the options, also the user.
  unfoldable pub complete : Text → Result Completed
  unfolding taken_groupname first_user has_char
  complete conf =
      if is_old_format conf
      then ok (record {
        reminder = default_to (pos 0) o.reminder;
        groupname = o.groupname;
        duration = o.duration;
        user_option = first_user;
        home = no_home;
      })
      else elim (load_home conf) [
        | none ↦ err uncaught_exception
        | some home ↦ ok (record {
          reminder = default_to (default_to reminderdefault home.reminder) o.reminder;
          groupname = default_to o.groupname (taken_groupname home);
          duration = some (default_to (default_to durationdefault home.duration) o.duration);
          user_option =
              if is_some (taken_groupname home) then default_to [] o.username else first_user;
          home = home;
        })
      ]

  -- The address for the reminder where -m is not given.
  unfoldable pub found_mail : Text → UserHome → Result Text
  unfolding has_char
  found_mail conf home =
      let line = first_line conf in
      let mail =
        if has_char b':' line || starts_comment line then default_to [] home.mail else line in
      if is_empty mail
      then elim (h.getpwuid h.uid) [ none ↦ err undefined_behaviour | some name ↦ ok name ]
      else ok mail

  -- The block on the reminder.
  unfoldable pub checked_mail : Text → Completed → Result Text
  unfolding found_mail valid_mail
  checked_mail conf c =
      if eqb_ℤ c.reminder (pos 0)
      then if is_some o.mailaddress && not o.extension
        then err mail_without_reminder
        else ok (default_to [] o.mailaddress)
      else and_then (elim o.mailaddress [ none ↦ found_mail conf c.home | some m ↦ ok m ])
          (λ m. if not (valid_mail m) then err bad_mail else ok m)

  -- `commandline`
  unfoldable pub allocate_commandline : Text → Result Arguments
  unfolding complete checked_mail valid_name
  allocate_commandline conf = if o.shows then err usage else elim o.name [
    | none ↦ err usage
    | some name ↦ and_then (complete conf) (λ c. and_then (checked_mail conf c) (λ m.
        if not (valid_name name)
        then err bad_name
        else ok (record { name = name; mailaddress = m; completed = c })))
  ]

  abbrev pub allocate_opts : Completed → Opts
  allocate_opts c = record {
    filesystem = o.filesystem;
    groupname = c.groupname;
    extension = o.extension;
    group = o.group;
    userworkspace = false;
    delete_data = false;
  }

  -- `main`; `conf` is the text of the user's file, and `none` if that is a symbolic link.
  unfoldable pub allocate_main : (L : Libs) → Config → UserConfig → Option Text → M L.File Allocated
  allocate_main L config userconfig conf = do
    drop_cap h allocate_caps h.uid
    text ← or_fail conf conf_symlink
    args ← of_result (allocate_commandline text)
    let c = args.completed
    duration ← or_fail c.duration undefined_behaviour
    s ← new_workspace h config userconfig ws_allocate (allocate_opts c) duration (pos 0)
    allocate L h s (record {
      name = args.name;
      extensionflag = o.extension;
      reminder = c.reminder;
      mailaddress = args.mailaddress;
      user_option = c.user_option;
      groupname = c.groupname;
      comment = default_to [] o.comment;
    })
