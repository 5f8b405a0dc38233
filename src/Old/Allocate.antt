-- ===== src/Old/Allocate.antt =====
-- old/ws_allocate.cpp, as built without LUACALLOUTS.
use hpc_workspace.Base.{
  ℕ, ◌%◌, Bool, ◌&&◌, not, Option, none, some, [], ◌==◌, default_to, if◌then◌else◌, length,
  get_elem?,
}
use hpc_workspace.Base.Int.{ℤ, pos, ◌-ℤ◌, ltb_ℤ, eqb_ℤ}
use hpc_workspace.Base.Text.{Text, text_eq, is_empty}
use hpc_workspace.Base.Dict.{Dict, lookup, insert}
use hpc_workspace.World.{
  Host, Libs, Dir, M, Result, ok, err, Error, usage, bad_name, uncaught_exception,
  undefined_behaviour, ws_not_found, no_permission, no_more_extensions, mkdir_failed, chown_failed,
  chmod_failed, pure, or_fail, fail_if, gets, modify, ◌>>=◌, ◌>>◌,
}
use hpc_workspace.World.Caps.{Cap, cap_chown, cap_dac_override}
use hpc_workspace.Config.{Config, UserConfig, ws_allocate, bind, fs_config}
use hpc_workspace.Names.{match_e1, join_path, entry_name}
use hpc_workspace.Workspace.{entry_file, exists, expiration_after}
use hpc_workspace.Programs.{of_result}
use hpc_workspace.Old.{OldDb, old_caps, read_dbfile, write_dbfile, drop_cap, raise_cap, lower_cap}
use hpc_workspace.Old.Access.{Validated, validate}

-- The options, as Boost has parsed them; `duration` has the default 1.
pub record AllocateOptions : Type 0 where
  pub help : Bool
  pub name : Option Text
  pub duration : ℤ
  pub filesystem : Option Text
  pub reminder : ℤ
  pub mailaddress : Option Text
  pub extension : Bool
  pub user : Text

-- What `commandline` leaves: name, reminder and mail address.
pub record Arguments : Type 0 where
  pub name : Text
  pub reminder : ℤ
  pub mailaddress : Text

-- The check of the reminder: it is ignored if it lies in the past or no address is found. `conf` is
-- the first line of ~/.ws_user.conf, and empty if that cannot be read.
unfoldable pub checked_reminder : AllocateOptions → Text → ℤ × Text
checked_reminder o conf =
    let given = default_to [] o.mailaddress in
    if eqb_ℤ o.reminder (pos 0)
    then (pos 0, given)
    else if ltb_ℤ o.duration o.reminder
    then (pos 0, given)
    else elim o.mailaddress [
      | some m ↦ (o.reminder, m)
      | none ↦ (if is_empty conf then pos 0 else o.reminder, conf)
    ]

-- `commandline`
unfoldable pub allocate_commandline : AllocateOptions → Text → Result Arguments
unfolding checked_reminder match_e1
allocate_commandline o conf = if o.help then err usage else elim o.name [
  | none ↦ err usage
  | some name ↦
      if not (match_e1 name)
      then err bad_name
      else ok (record {
        name = name;
        reminder = (checked_reminder o conf).0;
        mailaddress = (checked_reminder o conf).1;
      })
]

module _ (L : Libs) (h : Host) (config : Config) (o : AllocateOptions) (a : Arguments)
    (v : Validated) (username : Text) where
  -- `time(NULL)+duration*24*3600` at the n-th reading of the clock, and the file is written with the
  -- reminder and the mail address of the command line.
  unfoldable pub write_entry : ℕ → Text → OldDb → M L.File OldDb
  unfolding write_dbfile expiration_after
  write_entry n dbfilename e = do
    let new : OldDb = record e { expiration = expiration_after h n v.duration }
    write_dbfile L h dbfilename new config.dbuid config.dbgid a.reminder a.mailaddress
    pure new

  -- The entry that is there, extended with -x.
  unfoldable pub use_entry : Text → M L.File OldDb
  unfolding read_dbfile write_entry text_eq
  use_entry dbfilename = do
    e ← read_dbfile L dbfilename
    if o.extension
        then (do
          fail_if
              (not (is_empty o.user)
                && not (text_eq o.user username)
                && not (h.uid == 0)
                && not (h.can_access e.wsdir))
              no_permission
          let extensions = if h.uid == 0 then e.extensions else e.extensions -ℤ pos 1
          fail_if (ltb_ℤ extensions (pos 0)) no_more_extensions
          write_entry 0 dbfilename (record e { extensions = extensions }))
        else pure e

  -- `fs::create_directories`, under the umask 0002; a directory that is there stays as it is.
  unfoldable pub made_dirs : Text → ℕ → ℕ → Dict Dir → Dict Dir
  unfolding lookup insert
  made_dirs wsdir euid egid dirs =
      if h.mkdir_ok wsdir && not (exists wsdir dirs)
      then insert wsdir (record { owner = euid; group = egid; mode = 0o775; files = [] }) dirs
      else dirs

  -- `chown` or `chmod` of the directory, with a capability around it.
  unfoldable pub change_with : Cap → Bool → (Dir → Dir) → Text → Error → M L.File (Unit {0})
  unfolding raise_cap lower_cap lookup insert
  change_with cap succeeds f wsdir e = do
    raise_cap h cap
    modify (λ w. record w {
      dirs = elim (lookup wsdir w.dirs) [
        | none ↦ w.dirs
        | some d ↦ if succeeds then insert wsdir (f d) w.dirs else w.dirs
      ];
    })
    lower_cap h cap config.dbuid
    fail_if (not succeeds) e

  -- A new workspace, in a space that is drawn, for which the clock is read; with no space that is a
  -- division by zero.
  unfoldable pub create : Text → M L.File OldDb
  unfolding raise_cap lower_cap made_dirs change_with write_entry join_path entry_name lookup
  create dbfilename = do
    spaces ← or_fail (bind (fs_config config v.filesystem) (λ c. c.spaces)) uncaught_exception
    space ← or_fail (get_elem? spaces (h.rand % length spaces)) undefined_behaviour
    let wsdir = join_path space (entry_name username a.name)
    raise_cap h cap_dac_override
    modify (λ w. record w { dirs = made_dirs wsdir w.euid w.egid w.dirs })
    lower_cap h cap_dac_override config.dbuid
    fail_if (not (h.mkdir_ok wsdir)) mkdir_failed
    change_with cap_chown (h.chown_ok wsdir) (λ d. record d { owner = h.uid; group = h.gid }) wsdir
        chown_failed
    change_with cap_dac_override (h.chmod_ok wsdir) (λ d. record d { mode = 0o700 }) wsdir
        chmod_failed
    write_entry 1 dbfilename (record {
      wsdir = wsdir;
      expiration = pos 0;
      extensions = v.maxextensions;
      acctcode = v.primarygroup;
    })

  -- The body of `main` behind the validation; with -x and -u the entry of that user must be there.
  unfoldable pub allocate : M L.File OldDb
  unfolding use_entry create entry_file
  allocate = do
    let other = o.extension && not (is_empty o.user)
    dbfilename ←
        or_fail (entry_file config v.filesystem (if other then o.user else username) a.name)
          uncaught_exception
    found ← gets (λ w. exists dbfilename w.db)
    fail_if (other && not found) ws_not_found
    if found then use_entry dbfilename else create dbfilename

-- `main`
unfoldable pub allocate_main :
    (L : Libs) → Host → Config → UserConfig → AllocateOptions → Text → M L.File OldDb
unfolding drop_cap raise_cap lower_cap validate allocate
allocate_main L h config userconfig o conf = do
  a ← of_result (allocate_commandline o conf)
  drop_cap h old_caps config.dbuid
  raise_cap h cap_dac_override
  lower_cap h cap_dac_override config.dbuid
  username ← or_fail (h.getpwuid h.uid) undefined_behaviour
  v ← validate h config userconfig username ws_allocate o.filesystem o.duration (pos 0)
  allocate L h config o a v username
