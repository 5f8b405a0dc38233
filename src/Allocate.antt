-- ===== src/Allocate.antt =====
-- `Workspace::allocate` of src/ws.cpp, as built without LUACALLOUTS (the prefix is empty): search
-- the filesystems for an entry, reuse or extend it, or create a workspace.
pub mod Choice
pub mod Space
pub mod Search
pub mod Create
pub mod Twice
pub mod Extend
pub mod Paid
pub mod Quota
pub mod After
use hpc_workspace.Base.{
  ℕ, ◌+◌, ◌%◌, Bool, true, false, ◌&&◌, ◌||◌, not, Option, none, some, List, [], ◌∷◌,
}
use hpc_workspace.Base.{length, get_elem?, default_to, ltb, ◌==◌, if◌then◌else◌}
use hpc_workspace.Base.Int.{ℤ, pos, negsuc, eqb_ℤ}
use hpc_workspace.Base.Text.{Text, text_eq, codes, contains, is_empty}
use hpc_workspace.Base.Dict.{Dict, lookup, insert, erase}
use hpc_workspace.World.{
  Host, Libs, World, Dir, M, Result, ok, err, Error, uncaught_exception, undefined_behaviour,
  ws_not_found, not_extendable, no_permission, not_allocatable, mkdir_failed, chown_failed,
  chmod_failed, pure, fail, or_fail, fail_if, gets, modify, when, ◌>>=◌, ◌>>◌,
}
use hpc_workspace.World.Caps.{Cap, cap_chown, cap_dac_override, cap_fowner, raise_cap, lower_cap}
use hpc_workspace.Config.{Config, bind, fs_config, config_duration}
use hpc_workspace.Names.{entry_name, join_path}
use hpc_workspace.Access.{get_valid_fslist, clamp_duration}
use hpc_workspace.Db.{WsDb, open_entry, create_entry, use_extension}
use hpc_workspace.Workspace.{Workspace, entry_file, exists, expiration_after}
use hpc_workspace.Allocate.Choice.{swap_front, select_space, dir_mode}

-- The arguments of `allocate`.
pub record Request : Type 0 where
  pub name : Text
  pub extensionflag : Bool
  pub reminder : ℤ
  pub mailaddress : Text
  pub user_option : Text
  pub groupname : Text
  pub comment : Text

-- What is printed at the end: the directory, and the remaining extensions, and the expiration of
-- which the remaining days are counted.
pub record Allocated : Type 0 where
  pub wsdir : Text
  pub extension : ℤ
  pub expiration : ℤ

module _ (L : Libs) (h : Host) (s : Workspace) (r : Request) where
  -- `user_option.length()>0`
  abbrev pub has_user : Bool
  has_user = not (is_empty r.user_option)

  -- The user in the entry's name.
  unfoldable pub entry_user : Text
  entry_user =
      if r.extensionflag && has_user
      then r.user_option
      else if has_user && h.uid == 0
      then r.user_option
      else s.username

  -- The user in the directory's name.
  unfoldable pub dir_user : Text
  unfolding text_eq
  dir_user =
      if has_user && not (text_eq r.user_option s.username) && not (h.uid == 0)
      then s.username
      else if has_user && h.uid == 0
      then r.user_option
      else s.username

  -- The filesystems that are searched.
  unfoldable pub search_list : M L.File (List Text)
  unfolding swap_front
  search_list = elim s.opt.filesystem [
    | some fs ↦ pure (fs ∷ [])
    | none ↦ get_valid_fslist h s.config s.userconfig s.username >>= λ list.
        pure (swap_front s.filesystem list)
  ]

  -- The new expiration of an extension, and -1 without a duration.
  unfoldable pub new_expiration : Text → M L.File ℤ
  unfolding config_duration clamp_duration expiration_after
  new_expiration fs =
      if eqb_ℤ s.duration (pos 0)
      then pure (negsuc 0)
      else or_fail (config_duration s.config s.userconfig fs s.username) uncaught_exception
        >>= λ limit. pure (
            expiration_after h 0
              (clamp_duration h s.config s.userconfig s.username limit s.duration))

  -- An existing workspace with -x.
  unfoldable pub extend_entry : Text → WsDb → M L.File Allocated
  unfolding new_expiration text_eq
  extend_entry fs dbentry = do
    fail_if (not (default_to true (bind (fs_config s.config fs) (λ c. c.extendable))))
        not_extendable
    fail_if
        (has_user
          && not (text_eq r.user_option s.username)
          && not (h.uid == 0)
          && not (h.can_access dbentry.wsdir))
        no_permission
    expiration ← new_expiration fs
    e ←
        use_extension L h dbentry expiration
          (if is_empty r.mailaddress then dbentry.mailaddress else r.mailaddress) r.reminder
          r.comment
    pure (record {
      wsdir = dbentry.wsdir;
      extension = e.extensions;
      expiration = if eqb_ℤ s.duration (pos 0) then dbentry.expiration else expiration;
    })

  -- An existing workspace.
  unfoldable pub use_entry : Text → Text → M L.File Allocated
  unfolding extend_entry
  use_entry fs dbfilename = do
    dbentry ← open_entry L dbfilename s.config.dbuid s.config.dbgid
    if r.extensionflag
        then extend_entry fs dbentry
        else pure (record {
          wsdir = dbentry.wsdir;
          extension = dbentry.extensions;
          expiration = dbentry.expiration;
        })

  -- The body of the loop over the search list, with the rest of the loop.
  unfoldable pub search_in : Text → M L.File (Option Allocated) → M L.File (Option Allocated)
  unfolding use_entry entry_user entry_file
  search_in fs more = do
    dbfilename ← or_fail (entry_file s.config fs entry_user r.name) uncaught_exception
    found ← gets (λ w. exists dbfilename w.db)
    fail_if (not found && (r.extensionflag && has_user)) ws_not_found
    if found then (use_entry fs dbfilename >>= λ a. pure (some a)) else more

  -- The loop; `none` if no filesystem has the entry.
  unfoldable pub search : List Text → M L.File (Option Allocated)
  unfolding search_in
  search [] = pure none
  search (fs ∷ rest) = let more = search rest in search_in fs more

  -- `fs::create_directories`, under the umask 077. A directory that is there stays as it is.
  unfoldable pub made_dirs : Text → ℕ → ℕ → Dict Dir → Dict Dir
  unfolding lookup insert
  made_dirs wsdir euid egid dirs =
      if h.mkdir_ok wsdir && not (exists wsdir dirs)
      then insert wsdir (record { owner = euid; group = egid; mode = 0o700; files = [] }) dirs
      else dirs

  unfoldable pub make_directory : Text → M L.File (Unit {0})
  unfolding raise_cap lower_cap made_dirs
  make_directory wsdir = do
    raise_cap h cap_dac_override
    modify (λ w. record w { dirs = made_dirs wsdir w.euid w.egid w.dirs })
    lower_cap h cap_dac_override s.config.dbuid
    fail_if (not (h.mkdir_ok wsdir)) mkdir_failed

  -- Changes a directory, if it is there and the call succeeds.
  unfoldable pub changed_dirs : Bool → (Dir → Dir) → Text → Dict Dir → Dict Dir
  unfolding lookup insert
  changed_dirs succeeds f p dirs = elim (lookup p dirs) [
    | none ↦ dirs
    | some d ↦ if succeeds then insert p (f d) dirs else dirs
  ]

  -- `unlink(wsdir)`, whose answer is not looked at.
  abbrev pub unlinked : Text → Dict Dir → Dict Dir
  unlinked wsdir dirs = if h.unlink_ok wsdir then erase wsdir dirs else dirs

  -- `chown` or `chmod` of the directory, with a capability around it. On a failure: `unlink`, and
  -- `exit`.
  unfoldable pub change_with : Cap → Bool → (Dir → Dir) → Text → Error → M L.File (Unit {0})
  unfolding raise_cap lower_cap changed_dirs
  change_with cap succeeds f wsdir e = do
    raise_cap h cap
    modify (λ w. record w { dirs = changed_dirs succeeds f wsdir w.dirs })
    lower_cap h cap s.config.dbuid
    modify (λ w. record w { dirs = if succeeds then w.dirs else unlinked wsdir w.dirs })
    fail_if (not succeeds) e

  -- `tuid` and `tgid`: the caller, or the user that root names, and the group of -G.
  unfoldable pub target_ids : M L.File (ℕ × ℕ)
  target_ids =
      (if has_user
        then or_fail (h.getpwnam r.user_option) undefined_behaviour
        else pure (h.uid, h.gid))
      >>= λ ids.
          pure (
            ids.0,
            if is_empty r.groupname then ids.1 else default_to ids.1 (h.getgrnam r.groupname),
          )

  -- `primarygroup` of the new entry.
  unfoldable pub entry_group : M L.File Text
  entry_group =
      (if s.opt.group
        then (gets (λ w. w.egid) >>= λ egid. or_fail (h.getgrgid egid) undefined_behaviour)
        else pure [])
      >>= λ group. pure (if is_empty r.groupname then group else r.groupname)

  -- The directory, its owner and its permissions.
  unfoldable pub create_directory : Text → M L.File (Unit {0})
  create_directory wsdir = do
    make_directory wsdir
    ids ← target_ids
    change_with cap_chown (h.chown_ok wsdir) (λ d. record d { owner = ids.0; group = ids.1 }) wsdir
        chown_failed
    change_with cap_fowner (h.chmod_ok wsdir)
        (λ d. record d { mode = dir_mode s.opt.group r.groupname }) wsdir chmod_failed

  -- The database entry of the new workspace.
  abbrev pub new_entry : Text → Text → Text → WsDb
  new_entry dbfilename wsdir group = record {
    dbfilename = dbfilename;
    wsdir = wsdir;
    expiration = expiration_after h 0 s.duration;
    extensions = s.maxextensions;
    acctcode = s.acctcode;
    dbuid = s.config.dbuid;
    dbgid = s.config.dbgid;
    reminder = r.reminder;
    mailaddress = r.mailaddress;
    group = group;
    comment = r.comment;
    released = pos 0;
  }

  -- The directory for the new workspace, in the space that is selected.
  unfoldable pub choose_wsdir : M L.File Text
  unfolding select_space dir_user lookup join_path entry_name
  choose_wsdir = do
    spaces ← or_fail (bind (fs_config s.config s.filesystem) (λ c. c.spaces)) uncaught_exception
    spaceid ←
        or_fail
          (select_space h (bind (fs_config s.config s.filesystem) (λ c. c.spaceselection)) spaces)
          undefined_behaviour
    space ← or_fail (get_elem? spaces spaceid) undefined_behaviour
    pure (join_path space (entry_name dir_user r.name))

  -- No filesystem has the entry. With -x that is an error, unless the entry is in a filesystem that
  -- was not searched.
  unfoldable pub create : M L.File Allocated
  create = do
    dbfilename ← or_fail (entry_file s.config s.filesystem entry_user r.name) uncaught_exception
    found ← gets (λ w. exists dbfilename w.db)
    fail_if (r.extensionflag && not found) ws_not_found
    fail_if (not (default_to true (bind (fs_config s.config s.filesystem) (λ c. c.allocatable))))
        not_allocatable
    wsdir ← choose_wsdir
    create_directory wsdir
    group ← entry_group
    e ← create_entry L h (new_entry dbfilename wsdir group)
    pure (record { wsdir = wsdir; extension = e.extensions; expiration = e.expiration })

  -- `Workspace::allocate`
  unfoldable pub allocate : M L.File Allocated
  allocate = search_list >>= λ list.
      search list >>= λ found. elim found [ some a ↦ pure a | none ↦ create ]
