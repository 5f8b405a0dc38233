-- ===== src/World/Caps.antt =====
-- The privileges of src/ws.cpp: `drop_cap`, `raise_cap`, `lower_cap`, and the changes to the
-- database user in src/wsdb.cpp and src/ws.cpp. Without SETUID they move one capability in and out
-- of the effective set, and the kernel refuses a capability that is not permitted; with SETUID they
-- change the effective user.
pub mod Steps
use hpc_workspace.Base.{
  ◌==◌, ℕ, Bool, true, false, ◌&&◌, ◌||◌, not, ◌≡◌, refl, arith, if◌then◌else◌,
}
use hpc_workspace.Base.Dict.{Dict}
use hpc_workspace.World.{
  DbFile, Dir, CapSet, World, Host, M, Result, ok, err, cap_refused, seteuid_refused, pure, fail,
  fail_if, modify, ◌>>=◌, ◌>>◌,
}

pub data Cap : Type 0 where
  cap_chown cap_dac_override cap_dac_read_search cap_fowner : Cap

abbrev pub no_caps : CapSet
no_caps = record { chown = false; dac_override = false; dac_read_search = false; fowner = false }

abbrev pub has_cap : Cap → CapSet → Bool
has_cap cap_chown s = s.chown
has_cap cap_dac_override s = s.dac_override
has_cap cap_dac_read_search s = s.dac_read_search
has_cap cap_fowner s = s.fowner

-- `cap_set_flag` for one capability.
abbrev pub set_flag : Cap → Bool → CapSet → CapSet
set_flag cap_chown b s = record s { chown = b }
set_flag cap_dac_override b s = record s { dac_override = b }
set_flag cap_dac_read_search b s = record s { dac_read_search = b }
set_flag cap_fowner b s = record s { fowner = b }

abbrev pub subset : CapSet → CapSet → Bool
subset s t =
    (not s.chown || t.chown)
    && (not s.dac_override || t.dac_override)
    && (not s.dac_read_search || t.dac_read_search)
    && (not s.fowner || t.fowner)

-- The state between two operations of a tool: `caps` are permitted, and none is in effect.
abbrev pub idle : {F : Type 0} → CapSet → Dict (DbFile F) → Dict Dir → ℕ → ℕ → World F
idle caps db dirs euid egid = record {
  db = db;
  dirs = dirs;
  permitted = caps;
  effective = no_caps;
  euid = euid;
  egid = egid;
}

-- Whether a process may change the database, which belongs to the database user: with
-- CAP_DAC_OVERRIDE, as that user, or in the build with SETUID as root, where root is not squashed.
abbrev pub may_write : {F : Type 0} → Host → ℕ → World F → Bool
may_write h dbuid w =
    if h.setuid_build
    then w.euid == dbuid || w.euid == 0 && not h.root_squash
    else w.effective.dac_override || w.euid == dbuid

-- What the `main` of ws_allocate and of ws_release keep.
abbrev pub allocate_caps : CapSet
allocate_caps = record { chown = true; dac_override = true; dac_read_search = false; fowner = true }

-- What the `main` of ws_restore keeps.
abbrev pub restore_caps : CapSet
restore_caps = record { chown = false; dac_override = true; dac_read_search = true; fowner = false }

module _ {F : Type 0} (h : Host) where
  -- The system calls, with 0 as `true`.
  abbrev pub seteuid : ℕ → M F Bool
  seteuid u w = (ok (h.seteuid_ok u), if h.seteuid_ok u then record w { euid = u } else w)

  abbrev pub setegid : ℕ → M F Bool
  setegid g w = (ok (h.setegid_ok g), if h.setegid_ok g then record w { egid = g } else w)

  -- `if (seteuid(u)) exit(1)`
  abbrev pub change_user : ℕ → M F (Unit {0})
  change_user u = do changed ← seteuid u; fail_if (not changed) cap_refused

  -- `if (cap_set_proc(caps) == -1) exit(1)`
  abbrev pub set_proc : CapSet → CapSet → M F (Unit {0})
  set_proc permitted effective w =
      if subset permitted w.permitted && subset effective permitted
      then (ok tt, record w { permitted = permitted; effective = effective })
      else (err cap_refused, w)

  -- The three overloads of `drop_cap`, by the set of their arguments.
  unfoldable pub drop_cap : CapSet → ℕ → M F (Unit {0})
  drop_cap caps dbuid = if h.setuid_build then change_user dbuid else set_proc caps no_caps

  unfoldable pub raise_cap : Cap → M F (Unit {0})
  raise_cap c w =
      (if h.setuid_build then change_user 0 else set_proc w.permitted (set_flag c true w.effective))
        w

  unfoldable pub lower_cap : Cap → ℕ → M F (Unit {0})
  lower_cap c dbuid w =
      (if h.setuid_build
          then change_user dbuid
          else set_proc w.permitted (set_flag c false w.effective))
        w

  abbrev set_db_user : ℕ → ℕ → M F (Unit {0})
  set_db_user dbuid dbgid = do
    group_changed ← setegid dbgid
    fail_if (not group_changed) seteuid_refused
    changed ← seteuid dbuid
    fail_if (not changed) seteuid_refused

  -- `#ifdef SETUID`: `if (setegid(dbgid) || seteuid(dbuid)) exit(-1)`.
  unfoldable pub become_db_user : ℕ → ℕ → M F (Unit {0})
  become_db_user dbuid dbgid = if h.setuid_build then set_db_user dbuid dbgid else pure tt

  abbrev set_root : M F (Unit {0})
  set_root = do
    changed ← seteuid 0
    fail_if (not changed) seteuid_refused
    group_changed ← setegid 0
    fail_if (not group_changed) seteuid_refused

  -- `#ifdef SETUID`: `if (seteuid(0) || setegid(0)) exit(-1)`.
  unfoldable pub become_root : M F (Unit {0})
  become_root = if h.setuid_build then set_root else pure tt
