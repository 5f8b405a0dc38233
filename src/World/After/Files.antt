-- ===== src/World/After/Files.antt =====
-- The changes of privilege of src/ws.cpp and src/wsdb.cpp touch no file, whether they are granted
-- or refused, in both builds.
use hpc_workspace.Base.{ℕ, Bool-cases, inl, inr, true, false, ◌&&◌}
use hpc_workspace.Base.Dict.{Dict}
use hpc_workspace.World.{CapSet, Host, World, DbFile, Dir}
use hpc_workspace.World.After.{After, After-continue, After-branch, After-end}
use hpc_workspace.World.Caps.{
  Cap, subset, set_proc, drop_cap, raise_cap, lower_cap, become_db_user, become_root, seteuid,
  setegid, change_user, set_flag, no_caps,
}

-- A statement of the files alone.
abbrev pub Files : Type 0 → Type 1
Files F = Dict (DbFile F) → Dict Dir → Type 0

abbrev pub OnFiles : {F : Type 0} → Files F → World F → Type 0
OnFiles Q w = Q w.db w.dirs

module _ {F : Type 0} (Q : Files F) (h : Host) where
  abbrev P : World F → Type 0
  P = OnFiles Q

  pub After-seteuid : (u : ℕ) (w : World F) → P w → After P (seteuid h u w)
  After-seteuid u w q = elim (Bool-cases (h.seteuid_ok u)) [
    | inl granted ↦ record { holds = rw granted q }
    | inr refused ↦ record { holds = rw refused q }
  ]

  pub After-setegid : (g : ℕ) (w : World F) → P w → After P (setegid h g w)
  After-setegid g w q = elim (Bool-cases (h.setegid_ok g)) [
    | inl granted ↦ record { holds = rw granted q }
    | inr refused ↦ record { holds = rw refused q }
  ]

  After-set_proc : (p e : CapSet) (w : World F) → P w → After P (set_proc h p e w)
  After-set_proc p e w q = elim (Bool-cases (subset p w.permitted && subset e p)) [
    | inl granted ↦ record { holds = rw granted q }
    | inr refused ↦ record { holds = rw refused q }
  ]

  After-change_user : (u : ℕ) (w : World F) → P w → After P (change_user h u w)
  After-change_user u w q = record { holds = (After-seteuid u w q).holds }

  pub After-raise_cap : (c : Cap) (w : World F) → P w → After P (raise_cap h c w)
  unfolding raise_cap
  After-raise_cap c w q =
      After-branch P h.setuid_build _ _ w (After-change_user 0 w q)
        (After-set_proc w.permitted (set_flag c true w.effective) w q)

  pub After-lower_cap : (c : Cap) (dbuid : ℕ) (w : World F) → P w → After P (lower_cap h c dbuid w)
  unfolding lower_cap
  After-lower_cap c dbuid w q =
      After-branch P h.setuid_build _ _ w (After-change_user dbuid w q)
        (After-set_proc w.permitted (set_flag c false w.effective) w q)

  pub After-drop_cap :
      (caps : CapSet) (dbuid : ℕ) (w : World F) → P w → After P (drop_cap h caps dbuid w)
  unfolding drop_cap
  After-drop_cap caps dbuid w q =
      After-branch P h.setuid_build _ _ w (After-change_user dbuid w q)
        (After-set_proc caps no_caps w q)

  pub After-become_db_user :
      (dbuid dbgid : ℕ) (w : World F) → P w → After P (become_db_user h dbuid dbgid w)
  unfolding become_db_user
  After-become_db_user dbuid dbgid w q =
      After-branch P h.setuid_build _ _ w
        (search (After-continue P, After-end P, After-setegid, After-seteuid) depth 20)
        (After-end P _ w q)

  pub After-become_root : (w : World F) → P w → After P (become_root h w)
  unfolding become_root
  After-become_root w q =
      After-branch P h.setuid_build _ _ w
        (search (After-continue P, After-end P, After-setegid, After-seteuid) depth 20)
        (After-end P _ w q)
