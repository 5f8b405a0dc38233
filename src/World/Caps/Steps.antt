-- ===== src/World/Caps/Steps.antt =====
-- The two builds, as hosts at which the changes of privilege compute.
use hpc_workspace.Base.{◌≡◌, true, false}
use hpc_workspace.World.{Host}
use mathlib.Core.Path.{subst⁻¹}

-- Built with capabilities.
abbrev pub caps_host : Host → Host
caps_host h = record h { setuid_build = false }

-- Built with SETUID, and every change between root and the database user is granted.
abbrev pub setuid_host : Host → Host
setuid_host h = record h { setuid_build = true; seteuid_ok = λ u. true; setegid_ok = λ g. true }

module _ (P : Host → Type 0) (h : Host) where
  -- To prove a statement of a host, prove it of the host at which the privileges compute.
  pub by_cap : h.setuid_build ≡ false → P (caps_host h) → P h
  by_cap build p = subst⁻¹ P (λ i. record h { setuid_build = build i }) p
