-- ===== src/Db/Extension.antt =====
-- How `use_extension` (src/wsdb.cpp) counts extensions.
use hpc_workspace.Base.{◌≡◌, ◌≢◌, arith, not, ◌&&◌, ◌==◌, if◌then◌else◌}
use hpc_workspace.Base.Int.{ℤ, pos, negsuc, ◌≤ℤ◌, ◌<ℤ◌, ◌-ℤ◌, ltb_ℤ, eqb_ℤ, eq_of_parts}
use hpc_workspace.Base.Text.{Text}
use hpc_workspace.World.{Host, Libs, World, ok, err, no_more_extensions}
use hpc_workspace.Db.{WsDb, use_extension, consumes}

module _ (L : Libs) (h : Host) (e : WsDb) (expiration : ℤ) (mail : Text) (reminder : ℤ)
    (comment : Text) where
  -- A call that succeeds pays one extension exactly if the caller is not root, an expiration is
  -- given (-1 stands for none) and it is later than the old one. But for root, what is left is not
  -- below zero.
  pub use_extension-counts :
      (w : World L.File) {e' : WsDb}
      → (use_extension L h e expiration mail reminder comment w).0 ≡ ok e'
      → (e'.extensions ≡ (
          if not (h.uid == 0) && not (eqb_ℤ expiration (negsuc 0)) && ltb_ℤ e.expiration expiration
          then e.extensions -ℤ pos 1
          else e.extensions))
        × (h.uid ≢ 0 → pos 0 ≤ℤ e'.extensions)
  unfolding use_extension consumes
  use_extension-counts w q = (ground arith, λ user. ground arith)

  -- A user whose extensions are used up is refused a later expiration, and nothing is written.
  pub use_extension-refuses :
      (w : World L.File)
      → h.uid ≢ 0
      → e.extensions ≤ℤ pos 0
      → expiration ≢ negsuc 0
      → e.expiration <ℤ expiration
      → use_extension L h e expiration mail reminder comment w ≡ (err no_more_extensions, w)
  unfolding use_extension consumes ◌-ℤ◌
  use_extension-refuses w user empty given later = ground (arith, eq_of_parts expiration (negsuc 0))
