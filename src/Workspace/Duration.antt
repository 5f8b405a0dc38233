-- ===== src/Workspace/Duration.antt =====
-- The time that `allocate` computes from a duration in days.
use hpc_workspace.Base.{ℕ, ◌+◌, ◌*◌, ◌≤◌, ◌<◌, ◌≡◌, ◌↔◌, arith, ap}
use hpc_workspace.Base.Int.{ℤ, pos, negsuc, IsInt, wrap32, wrap32_of_IsInt, ◌*ℤ◌, ◌+ℤ◌}
use hpc_workspace.World.{Host}
use hpc_workspace.Workspace.{duration_seconds, expiration_after}

wrap32-IsInt : (z : ℤ) → IsInt (wrap32 z)
unfolding wrap32
wrap32-IsInt z = ground arith

mul_pos : (n k : ℕ) → pos n *ℤ k ≡ pos (n * k)
unfolding ◌*ℤ◌
mul_pos n k = ground arith

pub duration_seconds-IsInt : (d : ℤ) → IsInt (duration_seconds d)
unfolding duration_seconds
duration_seconds-IsInt d = wrap32-IsInt (wrap32 (d *ℤ 24) *ℤ 3600)

seconds_of_small : (n : ℕ) → n ≤ 24855 → duration_seconds (pos n) ≡ pos (n * 86400)
unfolding duration_seconds
seconds_of_small n small =
    let days : wrap32 (pos (n * 24)) ≡ pos (n * 24) =
      wrap32_of_IsInt (pos (n * 24)) (omega arith, omega arith) in
    let seconds : wrap32 (pos (n * 24 * 3600)) ≡ pos (n * 24 * 3600) =
      wrap32_of_IsInt (pos (n * 24 * 3600)) (omega arith, omega arith) in
    rw (duration_seconds, mul_pos n 24, days, mul_pos (n * 24) 3600, seconds) (ap pos (omega arith))

add_pos : (t k : ℕ) → pos t +ℤ pos k ≡ pos (t + k)
unfolding ◌+ℤ◌
add_pos t k = ground arith

sum_of_int : (t k : ℕ) (d : ℤ) → IsInt d → pos t +ℤ d ≡ pos (t + k) → k < 2147483648
unfolding ◌+ℤ◌
sum_of_int t k (pos m) fits e = ground arith
sum_of_int t k (negsuc m) fits e = ground arith

-- The expiration of a duration of `n` days is the present time and `n` days exactly if `n` is at
-- most 24855: beyond that, `duration*24*3600` leaves the range of `int`.
pub expiration_after-exact :
    (h : Host) (k n : ℕ)
    → (expiration_after h k (pos n) ≡ pos (h.clock k + n * 86400)) ↔ (n ≤ 24855)
unfolding expiration_after
expiration_after-exact h k n = (
  λ e.
      let b =
        sum_of_int (h.clock k) (n * 86400) (duration_seconds (pos n))
          (duration_seconds-IsInt (pos n)) e in
      omega arith,
  λ small. rw (expiration_after, seconds_of_small n small) (add_pos (h.clock k) (n * 86400)),
)
