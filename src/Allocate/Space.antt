-- ===== src/Allocate/Space.antt =====
-- The order of the search, and the space that a new workspace is put into.
use mathlib.Core.List.{Perm}
use mathlib.Core.List.Perm
use native.Mathlib.Nat.{mod-lt}
use hpc_workspace.Base.{
  ℕ, zero, suc, ◌+◌, ◌≤◌, ◌<◌, ◌≡◌, ◌⊎◌, inl, inr, refl, Bool, true, false, some, List, [], ◌∷◌,
}
use hpc_workspace.Base.{arith, All, length, get_elem?, Option, if◌then◌else◌, ltb, Bool-cases}
use hpc_workspace.Base.Text.{Text, text_eq, text_eq_iff, text_eq→eq, contains, codes}
use hpc_workspace.World.{Host}
use hpc_workspace.Allocate.Choice.{replace_first, swap_front, most_space, select_space}

replace_first-perm :
    (fs x : Text) (xs : List Text)
    → contains xs fs ≡ true
    → Perm (fs ∷ replace_first fs x xs) (x ∷ xs)
unfolding contains
replace_first-perm fs x [] h = absurd (ground arith)
replace_first-perm fs x (y ∷ ys) h = elim (Bool-cases (text_eq y fs)) [
  | inl same ↦ rw (same, replace_first) (rw (text_eq→eq y fs same) (Perm.swap _ _ _))
  | inr other ↦
      rw (other, replace_first)
        (Perm.trans (Perm.swap _ _ _)
          (Perm.trans (Perm.cons y (replace_first-perm fs x ys (ground arith))) (Perm.swap _ _ _)))
]

-- Moving the default filesystem to the front loses and doubles no filesystem.
pub swap_front-perm : (fs : Text) (xs : List Text) → Perm (swap_front fs xs) xs
unfolding swap_front
swap_front-perm fs [] = Perm.refl []
swap_front-perm fs (x ∷ xs) = elim (Bool-cases (text_eq x fs)) [
  | inl same ↦ rw (same, swap_front) (Perm.refl (x ∷ xs))
  | inr other ↦ elim (Bool-cases (contains xs fs)) [
    | inl listed ↦ rw (other, listed, swap_front) (replace_first-perm fs x xs listed)
    | inr absent ↦ rw (other, absent, swap_front) (Perm.refl (x ∷ xs))
  ]
]

-- If the default filesystem is among those that the user may use, it is searched first.
pub swap_front-head :
    (fs : Text) (xs : List Text)
    → contains xs fs ≡ true
    → (rest : List Text) × (swap_front fs xs ≡ fs ∷ rest)
unfolding swap_front
swap_front-head fs [] h = absurd (ground arith)
swap_front-head fs (x ∷ xs) h = elim (Bool-cases (text_eq x fs)) [
  | inl same ↦ (xs, rw (same, swap_front) (ground (arith, text_eq_iff x fs)))
  | inr other ↦ (replace_first fs x xs, ground arith)
]

module _ (f : Text → ℕ) where
  -- What the loop has found: the space it had before, if none has more, or one of the list that
  -- has the most.
  abbrev Best : ℕ → ℕ → ℕ → List Text → ℕ → Type 0
  Best i spaceid max ss r =
      ((r ≡ spaceid) × All (λ t. f t ≤ max) ss)
      ⊎ ((k : ℕ) × (s : Text) × (r ≡ i + k)
          × (get_elem? ss k ≡ some s)
          × (max < f s)
          × All (λ t. f t ≤ f s) ss)

  All-mono : (a b : ℕ) (ss : List Text) → a ≤ b → All (λ t. f t ≤ a) ss → All (λ t. f t ≤ b) ss
  All-mono a b [] h all = tt
  All-mono a b (s ∷ ss) h all = (omega arith, All-mono a b ss h all.1)

  Best-cons_more :
      (i spaceid max r : ℕ) (s : Text) (ss : List Text)
      → max < f s
      → Best (i + 1) i (f s) ss r
      → Best i spaceid max (s ∷ ss) r
  Best-cons_more i spaceid max r s ss m (inl (e, all)) =
      inr (0, s, omega arith, refl, m, (omega arith, all))
  Best-cons_more i spaceid max r s ss m (inr (k, t, e, g, n, all)) =
      inr (suc k, t, omega arith, g, omega arith, (omega arith, all))

  Best-cons_less :
      (i spaceid max r : ℕ) (s : Text) (ss : List Text)
      → f s ≤ max
      → Best (i + 1) spaceid max ss r
      → Best i spaceid max (s ∷ ss) r
  Best-cons_less i spaceid max r s ss m (inl (e, all)) = inl (e, (m, all))
  Best-cons_less i spaceid max r s ss m (inr (k, t, e, g, n, all)) =
      inr (suc k, t, omega arith, g, n, (omega arith, all))

  most_space-Best :
      (i spaceid max : ℕ) (ss : List Text) → Best i spaceid max ss (most_space f i spaceid max ss)
  unfolding most_space
  most_space-Best i spaceid max [] = inl (refl, tt)
  most_space-Best i spaceid max (s ∷ ss) = elim (Bool-cases (ltb max (f s))) [
    | inl more ↦
        rw (more, most_space)
          (Best-cons_more i spaceid max _ s ss (ground arith) (most_space-Best (i + 1) i (f s) ss))
    | inr less ↦
        rw (less, most_space)
          (Best-cons_less i spaceid max _ s ss (ground arith)
            (most_space-Best (i + 1) spaceid max ss))
  ]

  Best-chosen :
      (s : Text) (spaces : List Text) (r : ℕ)
      → Best 0 0 0 (s ∷ spaces) r
      → (t : Text) × (get_elem? (s ∷ spaces) r ≡ some t) × All (λ u. f u ≤ f t) (s ∷ spaces)
  Best-chosen s spaces r (inl (e, all)) = (s, rw e, All-mono 0 (f s) (s ∷ spaces) (omega arith) all)
  Best-chosen s spaces r (inr (k, t, e, g, n, all)) =
      (t, (let q : r ≡ k = omega arith in rw q g), all)

-- With `mostspace` the selected space exists, and no configured space has more free bytes.
pub select_space-most :
    (h : Host) (s : Text) (spaces : List Text)
    → (i : ℕ) × (t : Text) × (select_space h (some (codes "mostspace")) (s ∷ spaces) ≡ some i)
      × (get_elem? (s ∷ spaces) i ≡ some t)
      × All (λ u. h.free_bytes u ≤ h.free_bytes t) (s ∷ spaces)
unfolding select_space
select_space-most h s spaces =
    let (t, found, most) =
      Best-chosen h.free_bytes s spaces _ (most_space-Best h.free_bytes 0 0 0 (s ∷ spaces)) in
    (most_space h.free_bytes 0 0 0 (s ∷ spaces), t, refl, found, most)

get_elem?-lt : (l : List Text) (i : ℕ) (t : Text) → get_elem? l i ≡ some t → i < length l
get_elem?-lt [] i t h = absurd (cc)
get_elem?-lt (x ∷ l) zero t h = omega arith
get_elem?-lt (x ∷ l) (suc i) t h = omega (arith, get_elem?-lt l i t h)

if_lt : (b : Bool) (x y n : ℕ) → x < n → y < n → (if b then x else y) < n
if_lt true x y n p q = p
if_lt false x y n p q = q

-- Whatever the configuration selects by, the selected index is that of a configured space, as long
-- as there is one.
pub select_space_total :
    (h : Host) (selection : Option Text) (s : Text) (spaces : List Text)
    → (i : ℕ) × (select_space h selection (s ∷ spaces) ≡ some i) × (i < length (s ∷ spaces))
unfolding select_space
select_space_total h selection s spaces =
    let (t, found, most) =
      Best-chosen h.free_bytes s spaces _ (most_space-Best h.free_bytes 0 0 0 (s ∷ spaces)) in
    let n = length (s ∷ spaces) in
    (
      _,
      refl,
      if_lt _ _ _ n (mod-lt h.uid {m = n} (omega arith)) (
          if_lt _ _ _ n (mod-lt h.gid {m = n} (omega arith)) (
            if_lt _ _ _ n (get_elem?-lt (s ∷ spaces) _ t found)
              (mod-lt h.rand {m = n} (omega arith)))),
    )
