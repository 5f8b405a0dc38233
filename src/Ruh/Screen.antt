-- ===== src/Ruh/Screen.antt =====
-- The line that the terminal shows, and what the output does to it. This is an account of the
-- terminal, not of the program.
use native.Mathlib.Nat.{zero-add, suc-add}
use hpc_workspace.Base.{arith, ℕ, zero, suc, ◌+◌, List, [], ◌∷◌, ◌++◌, ◌≡◌, refl, ◌∙◌, length, map}
use hpc_workspace.Base.Text.{Text}

-- A character, or the capability `cuf1` or `cub1`.
pub data Output : Type 0 where
  put : ℕ → Output
  right left : Output

-- The cells before the cursor, the nearest first, and the cells from the cursor on.
pub data Line : Type 0 where
  line : Text → Text → Line

-- A character overwrites the cell at the cursor; a move changes no cell.
unfoldable pub step : Output → Line → Line
step (put c) (line b []) = line (c ∷ b) []
step (put c) (line b (x ∷ a)) = line (c ∷ b) a
step right (line b []) = line (b' ' ∷ b) []
step right (line b (x ∷ a)) = line (x ∷ b) a
step left (line [] a) = line [] a
step left (line (x ∷ b) a) = line b (x ∷ a)

unfoldable pub play : List Output → Line → Line
play [] l = l
play (o ∷ os) l = play os (step o l)

-- The cells of `s`, put down one after the other before the cursor.
abbrev pub onto : Text → Text → Text
onto [] b = b
onto (c ∷ s) b = onto s (c ∷ b)

pub play-append : (p q : List Output) (l : Line) → play (p ++ q) l ≡ play q (play p l)
unfolding play
play-append [] q l = refl
play-append (o ∷ p) q l = play-append p q (step o l)

-- `repstr` prints a capability `n` times.
abbrev pub repstr : Output → ℕ → List Output
repstr o zero = []
repstr o (suc n) = o ∷ repstr o n

abbrev pub blanks : ℕ → Text
blanks zero = []
blanks (suc n) = b' ' ∷ blanks n

pub play-put_end : (s b : Text) → play (map put s) (line b []) ≡ line (onto s b) []
unfolding play step
play-put_end [] b = refl
play-put_end (c ∷ s) b = play-put_end s (c ∷ b)

-- Characters over as many cells of `t`.
pub play-put_over :
    (s t b a : Text) → length t ≡ length s → play (map put s) (line b (t ++ a)) ≡ line (onto s b) a
unfolding play step
play-put_over [] [] b a h = refl
play-put_over [] (x ∷ t) b a h = absurd (omega arith)
play-put_over (c ∷ s) [] b a h = absurd (omega arith)
play-put_over (c ∷ s) (x ∷ t) b a h = play-put_over s t (c ∷ b) a (omega arith)

pub play-right_over :
    (s b a : Text) → play (repstr right (length s)) (line b (s ++ a)) ≡ line (onto s b) a
unfolding play step
play-right_over [] b a = refl
play-right_over (x ∷ s) b a = play-right_over s (x ∷ b) a

pub play-right_end :
    (n : ℕ) (b : Text) → play (repstr right n) (line b []) ≡ line (onto (blanks n) b) []
unfolding play step
play-right_end zero b = refl
play-right_end (suc n) b = play-right_end n (b' ' ∷ b)

left_last :
    (n : ℕ) (l : Line) → play (repstr left n) (step left l) ≡ step left (play (repstr left n) l)
unfolding play
left_last zero l = refl
left_last (suc n) l = left_last n (step left l)

pub play-left_over :
    (s b a : Text) → play (repstr left (length s)) (line (onto s b) a) ≡ line b (s ++ a)
unfolding play
play-left_over [] b a = refl
play-left_over (x ∷ s) b a =
    left_last (length s) (line (onto s (x ∷ b)) a)
    ∙ rw (play-left_over s (x ∷ b) a) (unfold step in refl)

pub length-blanks : (n : ℕ) → length (blanks n) ≡ n
length-blanks zero = refl
length-blanks (suc n) = omega (arith, length-blanks n)

-- A move back over two stretches is one move.
pub play-left_add :
    (m n : ℕ) (l : Line)
    → play (repstr left (m + n)) l ≡ play (repstr left n) (play (repstr left m) l)
unfolding play
play-left_add zero n l = rw zero-add
play-left_add (suc m) n l = rw suc-add (play-left_add m n (step left l))
