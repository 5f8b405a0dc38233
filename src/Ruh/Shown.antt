-- ===== src/Ruh/Shown.antt =====
-- What the word looks like on the screen.
use hpc_workspace.Base.{ℕ, zero, suc, ◌+◌, ◌%◌, ◌<◌, ◌≡◌, refl, ◌∙◌, Bool, true, false}
use hpc_workspace.Base.{some, List, [], ◌∷◌, ◌++◌, arith, ◌==◌, ◌≤◌, length, get_elem?}
use hpc_workspace.Base.Text.{Text, text_eq}
use mathlib.Core.List.{append-nil}
use hpc_workspace.Ruh.{
  syllable, syllablesize, concat, draw, print, scheme1, scheme2, show_word, ruh,
}
use hpc_workspace.Ruh.Screen.{
  Output, line, right, left, repstr, blanks, onto, play, play-append, play-put_end, play-put_over,
  play-right_over, play-right_end, play-left_over, length-blanks,
}

onto-append : (s t b : Text) → onto (s ++ t) b ≡ onto t (onto s b)
onto-append [] t b = refl
onto-append (c ∷ s) t b = onto-append s t (c ∷ b)

length-append : (s t : Text) → length (s ++ t) ≡ length s + length t
length-append [] t = omega arith
length-append (x ∷ s) t = omega (arith, length-append s t)

-- Back over blanks and a word behind them.
play-back :
    (n : ℕ) (s b : Text)
    → play (repstr left (n + length s)) (line (onto s (onto (blanks n) b)) [])
      ≡ line b (blanks n ++ s)
play-back n s b =
    let e : n + length s ≡ length (blanks n ++ s) =
      omega (arith, length-append (blanks n) s, length-blanks n) in
    rw (e, ← onto-append (blanks n) s b) (play-left_over (blanks n ++ s) b [] ∙ rw append-nil)

-- The word written over the blanks.
play-fill : (w s b : Text) → play (print w) (line b (blanks (length w) ++ s)) ≡ line (onto w b) s
play-fill w s b = play-put_over w (blanks (length w)) b s (length-blanks (length w))

play-skip : (s b : Text) → play (repstr right (length s)) (line b s) ≡ line (onto s b) []
play-skip s b = rw (append-nil s) at (play-right_over s b [])

ruleset moves = (play-append, play-put_end, play-right_end, play-back, play-fill, play-skip)

scheme1-play :
    (w0 w1 w2 : Text) (rest : List Text) (b : Text)
    → play (scheme1 w0 w1 w2 rest) (line b [])
      ≡ line (onto (w0 ++ (w1 ++ (w2 ++ concat rest))) b) []
unfolding scheme1
scheme1-play w0 w1 w2 rest b = simp (moves, onto-append)

scheme2-play :
    (w0 w1 : Text) (rest : List Text) (b : Text)
    → play (scheme2 w0 w1 rest) (line b []) ≡ line (onto (w0 ++ (w1 ++ concat rest)) b) []
unfolding scheme2
scheme2-play w0 w1 rest b = simp (moves, onto-append)

get_elem?_of_lt : (l : List Text) (i : ℕ) → i < length l → (s : Text) × (get_elem? l i ≡ some s)
get_elem?_of_lt [] i h = absurd (omega arith)
get_elem?_of_lt (x ∷ l) zero h = (x, refl)
get_elem?_of_lt (x ∷ l) (suc i) h = get_elem?_of_lt l i (omega arith)

-- The drawing loop stays within the table, and yields as many syllables as asked for.
draw_total :
    (rand : ℕ → ℕ) (i n : ℕ) → (ws : List Text) × (draw rand i n ≡ some ws) × (length ws ≡ n)
unfolding draw
draw_total rand i zero = ([], refl, refl)
draw_total rand i (suc n) =
    let (s, e) = get_elem?_of_lt syllable (rand i % syllablesize) (omega arith) in
    let (ws, d, l) = draw_total rand (i + 1) n in (s ∷ ws, rw (e, d, draw), omega (arith, l))

show_word_total :
    (first : Bool) (ws : List Text) (b : Text)
    → 3 ≤ length ws
    → (out : List Output) × (show_word first ws ≡ some out)
      × (play out (line b []) ≡ line (onto (concat ws) b) [])
unfolding show_word
show_word_total first [] b h = absurd (omega arith)
show_word_total first (w0 ∷ []) b h = absurd (omega arith)
show_word_total first (w0 ∷ w1 ∷ []) b h = absurd (omega arith)
show_word_total true (w0 ∷ w1 ∷ w2 ∷ ws) b h = (_, refl, scheme1-play w0 w1 w2 ws b)
show_word_total false (w0 ∷ w1 ∷ w2 ∷ ws) b h = (_, refl, scheme2-play w0 w1 (w2 ∷ ws) b)

-- Whatever numbers are drawn, no access leaves the table or the word, the terminal shows one word
-- behind what stood on the line, and the line that is typed is accepted exactly if it is that word.
pub ruh-shows :
    (rand : ℕ → ℕ) (b : Text)
    → (out : List Output) × (word : Text) × ((typed : Text)
        → ruh rand typed ≡ some (out, text_eq typed word))
      × (play out (line b []) ≡ line (onto word b) [])
unfolding ruh
ruh-shows rand b =
    let (ws, d, l) = draw_total rand 1 (3 + rand 0 % 5) in
    let (out, s, p) =
      show_word_total (rand (1 + (3 + rand 0 % 5)) % 2 == 1) ws b (omega (arith, l)) in
    (out, concat ws, λ typed. rw (d, s, ruh), p)
