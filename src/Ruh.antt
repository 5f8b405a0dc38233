-- ===== src/Ruh.antt =====
-- src/ruh.cpp, the test "are you human" that stands before a restore. The word is drawn from a
-- table of syllables and printed out of order, with moves of the cursor. What the terminal shows is
-- described by a line of cells with a cursor, for which `cub1` and `cuf1` move by one cell.
pub mod Screen
pub mod Shown
use hpc_workspace.Base.{
  ℕ, zero, suc, ◌+◌, ◌%◌, Bool, true, false, Option, none, some, List, [], ◌∷◌, ◌++◌,
}
use hpc_workspace.Base.{map, length, get_elem?, ◌==◌}
use hpc_workspace.Base.Text.{Text, codes, text_eq}
use hpc_workspace.Ruh.Screen.{Output, put, right, left, repstr}

-- `syllable[]`, without the closing NULL.
abbrev pub syllable : List Text
syllable = map codes (
    "a" ∷ "i" ∷ "u" ∷ "e" ∷ "o" ∷ "ka" ∷ "ki" ∷ "ku" ∷ "ke" ∷ "ko" ∷ "sa" ∷ "shi" ∷ "su" ∷ "se"
    ∷ "so" ∷ "ta" ∷ "chi" ∷ "tsu" ∷ "te" ∷ "to" ∷ "na" ∷ "ni" ∷ "nu" ∷ "ne" ∷ "no" ∷ "ha" ∷ "hi"
    ∷ "fu" ∷ "he" ∷ "ho" ∷ "ma" ∷ "mi" ∷ "mu" ∷ "me" ∷ "mo" ∷ "ya" ∷ "yu" ∷ "yo" ∷ "ra" ∷ "ri"
    ∷ "ru" ∷ "re" ∷ "ro" ∷ "wa" ∷ "wi" ∷ "we" ∷ "wo" ∷ "n" ∷ [])

abbrev pub syllablesize : ℕ
syllablesize = 48

-- The characters of the syllables, one after the other: `word_as_string`.
abbrev pub concat : List Text → Text
concat [] = []
concat (w ∷ ws) = w ++ concat ws

-- The drawing loop: syllable `i` is number `rand() % syllablesize`. An index past the table is
-- `none`.
unfoldable pub draw : (ℕ → ℕ) → ℕ → ℕ → Option (List Text)
draw rand i zero = some []
draw rand i (suc n) = elim (get_elem? syllable (rand i % syllablesize)) [
  | none ↦ none
  | some s ↦ elim (draw rand (i + 1) n) [ none ↦ none | some ws ↦ some (s ∷ ws) ]
]

abbrev pub print : Text → List Output
print = map put

unfoldable pub scheme1 : Text → Text → Text → List Text → List Output
scheme1 w0 w1 w2 rest =
    print w0
    ++ (repstr right (length w1)
        ++ (print w2
            ++ (repstr left (length w1 + length w2)
                ++ (print w1 ++ (repstr right (length w2) ++ print (concat rest))))))

unfoldable pub scheme2 : Text → Text → List Text → List Output
scheme2 w0 w1 rest =
    repstr right (length w0)
    ++ (print w1
        ++ (repstr left (length w0 + length w1)
            ++ (print w0 ++ (repstr right (length w1) ++ print (concat rest)))))

-- The branch on `rand() & 1`. A word with too few syllables, whose `word[2]` or `word[1]` would
-- be read past the end, is `none`.
unfoldable pub show_word : Bool → List Text → Option (List Output)
show_word true (w0 ∷ w1 ∷ w2 ∷ rest) = some (scheme1 w0 w1 w2 rest)
show_word false (w0 ∷ w1 ∷ rest) = some (scheme2 w0 w1 rest)
show_word _ _ = none

-- `ruh`, from the numbers that `rand()` gives in turn and the line that is typed: what is printed
-- between the quotes, and the answer.
unfoldable pub ruh : (ℕ → ℕ) → Text → Option (List Output × Bool)
unfolding draw show_word text_eq
ruh rand typed =
    let syllables = 3 + rand 0 % 5 in
    elim (draw rand 1 syllables) [
      | none ↦ none
      | some word ↦ elim (show_word (rand (1 + syllables) % 2 == 1) word) [
        | none ↦ none
        | some out ↦ some (out, text_eq typed (concat word))
      ]
    ]
