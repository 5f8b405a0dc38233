-- ===== src/Names/Valid.antt =====
-- What the two-part test of a workspace name accepts.
use hpc_workspace.Base.{◌≡◌, refl, true, false, [], ◌∷◌, arith}
use hpc_workspace.Base.Text.{Text, has_char}
use hpc_workspace.Names.{is_name_char, all_chars, match_e1, search_e2, valid_name}

search_e2-eq : (s : Text) → search_e2 s ≡ false → all_chars is_name_char s ≡ true
unfolding search_e2
search_e2-eq [] h = refl
search_e2-eq (c ∷ s) h = ground (arith, search_e2-eq s)

all_chars-search_e2 : (s : Text) → all_chars is_name_char s ≡ true → search_e2 s ≡ false
unfolding search_e2
all_chars-search_e2 [] h = refl
all_chars-search_e2 (c ∷ s) h = ground (arith, all_chars-search_e2 s)

-- The two tests together accept exactly what the one regular expression
-- `^[[:alnum:]][[:alnum:]_.-]*$` accepts, which they replaced for the whole name.
pub valid_name-eq-match_e1 : (name : Text) → valid_name name ≡ match_e1 name
unfolding valid_name
valid_name-eq-match_e1 [] = refl
valid_name-eq-match_e1 (a ∷ []) = ground arith
valid_name-eq-match_e1 (a ∷ b ∷ s) = ground (arith, search_e2-eq s, all_chars-search_e2 s)

all_chars-no_slash : (s : Text) → all_chars is_name_char s ≡ true → has_char b'/' s ≡ false
unfolding has_char
all_chars-no_slash [] h = refl
all_chars-no_slash (c ∷ s) h = ground (arith, all_chars-no_slash s)

-- An accepted name has no slash in it.
pub valid_name-no_slash : (name : Text) → valid_name name ≡ true → has_char b'/' name ≡ false
unfolding match_e1 has_char
valid_name-no_slash [] h = refl
valid_name-no_slash (c ∷ s) h = ground (arith, valid_name-eq-match_e1 (c ∷ s), all_chars-no_slash s)
