-- ===== src/Names/Entry.antt =====
-- Which user and which workspace a database entry's name stands for.
use hpc_workspace.Base.{◌≡◌, ◌↔◌, ◌⊎◌, inl, inr, true, false, [], ◌∷◌, ◌++◌, arith, ◌∙◌, Bool-cases}
use hpc_workspace.Base.Text.{
  Text, text_eq, text_eq_iff, has_char, starts_with, starts_with-append, starts_with_split, codes,
}
use mathlib.Core.List.{append_assoc}
use hpc_workspace.Names.{entry_name, check_name}

append_cancel : (d s t : Text) → d ++ s ≡ d ++ t → s ≡ t
append_cancel [] s t h = h
append_cancel (x ∷ d) s t h = append_cancel d s t (ground arith)

-- Users without a dash in their names never share a database entry: two entry names are equal
-- only for the same user and the same workspace.
pub entry_name_inj :
    (u v m n : Text)
    → has_char b'-' u ≡ false
    → has_char b'-' v ≡ false
    → entry_name u m ≡ entry_name v n
    → (u ≡ v) × (m ≡ n)
unfolding entry_name has_char
entry_name_inj [] [] m n hu hv e = ground arith
entry_name_inj [] (y ∷ v) m n hu hv e = ground arith
entry_name_inj (x ∷ u) [] m n hu hv e = ground arith
entry_name_inj (x ∷ u) (y ∷ v) m n hu hv e = ground (arith, entry_name_inj u v m n)

prefix_rest :
    (name real : Text)
    → starts_with name (real ++ (b'-' ∷ [])) ≡ true
    → (rest : Text) × (name ≡ entry_name real rest)
unfolding entry_name
prefix_rest name real h =
    let (rest, e) = starts_with_split name (real ++ (b'-' ∷ [])) h in
    (rest, e ∙ append_assoc real (b'-' ∷ []) rest)

starts_with-entry_name :
    (real rest : Text) → starts_with (entry_name real rest) (real ++ (b'-' ∷ [])) ≡ true
unfolding entry_name
starts_with-entry_name real rest =
    rw (← append_assoc real (b'-' ∷ []) rest) (starts_with-append (real ++ (b'-' ∷ [])) rest)

-- `check_name` lets root pass with every name, and any other caller exactly with the names that
-- are the caller's own name, a dash and some rest.
pub check_name_iff :
    (name user real : Text)
    → (check_name name user real ≡ true)
      ↔ ((real ≡ codes "root") ⊎ ((rest : Text) × (name ≡ entry_name real rest)))
unfolding check_name
check_name_iff name user real = (accepted, accepts)
  where
    accepted :
        check_name name user real ≡ true
        → (real ≡ codes "root") ⊎ ((rest : Text) × (name ≡ entry_name real rest))
    accepted h = elim (Bool-cases (text_eq real (codes "root"))) [
      | inl e ↦ inl ((text_eq_iff real (codes "root")).0 e)
      | inr e ↦ inr (prefix_rest name real (ground arith))
    ]

    accepts :
        (real ≡ codes "root") ⊎ ((rest : Text) × (name ≡ entry_name real rest))
        → check_name name user real ≡ true
    accepts (inl e) = ground (arith, text_eq_iff real (codes "root"))
    accepts (inr (rest, e)) = ground (arith, starts_with-entry_name real rest)

-- So a caller passes with the deleted entries of any user whose name begins with the caller's
-- name and a dash.
pub check_name_foreign :
    (real v rest user : Text) → check_name (entry_name (entry_name real v) rest) user real ≡ true
unfolding entry_name
check_name_foreign real v rest user =
    (check_name_iff _ user real).1
      (inr (entry_name v rest, append_assoc real (b'-' ∷ v) (b'-' ∷ rest)))
