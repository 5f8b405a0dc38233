-- ===== src/Tests/Names.antt =====
-- Witnesses for Names and Ruh.
use hpc_workspace.Base.{◌≡◌, refl, true, some, List, [], ◌↔◌, ◌⊎◌}
use hpc_workspace.Base.Text.{Text, codes, has_char, text_eq}
use hpc_workspace.Names.{valid_name, match_e1, entry_name, check_name}
use hpc_workspace.Names.Valid.{valid_name-eq-match_e1}
use hpc_workspace.Names.Entry.{entry_name_inj, check_name_iff}
use hpc_workspace.Ruh.{ruh}
use hpc_workspace.Ruh.Screen.{Output, line, play, onto}
use hpc_workspace.Ruh.Shown.{ruh-shows}

valid_name-eq-match_e1_example : valid_name (codes "a.b-1") ≡ match_e1 (codes "a.b-1")
valid_name-eq-match_e1_example = valid_name-eq-match_e1 (codes "a.b-1")

entry_name_inj_example : (codes "bob" ≡ codes "bob") × (codes "a-b" ≡ codes "a-b")
unfolding has_char
entry_name_inj_example =
    entry_name_inj (codes "bob") (codes "bob") (codes "a-b") (codes "a-b") refl refl refl

check_name_iff_example : (check_name (codes "bob-w-7") (codes "bob") (codes "bob") ≡ true) ↔ (
    (codes "bob" ≡ codes "root")
    ⊎ ((rest : Text) × (codes "bob-w-7" ≡ entry_name (codes "bob") rest)))
check_name_iff_example = check_name_iff (codes "bob-w-7") (codes "bob") (codes "bob")

ruh-shows_example :
    (out : List Output) × (word : Text) × ((typed : Text)
      → ruh (λ i. i) typed ≡ some (out, text_eq typed word))
    × (play out (line (codes "'") []) ≡ line (onto word (codes "'")) [])
ruh-shows_example = ruh-shows (λ i. i) (codes "'")
