-- ===== src/Names/Owner.antt =====
-- Whose database entry a path is, by its last component.
use hpc_workspace.Base.{◌≡◌, ◌≢◌, sym, ◌∙◌, true, false, [], ◌∷◌, ◌++◌, arith, Bool-cases, inl, inr}
use hpc_workspace.Base.Text.{Text, text_eq, text_eq_iff, has_char, has_char-append}
use hpc_workspace.Names.{entry_name, join_path}
use hpc_workspace.Names.Entry.{entry_name_inj}

-- A user's name that no other user's name can be taken for in an entry's name.
pub record IsPlain (u : Text) : Type 0 where
  pub no_dash : has_char b'-' u ≡ false
  pub no_slash : has_char b'/' u ≡ false

-- The path `q` is that of an entry of user `v`, in the database or in its `deleted` directory.
abbrev pub IsEntryOf : Text → Text → Type 0
IsEntryOf v q =
    (d : Text) × (m : Text) × (q ≡ join_path d (entry_name v m)) × (has_char b'/' m ≡ false)

slash_inside : (d m : Text) → has_char b'/' (d ++ (b'/' ∷ m)) ≡ true
unfolding has_char
slash_inside [] m = ground arith
slash_inside (c ∷ d) m = ground (arith, slash_inside d m)

-- A path has one last component.
pub join_path_last :
    (d d' m n : Text)
    → has_char b'/' m ≡ false
    → has_char b'/' n ≡ false
    → join_path d m ≡ join_path d' n
    → m ≡ n
unfolding join_path
join_path_last [] [] m n hm hn e = ground arith
join_path_last [] (y ∷ d') m n hm hn e = ground (arith, slash_inside d' n)
join_path_last (x ∷ d) [] m n hm hn e = ground (arith, slash_inside d m)
join_path_last (x ∷ d) (y ∷ d') m n hm hn e = ground (arith, join_path_last d d' m n)

entry_name-no_slash :
    (u m : Text)
    → has_char b'/' u ≡ false
    → has_char b'/' m ≡ false
    → has_char b'/' (entry_name u m) ≡ false
unfolding entry_name has_char
entry_name-no_slash u m hu hm = ground (arith, has_char-append b'/' u (b'-' ∷ m))

-- No path is the entry of two users.
pub entry-one_owner :
    (u v p q : Text)
    → IsPlain u
    → IsPlain v
    → u ≢ v
    → IsEntryOf u p
    → IsEntryOf v q
    → text_eq p q ≡ false
entry-one_owner u v p q pu pv apart (d, m, ep, hm) (d', n, eq, hn) =
    elim (Bool-cases (text_eq p q)) [
      | inr different ↦ different
      | inl same ↦
          let names =
            join_path_last d d' (entry_name u m) (entry_name v n)
              (entry_name-no_slash u m pu.no_slash hm) (entry_name-no_slash v n pv.no_slash hn)
              (sym ep ∙ ((text_eq_iff p q).0 same ∙ eq)) in
          absurd (apart (entry_name_inj u v m n pu.no_dash pv.no_dash names).0)
    ]
