-- ===== src/Workspace/Rename.antt =====
-- What a rename does to a part of the file tree.
use hpc_workspace.Base.{◌≡◌, false, none, some, arith}
use hpc_workspace.Base.Text.{Text, text_eq, text_eq_refl}
use hpc_workspace.Base.Dict.{Dict, lookup, insert, erase, lookup-insert, lookup-erase}
use hpc_workspace.World.{Host, renamed}
use hpc_workspace.Workspace.{rename_in}

module _ {V : Type 0} (h : Host) (p q : Text) (v : V) (m : Dict V) where
  -- A rename that succeeds moves the value, leaves nothing at the source, and touches nothing else.
  pub rename_in-moves :
      lookup p m ≡ some v
      → h.rename_answer p q ≡ renamed
      → text_eq q p ≡ false
      → (m' : Dict V) × (rename_in h p q m ≡ (renamed, m'))
        × (lookup q m' ≡ some v)
        × (lookup p m' ≡ none)
        × ((r : Text) → text_eq p r ≡ false → text_eq q r ≡ false → lookup r m' ≡ lookup r m)
  unfolding rename_in
  rename_in-moves found answer apart = (
    insert q v (erase p m),
    rw (found, answer, rename_in),
    rw (lookup-insert, text_eq_refl q),
    rw (lookup-insert, apart) (rw (lookup-erase, text_eq_refl p)),
    λ r not_p not_q. rw (lookup-insert, not_q) (rw (lookup-erase, not_p)),
  )

-- However it ends, it touches nothing else.
pub rename_in-others :
    {V : Type 0} (h : Host) (p q r : Text) (m : Dict V)
    → text_eq p r ≡ false
    → text_eq q r ≡ false
    → lookup r (rename_in h p q m).1 ≡ lookup r m
unfolding rename_in
rename_in-others {V} h p q r m not_p not_q =
    grind (arith, lookup-insert {V = V}, lookup-erase {V = V})
