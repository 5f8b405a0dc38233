-- ===== src/Db/RoundTrip.antt =====
-- An entry is read as it was written.
use hpc_workspace.Base.{
  ◌≡◌, refl, Bool, true, false, none, some, if◌then◌else◌, default_to, [], ◌∷◌,
}
use hpc_workspace.Base.Int.{pos, IsInt}
use hpc_workspace.Base.Text.{Text, text_eq, codes, is_empty}
use hpc_workspace.World.{Libs, IsLawful, IsLong, ok}
use hpc_workspace.Db.{WsDb, entry_node, read_dbfile}

-- The numbers of an entry lie in the ranges of their C++ types.
pub record IsRanged (e : WsDb) : Type 0 where
  pub expiration_fits : IsLong e.expiration
  pub extensions_fits : IsInt e.extensions
  pub reminder_fits : IsInt e.reminder

if_same {ℓ} : {A : Type ℓ} (c : Bool) (x : A) → (if c then x else x) ≡ x
if_same true x = refl
if_same false x = refl

module _ (L : Libs) where
  text_at-if :
      (c : Bool) (m n : L.Node) (k : Text)
      → L.text_at (if c then m else n) k ≡ (if c then L.text_at m k else L.text_at n k)
  text_at-if true m n k = refl
  text_at-if false m n k = refl

  int_at-if :
      (c : Bool) (m n : L.Node) (k : Text)
      → L.int_at (if c then m else n) k ≡ (if c then L.int_at m k else L.int_at n k)
  int_at-if true m n k = refl
  int_at-if false m n k = refl

  long_at-if :
      (c : Bool) (m n : L.Node) (k : Text)
      → L.long_at (if c then m else n) k ≡ (if c then L.long_at m k else L.long_at n k)
  long_at-if true m n k = refl
  long_at-if false m n k = refl

ruleset conditionals = (text_at-if, int_at-if, long_at-if, if_same)

module _ (L : Libs) (law : IsLawful L) (e : WsDb) where
  at_workspace : L.text_at (entry_node L e) (codes "workspace") ≡ some e.wsdir
  unfolding entry_node text_eq
  at_workspace = simp (conditionals, law.text_at-set_text, law.text_at-set_int)

  at_acctcode : L.text_at (entry_node L e) (codes "acctcode") ≡ some e.acctcode
  unfolding entry_node text_eq
  at_acctcode = simp (conditionals, law.text_at-set_text, law.text_at-set_int)

  at_mailaddress : L.text_at (entry_node L e) (codes "mailaddress") ≡ some e.mailaddress
  unfolding entry_node text_eq
  at_mailaddress = simp (conditionals, law.text_at-set_text, law.text_at-set_int)

  at_comment : L.text_at (entry_node L e) (codes "comment") ≡ some e.comment
  unfolding entry_node text_eq
  at_comment = simp (conditionals, law.text_at-set_text)

  -- The key is left out for the empty group, which is also what a missing key reads as.
  group_or_none : (s : Text) → default_to [] (if is_empty s then none else some s) ≡ s
  group_or_none [] = refl
  group_or_none (c ∷ s) = refl

  at_group :
      L.text_at (entry_node L e) (codes "group") ≡ (if is_empty e.group then none else some e.group)
  unfolding entry_node text_eq
  at_group = simp (conditionals, law.text_at-set_text, law.text_at-set_int, law.text_at-empty)

  at_expiration :
      IsLong e.expiration → L.long_at (entry_node L e) (codes "expiration") ≡ some e.expiration
  unfolding entry_node text_eq
  at_expiration fits = simp (
    conditionals,
    law.long_at-set_text,
    law.long_at-set_other,
    law.long_at-set_int _ _ e.expiration _ fits,
  )

  at_extensions :
      IsInt e.extensions → L.int_at (entry_node L e) (codes "extensions") ≡ some e.extensions
  unfolding entry_node text_eq
  at_extensions fits = simp (
    conditionals,
    law.int_at-set_text,
    law.int_at-set_other,
    law.int_at-set_int _ _ e.extensions _ fits,
  )

  at_reminder : IsInt e.reminder → L.int_at (entry_node L e) (codes "reminder") ≡ some e.reminder
  unfolding entry_node text_eq
  at_reminder fits = simp (
    conditionals,
    law.int_at-set_text,
    law.int_at-set_other,
    law.int_at-set_int _ _ e.reminder _ fits,
  )

  -- What `write_dbfile` puts into the file, `read_dbfile` reads back: every field of the entry, but
  -- for `released`, which is not read and comes out as 0. The expiration must fit a `long`, and
  -- the extensions and the reminder an `int`.
  pub read_dbfile-entry_node :
      IsRanged e
      → read_dbfile L e.dbfilename e.dbuid e.dbgid (L.emit (entry_node L e))
        ≡ ok (record e { released = pos 0 })
  unfolding read_dbfile
  read_dbfile-entry_node fits =
      rw
        (
          law.load-emit (entry_node L e),
          at_workspace,
          at_expiration fits.expiration_fits,
          at_extensions fits.extensions_fits,
          at_acctcode,
          at_reminder fits.reminder_fits,
          at_mailaddress,
          read_dbfile,
        )
        (rw (at_group, at_comment, group_or_none e.group, read_dbfile))
