-- ===== src/World/Builds/Files.antt =====
-- Changes of the files that keep them the same but for their owners.
use hpc_workspace.Base.{
  ◌≡◌, refl, ap, Bool, true, false, none, some, arith, ◌⊎◌, inl, inr, Option-cases, Bool-cases,
  if◌then◌else◌,
}
use hpc_workspace.Base.Text.{Text, text_eq}
use hpc_workspace.Base.Dict.{Dict, lookup, insert, erase, lookup-insert, lookup-erase}
use hpc_workspace.World.{
  World, CapSet, ok, gets, DbFile, Host, RenameResult, renamed, cross_device, rename_failed,
}
use hpc_workspace.World.Caps.Steps.{caps_host, setuid_host}
use hpc_workspace.World.Builds.{shown, SameFiles, Beside, beside, Alike}
use hpc_workspace.Workspace.{exists, rename_in}

-- Two files with the same content and mode.
abbrev pub Twins : {F : Type 0} → DbFile F → DbFile F → Type 0
Twins f f' = (f.content ≡ f'.content) × (f.mode ≡ f'.mode)

shown-Twins : {F : Type 0} (f f' : DbFile F) → Twins f f' → shown (some f) ≡ shown (some f')
shown-Twins f f' (c, m) = ground (arith, c, m)

module _ {F : Type 0} (db db' : Dict (DbFile F)) (p : Text) (same : SameFiles db db') where
  pub same_cases :
      ((lookup p db ≡ none) × (lookup p db' ≡ none))
      ⊎ ((f f' : DbFile F) × (lookup p db ≡ some f) × (lookup p db' ≡ some f') × Twins f f')
  same_cases = elim (Option-cases (lookup p db)) [
    | inl gone ↦ elim (Option-cases (lookup p db')) [
      | inl gone' ↦ inl (gone, gone')
      | inr (f', there') ↦ let e = rw (gone, there') at (same p) in absurd (ground arith)
    ]
    | inr (f, there) ↦ elim (Option-cases (lookup p db')) [
      | inl gone' ↦ let e = rw (there, gone') at (same p) in absurd (ground arith)
      | inr (f', there') ↦
          let e = rw (there, there') at (same p) in
          inr (f, f', there, there', (ground arith, ground arith))
    ]
  ]

  pub exists-same : exists p db ≡ exists p db'
  exists-same = elim same_cases [
    | inl (gone, gone') ↦ rw (gone, gone', exists)
    | inr (f, f', there, there', twins) ↦ rw (there, there', exists)
  ]

  pub insert-SameFiles :
      (f f' : DbFile F) → Twins f f' → SameFiles (insert p f db) (insert p f' db')
  insert-SameFiles f f' twins q = elim (Bool-cases (text_eq p q)) [
    | inl at ↦ rw (lookup-insert p q f db, lookup-insert p q f' db', at) (shown-Twins f f' twins)
    | inr other ↦ rw (lookup-insert p q f db, lookup-insert p q f' db', other) (same q)
  ]

  pub erase-SameFiles : SameFiles (erase p db) (erase p db')
  erase-SameFiles q = elim (Bool-cases (text_eq p q)) [
    | inl at ↦ rw (lookup-erase p q db, lookup-erase p q db', at) refl
    | inr other ↦ rw (lookup-erase p q db, lookup-erase p q db', other) (same q)
  ]

  pub erase_if-SameFiles :
      (b : Bool) → SameFiles (if b then erase p db else db) (if b then erase p db' else db')
  erase_if-SameFiles true = erase-SameFiles
  erase_if-SameFiles false = same

answers : (r : RenameResult) → (r ≡ renamed) ⊎ ((r ≡ cross_device) ⊎ (r ≡ rename_failed))
answers renamed = inl refl
answers cross_device = inr (inl refl)
answers rename_failed = inr (inr refl)

module _ {F : Type 0} (h : Host) (db db' : Dict (DbFile F)) (p q : Text)
    (same : SameFiles db db') where
  -- A rename has the same answer in both builds, and does the same.
  pub rename_in-answer : (rename_in (caps_host h) p q db).0 ≡ (rename_in (setuid_host h) p q db').0
  unfolding rename_in
  rename_in-answer = elim (same_cases db db' p same) [
    | inl (gone, gone') ↦ rw (gone, gone', rename_in) refl
    | inr (f, f', there, there', twins) ↦ elim (answers (h.rename_answer p q)) [
      | inl e ↦ rw (there, there', e, rename_in) refl
      | inr (inl e) ↦ rw (there, there', e, rename_in) refl
      | inr (inr e) ↦ rw (there, there', e, rename_in) refl
    ]
  ]

  pub rename_in-SameFiles :
      SameFiles (rename_in (caps_host h) p q db).1 (rename_in (setuid_host h) p q db').1
  unfolding rename_in
  rename_in-SameFiles = elim (same_cases db db' p same) [
    | inl (gone, gone') ↦ rw (gone, gone', rename_in) same
    | inr (f, f', there, there', twins) ↦ elim (answers (h.rename_answer p q)) [
      | inl e ↦
          rw (there, there', e, rename_in)
            (insert-SameFiles (erase p db) (erase p db') q (erase-SameFiles db db' p same) f f'
              twins)
      | inr (inl e) ↦ rw (there, there', e, rename_in) same
      | inr (inr e) ↦ rw (there, there', e, rename_in) same
    ]
  ]

-- Whether a file is there.
pub Alike-found :
    {F : Type 0} (caps : CapSet) (p : Text) (w w' : World F)
    → Beside caps w w'
    → Alike caps (gets (λ v. exists p v.db) w) (gets (λ v. exists p v.db) w')
Alike-found caps p w w' (beside db db' dirs u g u' g' c c' same) = record {
  same = ap ok (exists-same db db' p same);
  files = same;
  dirs = refl;
  worlds = λ a e. beside db db' dirs u g u' g' c c' same;
}
