-- ===== src/Programs/Runs/Owned.antt =====
-- The database files that a run names are entries of its caller.
use hpc_workspace.Base.{
  ℕ, true, false, not, ◌&&◌, ◌==◌, some, ◌∷◌, ◌++◌, ◌≡◌, ◌≢◌, refl, ap, arith, Option-cases, inl,
  inr,
}
use hpc_workspace.Base.Text.{Text, codes, is_empty, has_char, has_char-append}
use hpc_workspace.World.{Host, Libs}
use hpc_workspace.Programs.Runs.Own.{full_name-own, entry_user-own}
use hpc_workspace.Config.{database_of}
use hpc_workspace.Names.{entry_name, join_path, check_name, valid_name}
use hpc_workspace.Names.Valid.{valid_name-no_slash}
use hpc_workspace.Names.Entry.{check_name_iff}
use hpc_workspace.Names.Owner.{IsEntryOf}
use hpc_workspace.Workspace.{Workspace, entry_file}
use hpc_workspace.Allocate.{Request, entry_user}
use hpc_workspace.Release.{full_name, stamped}
use mathlib.Core.List.{append_assoc}

module _ (L : Libs) (h : Host) (s : Workspace) (mortal : (h.uid == 0) ≡ false)
    (numbers : (n : ℕ) → has_char b'/' (L.to_text n) ≡ false) where
  pub full_name-IsEntryOf :
      (d name : Text)
      → valid_name name ≡ true
      → IsEntryOf s.username (join_path d (full_name L h s name))
  full_name-IsEntryOf d name valid =
      (d, name, ap (join_path d) (full_name-own L h s mortal name), valid_name-no_slash name valid)

  pub stamped-IsEntryOf :
      (d name : Text)
      → valid_name name ≡ true
      → IsEntryOf s.username (join_path d (stamped L h s name))
  unfolding stamped entry_name has_char
  stamped-IsEntryOf d name valid =
      let t = L.to_text (h.clock 0) in
      (
        d,
        name ++ (b'-' ∷ t),
        rw (full_name-own L h s mortal name, stamped)
            (ap (join_path d) (append_assoc s.username (b'-' ∷ name) (b'-' ∷ t))),
        rw
            (
              has_char-append b'/' name (b'-' ∷ t),
              valid_name-no_slash name valid,
              numbers (h.clock 0),
            )
            refl,
      )

  pub entry_file-IsEntryOf :
      (r : Request) (fs p : Text)
      → valid_name r.name ≡ true
      → (r.extensionflag && not (is_empty r.user_option)) ≡ false
      → entry_file s.config fs (entry_user L h s r) r.name ≡ some p
      → IsEntryOf s.username p
  unfolding entry_file
  entry_file-IsEntryOf r fs p valid own e = elim (Option-cases (database_of s.config fs)) [
    | inl missing ↦ absurd (ground arith)
    | inr (d, known) ↦ (
      d,
      r.name,
      grind (arith, entry_user-own L h s mortal r own),
      valid_name-no_slash r.name valid,
    )
  ]

pub restore-IsEntryOf :
    (d name username real : Text)
    → valid_name name ≡ true
    → check_name name username real ≡ true
    → real ≢ codes "root"
    → IsEntryOf real (join_path d name)
unfolding entry_name has_char
restore-IsEntryOf d name username real valid own mortal =
    elim ((check_name_iff name username real).0 own) [
      | inl root ↦ absurd (mortal root)
      | inr (rest, e) ↦ (
        d,
        rest,
        ap (join_path d) e,
        ground (
          arith,
          valid_name-no_slash name valid,
          has_char-append b'/' real (b'-' ∷ rest),
          ap (has_char b'/') e,
        ),
      )
    ]
