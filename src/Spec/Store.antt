-- ===== src/Spec/Store.antt =====
-- The changes of database files in src/wsdb.cpp and src/ws.cpp are commands of the specification.
use hpc_workspace.Base.{
  ◌||◌, ℕ, ◌≡◌, refl, Bool, true, false, Option-cases, Bool-cases, inl, inr, ◌⊎◌, if◌then◌else◌,
}
use hpc_workspace.Base.Text.{Text, text_eq_refl}
use hpc_workspace.Base.Dict.{Dict, lookup, insert, erase, lookup-insert, lookup-erase}
use hpc_workspace.World.{Host, Libs, DbFile, RenameResult, renamed, cross_device, rename_failed}
use hpc_workspace.Workspace.{rename_in}
use hpc_workspace.Db.{WsDb, store_entry, chmod_entry, chown_entry}
use hpc_workspace.Db.After.{KeepsAt}
use hpc_workspace.Spec.{
  View, view, Command, put, move, remove, puts, moves, removes, Trace, then_command,
}

RenameResult-cases : (a : RenameResult) → (a ≡ renamed) ⊎ ((a ≡ cross_device) ⊎ (a ≡ rename_failed))
RenameResult-cases renamed = inl refl
RenameResult-cases cross_device = inr (inl refl)
RenameResult-cases rename_failed = inr (inr refl)

module _ {F : Type 0} (May : Command → Type 0) (v : View F) where
  pub traced_insert :
      (p : Text) (f : DbFile F) (db : Dict (DbFile F))
      → May (put p)
      → Trace May v (view db)
      → Trace May v (view (insert p f db))
  traced_insert p f db may t =
      then_command (put p) v _ _ t may
        (puts p f _ _ (rw (lookup-insert, text_eq_refl p)) (λ q apart. rw (lookup-insert, apart)))

  pub traced_erase :
      (p : Text) (b : Bool) (db : Dict (DbFile F))
      → May (remove p)
      → Trace May v (view db)
      → Trace May v (view (if b then erase p db else db))
  traced_erase p false db may t = t
  traced_erase p true db may t =
      then_command (remove p) v _ _ t may
        (removes p _ _ (rw (lookup-erase, text_eq_refl p)) (λ q apart. rw (lookup-erase, apart)))

  -- A rename, with any answer.
  pub traced_rename :
      (h : Host) (p q : Text) (db : Dict (DbFile F))
      → May (move p q)
      → Trace May v (view db)
      → Trace May v (view (rename_in h p q db).1)
  unfolding rename_in
  traced_rename h p q db may t = elim (Option-cases (lookup p db)) [
    | inl absent ↦ rw (absent, rename_in) t
    | inr (f, found) ↦ elim (RenameResult-cases (h.rename_answer p q)) [
      | inl answer ↦
          rw (found, answer, rename_in)
            (then_command (move p q) v _ _ t may (
              moves p q f _ _ found (rw (lookup-insert, text_eq_refl q))
                (λ apart. rw (lookup-insert, apart) (rw (lookup-erase, text_eq_refl p)))
                (λ r not_p not_q. rw (lookup-insert, not_q) (rw (lookup-erase, not_p)))))
      | inr (inl answer) ↦ rw (found, answer, rename_in) t
      | inr (inr answer) ↦ rw (found, answer, rename_in) t
    ]
  ]

module _ (L : Libs) (h : Host) (May : Command → Type 0) (v : View L.File) where
  traced_store :
      (e : WsDb) (db : Dict (DbFile L.File)) (euid egid : ℕ)
      → May (put e.dbfilename)
      → Trace May v (view db)
      → Trace May v (view (store_entry L h e euid egid db))
  unfolding store_entry
  traced_store e db euid egid may t =
      elim (Bool-cases (h.write_ok e.dbfilename || h.open_ok e.dbfilename)) [
        | inl opened ↦ rw (opened, store_entry) (traced_insert May v e.dbfilename _ db may t)
        | inr refused ↦ rw (refused, store_entry) t
      ]

  traced_chmod :
      (e : WsDb) (db : Dict (DbFile L.File))
      → May (put e.dbfilename)
      → Trace May v (view db)
      → Trace May v (view (chmod_entry L h e db))
  unfolding chmod_entry
  traced_chmod e db may t = elim (Option-cases (lookup e.dbfilename db)) [
    | inl absent ↦ rw (absent, chmod_entry) t
    | inr (f, found) ↦ elim (Bool-cases (h.chmod_ok e.dbfilename)) [
      | inl changed ↦ rw (found, changed, chmod_entry) (traced_insert May v e.dbfilename _ db may t)
      | inr refused ↦ rw (found, refused, chmod_entry) t
    ]
  ]

  traced_chown :
      (e : WsDb) (db : Dict (DbFile L.File))
      → May (put e.dbfilename)
      → Trace May v (view db)
      → Trace May v (view (chown_entry L h e db))
  unfolding chown_entry
  traced_chown e db may t = elim (Option-cases (lookup e.dbfilename db)) [
    | inl absent ↦ rw (absent, chown_entry) t
    | inr (f, found) ↦ elim (Bool-cases (h.chown_ok e.dbfilename)) [
      | inl changed ↦ rw (found, changed, chown_entry) (traced_insert May v e.dbfilename _ db may t)
      | inr refused ↦ rw (found, refused, chown_entry) t
    ]
  ]

  -- Writing an entry is a sequence of `put`s at its file.
  pub traced_entry : (p : Text) → May (put p) → KeepsAt L h (λ db dirs. Trace May v (view db)) p
  traced_entry p may = record {
    stores = λ e db dirs euid egid same t. traced_store e db euid egid (rw same may) t;
    chmods = λ e db dirs same t. traced_chmod e db (rw same may) t;
    chowns = λ e db dirs same t. traced_chown e db (rw same may) t;
  }
