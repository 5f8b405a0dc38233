-- ===== src/Db/Written.antt =====
-- What `write_dbfile` (src/wsdb.cpp) leaves: the entry as it was given, and no privilege.
use hpc_workspace.Base.{
  ◌||◌, ℕ, ◌≡◌, refl, ◌∙◌, true, false, some, Option-cases, Bool-cases, inl, inr,
}
use hpc_workspace.Base.Int.{pos}
use hpc_workspace.Base.Text.{text_eq, Text, text_eq_refl}
use hpc_workspace.Base.Dict.{Dict, lookup, insert, lookup-insert}
use hpc_workspace.World.{Host, Libs, IsLawful, World, DbFile, Dir, ok}
use hpc_workspace.World.Caps.{
  idle, allocate_caps, raise_cap, lower_cap, become_db_user, become_root,
}
use hpc_workspace.World.Caps.Steps.{by_cap}
use hpc_workspace.Db.{
  WsDb, entry_node, store_entry, chmod_entry, chown_entry, write_dbfile, open_entry, give_entry,
}
use hpc_workspace.Db.RoundTrip.{IsRanged, read_dbfile-entry_node}

module _ (L : Libs) (h : Host) (e : WsDb) (db : Dict (DbFile L.File)) (dirs : Dict Dir)
    (euid egid : ℕ) where
  -- The capabilities build: with the capabilities that ws_allocate and ws_release keep, the entry is
  -- stored, its mode and owner are set, and no capability is left in effect.
  pub write_dbfile_caps :
      h.setuid_build ≡ false
      → write_dbfile L h e (idle allocate_caps db dirs euid egid) ≡ (
        ok tt,
        idle allocate_caps
            (chown_entry L h e (chmod_entry L h e (store_entry L h e euid egid db)))
            dirs
            euid
            egid,
      )
  unfolding write_dbfile give_entry raise_cap lower_cap become_db_user become_root
  write_dbfile_caps build =
      by_cap
        (λ k. write_dbfile L k e (idle allocate_caps db dirs euid egid) ≡ (
          ok tt,
          idle allocate_caps
              (chown_entry L k e (chmod_entry L k e (store_entry L k e euid egid db))) dirs euid
              egid,
        ))
        h build refl

-- The file at `p` holds `content`.
abbrev pub Holds : {F : Type 0} → Text → F → Dict (DbFile F) → Type 0
Holds {F} p content db = (f : DbFile F) × (lookup p db ≡ some f) × (f.content ≡ content)

module _ (L : Libs) (h : Host) (e : WsDb) where
  insert-Holds :
      (db : Dict (DbFile L.File)) (c : L.File) (f : DbFile L.File)
      → f.content ≡ c
      → Holds e.dbfilename c (insert e.dbfilename f db)
  insert-Holds db c f same = (f, rw (lookup-insert, text_eq_refl e.dbfilename), same)

  pub store_entry-Holds :
      (db : Dict (DbFile L.File)) (euid egid : ℕ)
      → h.write_ok e.dbfilename ≡ true
      → Holds e.dbfilename (L.emit (entry_node L e)) (store_entry L h e euid egid db)
  unfolding store_entry
  store_entry-Holds db euid egid written = elim (Option-cases (lookup e.dbfilename db)) [
    | inl new ↦ rw (written, new, store_entry) (insert-Holds db _ _ (rw written refl))
    | inr (f, old) ↦ rw (written, old, store_entry) (insert-Holds db _ _ (rw written refl))
  ]

  pub chmod_entry-Holds :
      (db : Dict (DbFile L.File)) (c : L.File)
      → Holds e.dbfilename c db
      → Holds e.dbfilename c (chmod_entry L h e db)
  unfolding chmod_entry
  chmod_entry-Holds db c (f, found, same) = elim (Bool-cases (h.chmod_ok e.dbfilename)) [
    | inl changed ↦ rw (found, changed, chmod_entry) (insert-Holds db c _ same)
    | inr kept ↦ rw (found, kept, chmod_entry) (f, found, same)
  ]

  pub chown_entry-Holds :
      (db : Dict (DbFile L.File)) (c : L.File)
      → Holds e.dbfilename c db
      → Holds e.dbfilename c (chown_entry L h e db)
  unfolding chown_entry
  chown_entry-Holds db c (f, found, same) = elim (Bool-cases (h.chown_ok e.dbfilename)) [
    | inl changed ↦ rw (found, changed, chown_entry) (insert-Holds db c _ same)
    | inr kept ↦ rw (found, kept, chown_entry) (f, found, same)
  ]

  pub written-Holds :
      (db : Dict (DbFile L.File)) (euid egid : ℕ)
      → h.write_ok e.dbfilename ≡ true
      → Holds e.dbfilename
          (L.emit (entry_node L e))
          (chown_entry L h e (chmod_entry L h e (store_entry L h e euid egid db)))
  written-Holds db euid egid written =
      chown_entry-Holds _ _ (chmod_entry-Holds _ _ (store_entry-Holds db euid egid written))

  pub store_entry-others :
      (db : Dict (DbFile L.File)) (euid egid : ℕ) (q : Text)
      → text_eq e.dbfilename q ≡ false
      → lookup q (store_entry L h e euid egid db) ≡ lookup q db
  unfolding store_entry
  store_entry-others db euid egid q other =
      elim (Bool-cases (h.write_ok e.dbfilename || h.open_ok e.dbfilename)) [
        | inl opened ↦ rw (opened, store_entry) (rw (lookup-insert, other))
        | inr kept ↦ rw (kept, store_entry)
      ]

  pub chmod_entry-others :
      (db : Dict (DbFile L.File)) (q : Text)
      → text_eq e.dbfilename q ≡ false
      → lookup q (chmod_entry L h e db) ≡ lookup q db
  unfolding chmod_entry
  chmod_entry-others db q other = elim (Option-cases (lookup e.dbfilename db)) [
    | inl absent ↦ rw (absent, chmod_entry)
    | inr (f, found) ↦ elim (Bool-cases (h.chmod_ok e.dbfilename)) [
      | inl changed ↦ rw (found, changed, chmod_entry) (rw (lookup-insert, other))
      | inr kept ↦ rw (found, kept, chmod_entry)
    ]
  ]

  pub chown_entry-others :
      (db : Dict (DbFile L.File)) (q : Text)
      → text_eq e.dbfilename q ≡ false
      → lookup q (chown_entry L h e db) ≡ lookup q db
  unfolding chown_entry
  chown_entry-others db q other = elim (Option-cases (lookup e.dbfilename db)) [
    | inl absent ↦ rw (absent, chown_entry)
    | inr (f, found) ↦ elim (Bool-cases (h.chown_ok e.dbfilename)) [
      | inl changed ↦ rw (found, changed, chown_entry) (rw (lookup-insert, other))
      | inr kept ↦ rw (found, kept, chown_entry)
    ]
  ]

  -- The write touches no other file.
  pub written-others :
      (db : Dict (DbFile L.File)) (euid egid : ℕ) (q : Text)
      → text_eq e.dbfilename q ≡ false
      → lookup q (chown_entry L h e (chmod_entry L h e (store_entry L h e euid egid db)))
        ≡ lookup q db
  written-others db euid egid q other =
      chown_entry-others _ q other
      ∙ (chmod_entry-others _ q other ∙ store_entry-others db euid egid q other)

  -- Once the entry's file holds what was written, opening it gives the entry back.
  pub open_entry-Holds :
      (w : World L.File)
      → IsLawful L
      → IsRanged e
      → Holds e.dbfilename (L.emit (entry_node L e)) w.db
      → open_entry L e.dbfilename e.dbuid e.dbgid w ≡ (ok (record e { released = pos 0 }), w)
  unfolding open_entry
  open_entry-Holds w law fits (f, found, same) =
      rw (found, open_entry) (rw (same, read_dbfile-entry_node L law e fits))

  -- After `write_dbfile`, in the capabilities build and if the file can be written, opening the
  -- entry gives it back, but for `released`, which comes out as 0.
  pub write_dbfile-open_entry :
      (db : Dict (DbFile L.File)) (dirs : Dict Dir) (euid egid : ℕ)
      → IsLawful L
      → IsRanged e
      → h.setuid_build ≡ false
      → h.write_ok e.dbfilename ≡ true
      → let w = (write_dbfile L h e (idle allocate_caps db dirs euid egid)).1 in
        open_entry L e.dbfilename e.dbuid e.dbgid w ≡ (ok (record e { released = pos 0 }), w)
  write_dbfile-open_entry db dirs euid egid law fits build written =
      rw (write_dbfile_caps L h e db dirs euid egid build)
        (open_entry-Holds _ law fits (written-Holds db euid egid written))
