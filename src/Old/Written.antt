-- ===== src/Old/Written.antt =====
-- Entries of the older tools, as `read_dbfile` of src/wsdb.cpp reads them.
use hpc_workspace.Base.{ℕ, ◌≡◌, refl, true, false, Option-cases, Bool-cases, inl, inr, []}
use hpc_workspace.Base.Int.{ℤ, pos, IsInt}
use hpc_workspace.Base.Text.{Text, text_eq_refl}
use hpc_workspace.Base.Dict.{Dict, lookup, insert, lookup-insert}
use hpc_workspace.World.{Host, Libs, IsLawful, IsLong, DbFile, Dir, ok}
use hpc_workspace.World.Caps.{idle}
use hpc_workspace.World.Caps.Steps.{by_cap}
use hpc_workspace.Db.{WsDb}
use hpc_workspace.Db
use hpc_workspace.Db.Written.{Holds}
use hpc_workspace.Old.{
  OldDb, old_caps, entry_node, store_file, chown_file, raise_cap, lower_cap, write_dbfile,
}

module _ (L : Libs) (law : IsLawful L) (e : OldDb) (reminder : ℤ) (mailaddress : Text) where
  abbrev n : L.Node
  n = entry_node L e reminder mailaddress

  -- The entry as the present tools see it.
  abbrev pub migrated : Text → ℕ → ℕ → WsDb
  migrated filename dbuid dbgid = record {
    dbfilename = filename;
    wsdir = e.wsdir;
    expiration = e.expiration;
    extensions = e.extensions;
    acctcode = e.acctcode;
    dbuid = dbuid;
    dbgid = dbgid;
    reminder = reminder;
    mailaddress = mailaddress;
    group = [];
    comment = [];
    released = pos 0;
  }

  -- The numbers lie in the ranges of their C++ types.
  pub record Fits : Type 0 where
    pub expiration : IsLong e.expiration
    pub extensions : IsInt e.extensions
    pub reminder_fits : IsInt reminder

module _ (L : Libs) (h : Host) (e : OldDb) (reminder : ℤ) (mailaddress filename : Text)
    (dbuid dbgid : ℕ) where
  -- In the capabilities build the entry is stored and given to the database user, and no capability
  -- is left in effect.
  pub write_dbfile_lem :
      (db : Dict (DbFile L.File)) (dirs : Dict Dir) (euid egid : ℕ)
      → h.setuid_build ≡ false
      → write_dbfile L h filename e dbuid dbgid reminder mailaddress
          (idle old_caps db dirs euid egid)
        ≡ (
          ok tt,
          idle old_caps
              (chown_file L h filename dbuid dbgid
                (store_file L h filename (entry_node L e reminder mailaddress) euid egid db))
              dirs
              euid
              egid,
        )
  unfolding write_dbfile raise_cap lower_cap
  write_dbfile_lem db dirs euid egid build =
      by_cap
        (λ k.
          write_dbfile L k filename e dbuid dbgid reminder mailaddress
            (idle old_caps db dirs euid egid)
          ≡ (
            ok tt,
            idle old_caps
                (chown_file L k filename dbuid dbgid
                  (store_file L k filename (entry_node L e reminder mailaddress) euid egid db))
                dirs euid egid,
          ))
        h build refl

  insert-Holds :
      (db : Dict (DbFile L.File)) (c : L.File) (f : DbFile L.File)
      → f.content ≡ c
      → Holds filename c (insert filename f db)
  insert-Holds db c f same = (f, rw (lookup-insert, text_eq_refl filename), same)

  store_file-Holds :
      (n : L.Node) (db : Dict (DbFile L.File)) (euid egid : ℕ)
      → h.write_ok filename ≡ true
      → Holds filename (L.emit n) (store_file L h filename n euid egid db)
  unfolding store_file
  store_file-Holds n db euid egid written = elim (Option-cases (lookup filename db)) [
    | inl new ↦ rw (written, new, store_file) (insert-Holds db _ _ (rw written refl))
    | inr (f, old) ↦ rw (written, old, store_file) (insert-Holds db _ _ (rw written refl))
  ]

  chown_file-Holds :
      (db : Dict (DbFile L.File)) (c : L.File)
      → Holds filename c db
      → Holds filename c (chown_file L h filename dbuid dbgid db)
  unfolding chown_file
  chown_file-Holds db c (f, found, same) = elim (Bool-cases (h.chown_ok filename)) [
    | inl changed ↦ rw (found, changed, chown_file) (insert-Holds db c _ same)
    | inr kept ↦ rw (found, kept, chown_file) (f, found, same)
  ]

  pub written-Holds :
      (db : Dict (DbFile L.File)) (euid egid : ℕ)
      → h.write_ok filename ≡ true
      → Holds filename (L.emit (entry_node L e reminder mailaddress)) (
          chown_file L h filename dbuid dbgid
            (store_file L h filename (entry_node L e reminder mailaddress) euid egid db))
  written-Holds db euid egid written =
      chown_file-Holds _ _ (store_file-Holds _ db euid egid written)
