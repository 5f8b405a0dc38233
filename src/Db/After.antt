-- ===== src/Db/After.antt =====
-- What reading and writing a database entry (src/wsdb.cpp) does to the files, however it ends.
use hpc_workspace.Base.{
  Bool, true, false, if◌then◌else◌, ℕ, arith, some, Option-cases, inl, inr, ◌≡◌,
}
use hpc_workspace.Base.Int.{ℤ}
use hpc_workspace.Base.Text.{Text}
use hpc_workspace.Base.Dict.{Dict, lookup}
use hpc_workspace.World.{Host, Libs, World, DbFile, Dir, M, ok, Result-cases, continue}
use hpc_workspace.World.After.{After, After-continue, After-end, After-if}
use hpc_workspace.World.After.Files.{
  Files, OnFiles, After-raise_cap, After-lower_cap, After-become_db_user, After-become_root,
}
use hpc_workspace.Db.{
  WsDb, parse_entry, parse_old, read_dbfile, open_entry, store_entry, chmod_entry, chown_entry,
  give_entry, write_dbfile, create_entry, use_extension, update_notes,
}

module _ (L : Libs) (P : World L.File → Type 0) where
  pub After-open_entry :
      (p : Text) (dbuid dbgid : ℕ) (w : World L.File) → P w → After P (open_entry L p dbuid dbgid w)
  unfolding open_entry
  After-open_entry p dbuid dbgid w q = elim (Option-cases (lookup p w.db)) [
    | inl absent ↦ rw (absent, open_entry) (record { holds = q })
    | inr (f, found) ↦ rw (found, open_entry) (record { holds = q })
  ]

module _ (L : Libs) (h : Host) where
  -- The three changes of the file at `p` keep `Q`.
  pub record KeepsAt (Q : Files L.File) (p : Text) : Type 0 where
    pub stores :
        (e : WsDb) (db : Dict (DbFile L.File)) (dirs : Dict Dir) (euid egid : ℕ)
        → e.dbfilename ≡ p
        → Q db dirs
        → Q (store_entry L h e euid egid db) dirs
    pub chmods :
        (e : WsDb) (db : Dict (DbFile L.File)) (dirs : Dict Dir)
        → e.dbfilename ≡ p
        → Q db dirs
        → Q (chmod_entry L h e db) dirs
    pub chowns :
        (e : WsDb) (db : Dict (DbFile L.File)) (dirs : Dict Dir)
        → e.dbfilename ≡ p
        → Q db dirs
        → Q (chown_entry L h e db) dirs

  -- The three changes of the file that writing the entry `e` makes keep `Q`.
  pub record KeepsEntry (Q : Files L.File) (e : WsDb) : Type 0 where
    pub stored :
        (db : Dict (DbFile L.File)) (dirs : Dict Dir) (euid egid : ℕ)
        → Q db dirs
        → Q (store_entry L h e euid egid db) dirs
    pub chmoded :
        (db : Dict (DbFile L.File)) (dirs : Dict Dir) → Q db dirs → Q (chmod_entry L h e db) dirs
    pub chowned :
        (db : Dict (DbFile L.File)) (dirs : Dict Dir) → Q db dirs → Q (chown_entry L h e db) dirs

  module _ (Q : Files L.File) where
    abbrev P : World L.File → Type 0
    P = OnFiles Q

    module _ (e : WsDb) (k : KeepsEntry Q e) where
      After-give_entry : (w : World L.File) → P w → After P (give_entry L h e w)
      unfolding give_entry
      After-give_entry w q =
          search (After-continue P, After-end P, After-raise_cap Q, After-lower_cap Q, k.chowned)
            depth 30

      -- A process that may not write stores nothing.
      stored_if :
          (b : Bool) (db : Dict (DbFile L.File)) (dirs : Dict Dir) (euid egid : ℕ)
          → Q db dirs
          → Q (if b then store_entry L h e euid egid db else db) dirs
      stored_if true db dirs euid egid q = k.stored db dirs euid egid q
      stored_if false db dirs euid egid q = q

      pub After-write_entry : (w : World L.File) → P w → After P (write_dbfile L h e w)
      unfolding write_dbfile
      After-write_entry w q =
          search
            (
              After-continue P,
              After-end P,
              After-if P,
              After-raise_cap Q,
              After-lower_cap Q,
              After-become_db_user Q,
              After-become_root Q,
              After-give_entry,
              stored_if,
              k.chmoded,
            )
            depth 60

    pub After-write_dbfile :
        (p : Text)
        → KeepsAt Q p
        → (e : WsDb) → e.dbfilename ≡ p
        → (w : World L.File) → P w
        → After P (write_dbfile L h e w)
    After-write_dbfile p k e same = After-write_entry e (record {
      stored = λ db dirs euid egid. k.stores e db dirs euid egid same;
      chmoded = λ db dirs. k.chmods e db dirs same;
      chowned = λ db dirs. k.chowns e db dirs same;
    })

  -- Writing an entry at `p` keeps `P`.
  abbrev pub Writes : (World L.File → Type 0) → Text → Type 0
  Writes P p =
      (e : WsDb) (w : World L.File) → e.dbfilename ≡ p → P w → After P (write_dbfile L h e w)

  module _ (P : World L.File → Type 0) (p : Text) (k : Writes P p) (e : WsDb)
      (same : e.dbfilename ≡ p) where
    pub After-create_entry : (w : World L.File) → P w → After P (create_entry L h e w)
    unfolding create_entry
    After-create_entry w q = search (After-continue P, After-end P, k) depth 20

    pub After-use_extension :
        (expiration reminder : ℤ) (mailaddress comment : Text) (w : World L.File)
        → P w
        → After P (use_extension L h e expiration mailaddress reminder comment w)
    unfolding use_extension update_notes
    After-use_extension expiration reminder mailaddress comment w q =
        search (After-continue P, After-end P, k) depth 20

module _ (L : Libs) (p : Text) (dbuid dbgid : ℕ) where
  parse_entry_named :
      (n : L.Node) (e : WsDb) → parse_entry L p dbuid dbgid n ≡ some e → e.dbfilename ≡ p
  unfolding parse_entry
  parse_entry_named n e h = ground arith

  parse_old_named : (t : Text) (e : WsDb) → parse_old L p dbuid dbgid t ≡ ok e → e.dbfilename ≡ p
  unfolding parse_old
  parse_old_named t e h = ground arith

  read_dbfile_named :
      (f : L.File) (e : WsDb) → read_dbfile L p dbuid dbgid f ≡ ok e → e.dbfilename ≡ p
  unfolding read_dbfile
  read_dbfile_named f e h = grind (arith, parse_entry_named, parse_old_named)

  -- An entry that is opened knows the file that it stands in.
  pub open_entry_named :
      (e : WsDb) (w w' : World L.File)
      → open_entry L p dbuid dbgid w ≡ (ok e, w')
      → e.dbfilename ≡ p
  unfolding open_entry
  open_entry_named e w w' h = grind (arith, read_dbfile_named)

-- Opening an entry and going on with it: it stands in the file that was opened.
pub After-with_entry :
    {A : Type 0} (L : Libs) (P : World L.File → Type 0) (p : Text) (dbuid dbgid : ℕ)
    (f : WsDb → M L.File A) (w : World L.File)
    → P w
    → ((e : WsDb) (v : World L.File) → e.dbfilename ≡ p → P v → After P (f e v))
    → After P (continue (open_entry L p dbuid dbgid w) f)
After-with_entry L P p dbuid dbgid f w q go = elim (Result-cases (open_entry L p dbuid dbgid w)) [
  | inl (e, v, h) ↦
      rw (h, continue)
        (go e v (open_entry_named L p dbuid dbgid e w v h)
          (rw h at (After-open_entry L P p dbuid dbgid w q).holds))
  | inr (e, v, h) ↦
      rw (h, continue) (record { holds = rw h at (After-open_entry L P p dbuid dbgid w q).holds })
]
