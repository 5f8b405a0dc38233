-- ===== src/Allocate/Paid.antt =====
-- What a user other than root can make of an entry with `use_extension` (src/wsdb.cpp), however the
-- call ends.
use mathlib.Core.Path.{subst, subst⁻¹}
use hpc_workspace.Base.{ℕ, ◌||◌, true, ◌≡◌, refl, ◌∙◌, false, ◌==◌, arith, Bool-cases, inl, inr}
use hpc_workspace.Base.Int.{ℤ, pos, ◌≤ℤ◌, ◌<ℤ◌, ◌-ℤ◌, ltb_ℤ, IsInt}
use hpc_workspace.Base.Text.{Text, text_eq}
use hpc_workspace.Base.Dict.{Dict, lookup}
use hpc_workspace.World.{Host, Libs, IsLawful, IsLong, World, DbFile, ok, continue}
use hpc_workspace.World.After.{After, After-continue, After-end}
use hpc_workspace.World.After.Files.{Files, OnFiles}
use hpc_workspace.Db.{
  WsDb, entry_node, open_entry, store_entry, update_notes, consumes, use_extension, write_dbfile,
}
use hpc_workspace.Db.After.{Writes, After-write_entry}
use hpc_workspace.Db.RoundTrip.{IsRanged}
use hpc_workspace.Db.Written.{
  Holds, open_entry-Holds, store_entry-Holds, chmod_entry-Holds, chown_entry-Holds,
  store_entry-others, chmod_entry-others, chown_entry-others,
}
use hpc_workspace.Allocate.Extend.{extended}

-- No write fails after the file was opened.
abbrev pub IsWhole : Host → Type 0
IsWhole h = (p : Text) → (h.write_ok p || h.open_ok p) ≡ true → h.write_ok p ≡ true

-- What extensions have made of the entry `e0`: it names the same directory, extensions have not
-- been added nor overdrawn, and a later expiration has been paid.
pub record IsPaid (e0 e : WsDb) : Type 0 where
  pub same_dir : e.wsdir ≡ e0.wsdir
  pub left : pos 0 ≤ℤ e.extensions
  pub no_more : e.extensions ≤ℤ e0.extensions
  pub paid : e0.expiration <ℤ e.expiration → e.extensions <ℤ e0.extensions

pub IsPaid-trans : (a b c : WsDb) → IsPaid a b → IsPaid b c → IsPaid a c
IsPaid-trans a b c p q = record {
  same_dir = q.same_dir ∙ p.same_dir;
  left = q.left;
  no_more = ground (arith, p.no_more, q.no_more);
  paid = λ later. ground (arith, p.no_more, q.no_more, p.paid, q.paid);
}

module _ (L : Libs) (h : Host) (e : WsDb) (expiration : ℤ) (mail : Text) (reminder : ℤ)
    (comment : Text) (mortal : (h.uid == 0) ≡ false) where
  abbrev e' : WsDb
  e' = extended L h e expiration mail reminder comment

  extended-IsPaid : pos 0 ≤ℤ e.extensions → ltb_ℤ e'.extensions (pos 0) ≡ false → IsPaid e e'
  unfolding update_notes consumes ◌-ℤ◌
  extended-IsPaid left enough = record {
    same_dir = refl;
    left = ground arith;
    no_more = ground arith;
    paid = λ later. ground arith;
  }

  extended-IsRanged :
      IsRanged e
      → pos 0 ≤ℤ e.extensions
      → ltb_ℤ e'.extensions (pos 0) ≡ false
      → IsLong expiration
      → IsInt reminder
      → IsRanged e'
  unfolding update_notes consumes ◌-ℤ◌
  extended-IsRanged fits left enough long int = record {
    expiration_fits = ground (arith, fits.expiration_fits);
    extensions_fits = ground (arith, fits.extensions_fits);
    reminder_fits = ground (arith, fits.reminder_fits);
  }

-- The file at `p` holds an entry that extensions have made of `e0`.
pub record HoldsPaid (L : Libs) (e0 : WsDb) (p : Text) (db : Dict (DbFile L.File)) : Type 0 where
  pub entry : WsDb
  pub stored : Holds p (L.emit (entry_node L entry)) db
  pub fits : IsRanged entry
  pub is_paid : IsPaid e0 entry

module _ (L : Libs) (e0 : WsDb) (p : Text) where
  abbrev Q : Files L.File
  Q db dirs = HoldsPaid L e0 p db

  same_file :
      (db db' : Dict (DbFile L.File))
      → lookup p db' ≡ lookup p db
      → HoldsPaid L e0 p db
      → HoldsPaid L e0 p db'
  same_file db db' same k =
      let (f, found, content) = k.stored in
      record {
        entry = k.entry;
        stored = (f, same ∙ found, content);
        fits = k.fits;
        is_paid = k.is_paid;
      }

  module _ (h : Host) where
    -- A write of another file.
    pub Writes-other : (q : Text) → text_eq q p ≡ false → Writes L h (OnFiles Q) q
    Writes-other q apart e w named k =
        let other : text_eq e.dbfilename p ≡ false = rw named apart in
        After-write_entry L h Q e
          (record {
            stored =
                λ db dirs euid egid. same_file db _ (store_entry-others L h e db euid egid p other);
            chmoded = λ db dirs. same_file db _ (chmod_entry-others L h e db p other);
            chowned = λ db dirs. same_file db _ (chown_entry-others L h e db p other);
          })
          w k

    module _ (e : WsDb) (named : e.dbfilename ≡ p) (whole : IsWhole h) where
      still_holds :
          (db db' : Dict (DbFile L.File))
          → ((c : L.File) → Holds e.dbfilename c db → Holds e.dbfilename c db')
          → HoldsPaid L e0 p db
          → HoldsPaid L e0 p db'
      still_holds db db' kept k = record {
        entry = k.entry;
        stored =
            let c = L.emit (entry_node L k.entry) in
            subst (λ q. Holds q c db') named (kept c (subst⁻¹ (λ q. Holds q c db) named k.stored));
        fits = k.fits;
        is_paid = k.is_paid;
      }

      store_entry-HoldsPaid :
          (db : Dict (DbFile L.File)) (euid egid : ℕ)
          → IsRanged e
          → IsPaid e0 e
          → HoldsPaid L e0 p db
          → HoldsPaid L e0 p (store_entry L h e euid egid db)
      unfolding store_entry
      store_entry-HoldsPaid db euid egid fits paid k =
          elim (Bool-cases (h.write_ok e.dbfilename || h.open_ok e.dbfilename)) [
            | inl opened ↦ record {
              entry = e;
              stored =
                  subst (λ q. Holds q (L.emit (entry_node L e)) (store_entry L h e euid egid db))
                    named (store_entry-Holds L h e db euid egid (whole e.dbfilename opened));
              fits = fits;
              is_paid = paid;
            }
            | inr kept ↦ rw (kept, store_entry) k
          ]

      -- A write of the file itself.
      pub After-paid_entry :
          (w : World L.File)
          → IsRanged e
          → IsPaid e0 e
          → HoldsPaid L e0 p w.db
          → After (OnFiles Q) (write_dbfile L h e w)
      After-paid_entry w fits paid k =
          After-write_entry L h Q e
            (record {
              stored = λ db dirs euid egid. store_entry-HoldsPaid db euid egid fits paid;
              chmoded = λ db dirs. still_holds db _ (chmod_entry-Holds L h e db);
              chowned = λ db dirs. still_holds db _ (chown_entry-Holds L h e db);
            })
            w k

    -- Opening the file gives what it holds.
    pub open_entry-HoldsPaid :
        (dbuid dbgid : ℕ) (w : World L.File)
        → IsLawful L
        → HoldsPaid L e0 p w.db
        → (e : WsDb) × (open_entry L p dbuid dbgid w ≡ (ok e, w))
          × (e.dbfilename ≡ p)
          × IsRanged e
          × IsPaid e0 e
    unfolding entry_node
    open_entry-HoldsPaid dbuid dbgid w law k =
        let e : WsDb = record k.entry { dbfilename = p; dbuid = dbuid; dbgid = dbgid } in
        let fits : IsRanged e = record {
          expiration_fits = k.fits.expiration_fits;
          extensions_fits = k.fits.extensions_fits;
          reminder_fits = k.fits.reminder_fits;
        } in
        (
          record e { released = pos 0 },
          open_entry-Holds L h e w law fits k.stored,
          refl,
          record {
            expiration_fits = k.fits.expiration_fits;
            extensions_fits = k.fits.extensions_fits;
            reminder_fits = k.fits.reminder_fits;
          },
          record {
            same_dir = k.is_paid.same_dir;
            left = k.is_paid.left;
            no_more = k.is_paid.no_more;
            paid = k.is_paid.paid;
          },
        )

    -- An extension of the entry that the file holds, however it ends.
    pub After-use_paid :
        (e : WsDb) (expiration : ℤ) (mail : Text) (reminder : ℤ) (comment : Text) (w : World L.File)
        → (h.uid == 0) ≡ false
        → IsWhole h
        → e.dbfilename ≡ p
        → IsRanged e
        → IsPaid e0 e
        → IsLong expiration
        → IsInt reminder
        → HoldsPaid L e0 p w.db
        → After (OnFiles Q) (use_extension L h e expiration mail reminder comment w)
    unfolding use_extension
    After-use_paid e expiration mail reminder comment w mortal whole named fits paid long int k =
        let e' = extended L h e expiration mail reminder comment in
        elim (Bool-cases (ltb_ℤ e'.extensions (pos 0))) [
          | inl overdrawn ↦ rw (overdrawn, mortal, use_extension, continue) (record { holds = k })
          | inr enough ↦
              let after : After (OnFiles Q) (write_dbfile L h e' w) =
                After-paid_entry e' named whole w
                  (extended-IsRanged L h e expiration mail reminder comment mortal fits paid.left
                    enough long int)
                  (IsPaid-trans e0 e e' paid (
                    extended-IsPaid L h e expiration mail reminder comment mortal paid.left enough))
                  k in
              rw (enough, use_extension, continue)
                (After-continue (OnFiles Q) _ _ after (λ u v. After-end (OnFiles Q) (ok e') v))
        ]
