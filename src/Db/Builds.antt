-- ===== src/Db/Builds.antt =====
-- Reading and writing an entry (src/wsdb.cpp) in the two builds.
use mathlib.Core.Path.{subst, subst⁻¹}
use hpc_workspace.Base.{if◌then◌else◌, ◌||◌, Option-cases, ℕ, ◌≡◌, refl, some, inl, inr, Bool-cases}
use hpc_workspace.Base.Text.{Text, text_eq, text_eq→eq}
use hpc_workspace.Base.Dict.{Dict, lookup, lookup-insert}
use hpc_workspace.World.{Host, Libs, World, DbFile, CapSet, ok}
use hpc_workspace.World.Caps.{
  idle, allocate_caps, raise_cap, lower_cap, become_db_user, become_root,
}
use hpc_workspace.World.Caps.Steps.{caps_host, setuid_host}
use hpc_workspace.World.Builds.{
  db_user-may_write, shown, SameFiles, Beside, beside, Alike, Alike-end,
}
use hpc_workspace.World.Builds.Files.{same_cases, insert-SameFiles}
use hpc_workspace.Db.{
  WsDb, open_entry, store_entry, chmod_entry, chown_entry, give_entry, write_dbfile,
}

module _ (L : Libs) (h : Host) (e : WsDb) (db db' : Dict (DbFile L.File))
    (same : SameFiles db db') where
  stored :
      (u g u' g' : ℕ)
      → SameFiles (store_entry L (caps_host h) e u g db) (store_entry L (setuid_host h) e u' g' db')
  unfolding store_entry
  stored u g u' g' = elim (Bool-cases (h.write_ok e.dbfilename || h.open_ok e.dbfilename)) [
    | inr kept ↦ rw (kept, store_entry) same
    | inl written ↦ elim (same_cases db db' e.dbfilename same) [
      | inl (gone, gone') ↦
          rw (written, gone, gone', store_entry)
            (insert-SameFiles db db' e.dbfilename same _ _ (refl, refl))
      | inr (f, f', there, there', (content, mode)) ↦
          rw (written, there, there', store_entry)
            (insert-SameFiles db db' e.dbfilename same _ _ (refl, mode))
    ]
  ]

  chmoded : SameFiles (chmod_entry L (caps_host h) e db) (chmod_entry L (setuid_host h) e db')
  unfolding chmod_entry
  chmoded = elim (same_cases db db' e.dbfilename same) [
    | inl (gone, gone') ↦ rw (gone, gone', chmod_entry) same
    | inr (f, f', there, there', (content, mode)) ↦ elim (Bool-cases (h.chmod_ok e.dbfilename)) [
      | inl changed ↦
          rw (there, there', changed, chmod_entry)
            (insert-SameFiles db db' e.dbfilename same _ _ (content, refl))
      | inr kept ↦ rw (there, there', kept, chmod_entry) same
    ]
  ]

  -- The change of the owner shows nothing.
  chowned : SameFiles (chown_entry L (caps_host h) e db) db'
  unfolding chown_entry
  chowned q = elim (Option-cases (lookup e.dbfilename db)) [
    | inl gone ↦ rw (gone, chown_entry) (same q)
    | inr (f, there) ↦ elim (Bool-cases (h.chown_ok e.dbfilename)) [
      | inr kept ↦ rw (there, kept, chown_entry) (same q)
      | inl changed ↦ elim (Bool-cases (text_eq e.dbfilename q)) [
        | inl at ↦
            let here : shown (some f) ≡ shown (lookup q db') =
              subst (λ z. shown (some f) ≡ shown (lookup z db')) (text_eq→eq e.dbfilename q at)
                (rw there at (same e.dbfilename)) in
            rw (there, changed, chown_entry)
              (rw
                (
                  lookup-insert e.dbfilename q (record f { owner = e.dbuid; group = e.dbgid }) db,
                  at,
                )
                here)
        | inr other ↦
            rw (there, changed, chown_entry)
              (rw
                (
                  lookup-insert e.dbfilename q (record f { owner = e.dbuid; group = e.dbgid }) db,
                  other,
                )
                (same q))
      ]
    ]
  ]

module _ (L : Libs) (h : Host) where
  -- Opening an entry.
  pub Alike-open_entry :
      (caps : CapSet) (p : Text) (dbuid dbgid : ℕ) (w w' : World L.File)
      → Beside caps w w'
      → Alike caps (open_entry L p dbuid dbgid w) (open_entry L p dbuid dbgid w')
  unfolding open_entry
  Alike-open_entry caps p dbuid dbgid w w' (beside db db' dirs u g u' g' c c' same) =
      elim (same_cases db db' p same) [
        | inl (gone, gone') ↦
            rw (gone, gone', open_entry)
              (Alike-end caps _ _ _ (beside db db' dirs u g u' g' c c' same))
        | inr (f, f', there, there', (content, mode)) ↦
            rw (there, there', content, open_entry)
              (Alike-end caps _ _ _ (beside db db' dirs u g u' g' c c' same))
      ]

  -- Writing an entry.
  pub Alike-write_dbfile :
      (e : WsDb) (w w' : World L.File)
      → Beside allocate_caps w w'
      → Alike allocate_caps (write_dbfile L (caps_host h) e w) (write_dbfile L (setuid_host h) e w')
  unfolding write_dbfile give_entry raise_cap lower_cap become_db_user become_root
  Alike-write_dbfile e w w' (beside db db' dirs u g u' g' c c' same) =
      subst⁻¹
        (λ b. Alike allocate_caps (write_dbfile L (caps_host h) e w) (
          ok tt,
          record w' {
            db =
                chmod_entry L (setuid_host h) e
                  (if b then store_entry L (setuid_host h) e e.dbuid e.dbgid db' else db');
            euid = e.dbuid;
            egid = 0;
          },
        ))
        (db_user-may_write h e.dbuid)
        (Alike-end allocate_caps (ok tt)
          (idle allocate_caps
            (chown_entry L (caps_host h) e
              (chmod_entry L (caps_host h) e (store_entry L (caps_host h) e u g db)))
            dirs u g)
          _
          (beside _
            (chmod_entry L (setuid_host h) e (store_entry L (setuid_host h) e e.dbuid e.dbgid db'))
            dirs u g e.dbuid 0 c c'
            (chowned L h e _ _ (chmoded L h e _ _ (stored L h e db db' same u g e.dbuid e.dbgid)))))
