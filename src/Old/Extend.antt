-- ===== src/Old/Extend.antt =====
-- The extension of an entry by old/ws_allocate.cpp, in the capabilities build.
use hpc_workspace.Base.{ℕ, ◌≡◌, ap, true, false, ◌==◌, if◌then◌else◌}
use hpc_workspace.Base.Int.{ℤ, pos, ◌-ℤ◌, ltb_ℤ}
use hpc_workspace.Base.Text.{Text, is_empty}
use hpc_workspace.Base.Dict.{Dict}
use hpc_workspace.World.{Host, Libs, DbFile, Dir, ok, continue, pure}
use hpc_workspace.World.Caps.{idle}
use hpc_workspace.Config.{Config}
use hpc_workspace.Workspace.{expiration_after}
use hpc_workspace.Db.Written.{Holds}
use hpc_workspace.Old.{OldDb, old_caps, entry_node, store_file, chown_file, read_dbfile}
use hpc_workspace.Old.Written.{write_dbfile_lem, written-Holds}
use hpc_workspace.Old.Access.{Validated}
use hpc_workspace.Old.Allocate.{AllocateOptions, Arguments, use_entry, write_entry}

module _ (L : Libs) (h : Host) (config : Config) (o : AllocateOptions) (a : Arguments)
    (v : Validated) (username filename : Text) (e : OldDb) where
  -- What is left of the extensions; root does not use one.
  abbrev pub left : ℤ
  left = if h.uid == 0 then e.extensions else e.extensions -ℤ pos 1

  abbrev pub extended : OldDb
  extended = record e { extensions = left; expiration = expiration_after h 0 v.duration }

  write_entry_lem :
      (new : OldDb) (db : Dict (DbFile L.File)) (dirs : Dict Dir) (euid egid : ℕ)
      → h.setuid_build ≡ false
      → let e' : OldDb = record new { expiration = expiration_after h 0 v.duration } in
        write_entry L h config o a v username 0 filename new (idle old_caps db dirs euid egid) ≡ (
          ok e',
          idle old_caps
              (chown_file L h filename config.dbuid config.dbgid
                (store_file L h filename (entry_node L e' a.reminder a.mailaddress) euid egid db))
              dirs
              euid
              egid,
        )
  unfolding write_entry
  write_entry_lem new db dirs euid egid build =
      let e' : OldDb = record new { expiration = expiration_after h 0 v.duration } in
      ap (λ z. continue z (λ x. pure e'))
        (write_dbfile_lem L h e' a.reminder a.mailaddress filename config.dbuid config.dbgid db dirs
          euid egid build)

  -- In the capabilities build, with -x and without -u, if the entry can be read and written and an
  -- extension is left: the entry is written with one extension less, but for root, and with the new
  -- expiration; its reminder and its mail address become those of the command line, whatever they
  -- were before.
  pub use_entry-forgets :
      (db : Dict (DbFile L.File)) (dirs : Dict Dir) (euid egid : ℕ)
      → h.setuid_build ≡ false
      → o.extension ≡ true
      → is_empty o.user ≡ true
      → ltb_ℤ left (pos 0) ≡ false
      → h.write_ok filename ≡ true
      → read_dbfile L filename (idle old_caps db dirs euid egid)
        ≡ (ok e, idle old_caps db dirs euid egid)
      → (db' : Dict (DbFile L.File)) × (use_entry L h config o a v username filename
            (idle old_caps db dirs euid egid)
          ≡ (ok extended, idle old_caps db' dirs euid egid))
        × Holds filename (L.emit (entry_node L extended a.reminder a.mailaddress)) db'
  unfolding use_entry
  use_entry-forgets db dirs euid egid build extends alone enough written reads = (
    _,
    rw (reads, use_entry, extends, alone, continue)
        (rw (enough, continue)
          (write_entry_lem (record e { extensions = left }) db dirs euid egid build)),
    written-Holds L h extended a.reminder a.mailaddress filename config.dbuid config.dbgid db euid
        egid written,
  )
