-- ===== src/Tests/Restore.antt =====
-- Witnesses for Restore.
use hpc_workspace.Base.{◌≡◌, refl, false, [], ◌∷◌}
use hpc_workspace.Base.Text.{Text, codes, text_eq, has_char}
use hpc_workspace.Base.Dict.{Dict, lookup, erase}
use hpc_workspace.World.{Host, DbFile, Dir, ok, rename_failed, cross_device}
use hpc_workspace.World.Caps.{idle, restore_caps}
use hpc_workspace.Names.{join_path, entry_name}
use hpc_workspace.Db.{WsDb}
use hpc_workspace.Db.Written.{open_entry-Holds}
use hpc_workspace.Restore.{Ending, restored, restore}
use hpc_workspace.Restore.Ends.{CanRestore, IsEnded, restore-ends, restore-no_child}
use hpc_workspace.Tests.{Node, libs, libs-IsLawful, host, workspace, entry}
use hpc_workspace.Tests.Db.{entry-IsRanged}
use hpc_workspace.Tests.Release.{file_of, dir}

-- The entry of the released workspace, and that of the target.
abbrev old_file : Text
old_file = codes "/db/old/bob-w-7"

abbrev old_entry : WsDb
old_entry = record entry { dbfilename = old_file }

abbrev pub target_entry : WsDb
target_entry = record entry { dbfilename = codes "/db/bob-t"; wsdir = codes "/ws/bob-t" }

abbrev pub two_entries : Dict (DbFile Node)
two_entries = (old_file, file_of old_entry) ∷ (codes "/db/bob-t", file_of target_entry) ∷ []

abbrev pub two_dirs : Dict Dir
two_dirs = (codes "/ws/old/bob-w-7", dir) ∷ (codes "/ws/bob-t", dir) ∷ []

abbrev stuck_host : Host
stuck_host = record host { rename_answer = λ p q. rename_failed }

abbrev other_fs_host : Host
other_fs_host = record host { rename_answer = λ p q. cross_device }

module _ (h : Host) where
  can_restore :
      h.setuid_build ≡ false
      → CanRestore libs h workspace
          (codes "bob-w-7")
          (codes "t")
          (codes "bob")
          (codes "/db")
          (codes "old")
          old_entry
          target_entry
          two_entries
  unfolding join_path entry_name lookup text_eq has_char
  can_restore build = record {
    build = build;
    database_set = refl;
    deleted_set = refl;
    restorable = refl;
    target_found = refl;
    target_opened = λ dirs euid egid.
        open_entry-Holds libs h target_entry (idle restore_caps two_entries dirs euid egid)
          libs-IsLawful
          (record {
            expiration_fits = entry-IsRanged.expiration_fits;
            extensions_fits = entry-IsRanged.extensions_fits;
            reminder_fits = entry-IsRanged.reminder_fits;
          })
          (file_of target_entry, refl, refl);
    found = refl;
    opened = λ dirs euid egid.
        open_entry-Holds libs h old_entry (idle restore_caps two_entries dirs euid egid)
          libs-IsLawful
          (record {
            expiration_fits = entry-IsRanged.expiration_fits;
            extensions_fits = entry-IsRanged.extensions_fits;
            reminder_fits = entry-IsRanged.reminder_fits;
          })
          (file_of old_entry, refl, refl);
  }

restore-ends_example :
    (end : Ending) × (db' : Dict (DbFile Node)) × (dirs' : Dict Dir) × (restore libs host workspace
        (codes "bob-w-7")
        (codes "t")
        (codes "bob")
        (idle restore_caps two_entries two_dirs 1001 100)
      ≡ (ok end, idle restore_caps db' dirs' 1001 100))
    × IsEnded libs host workspace
        (codes "bob-w-7")
        (codes "t")
        (codes "bob")
        (codes "/db")
        (codes "old")
        old_entry
        target_entry
        dir
        two_entries
        db'
        two_dirs
        dirs'
        end
unfolding join_path entry_name has_char lookup text_eq
restore-ends_example =
    restore-ends libs host workspace (codes "bob-w-7") (codes "t") (codes "bob") (codes "/db")
      (codes "old") old_entry target_entry two_entries two_dirs dir refl refl 1001 100
      (can_restore host refl)

restore-no_child_example :
    restore libs other_fs_host workspace
      (codes "bob-w-7")
      (codes "t")
      (codes "bob")
      (idle restore_caps two_entries two_dirs 1001 100)
    ≡ (ok restored, idle restore_caps (erase old_file two_entries) two_dirs 1001 100)
unfolding join_path entry_name lookup text_eq has_char
restore-no_child_example =
    restore-no_child libs other_fs_host workspace (codes "bob-w-7") (codes "t") (codes "bob")
      (codes "/db") (codes "old") old_entry target_entry two_entries two_dirs 1001 100 dir
      (can_restore other_fs_host refl) refl refl refl refl
