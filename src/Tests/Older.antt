-- ===== src/Tests/Older.antt =====
-- The witness for the release of the older tools.
use hpc_workspace.Base.{◌≡◌, refl, false, some}
use hpc_workspace.Base.Text.{Text, codes, text_eq, has_char}
use hpc_workspace.Base.Dict.{Dict, lookup, insert}
use hpc_workspace.World.{DbFile, Dir, Result}
use hpc_workspace.World.Caps.{idle, allocate_caps}
use hpc_workspace.Names.{join_path, entry_name}
use hpc_workspace.Db.{entry_node}
use hpc_workspace.Db.Written.{Holds}
use hpc_workspace.Release
use hpc_workspace.Release.{full_name, stamped, deleted_path, released_entry}
use hpc_workspace.Old.{OldDb, read_dbfile, parse_entry}
use hpc_workspace.Old.Release.{release}
use hpc_workspace.Old.Same.{release_caps, release-agrees}
use hpc_workspace.Tests.{Node, libs, host, workspace, entry}
use hpc_workspace.Tests.Release.{db, dirs, file_of, workspace-CanRelease}

-- What the older tools read of the entry.
abbrev older : OldDb
older = record {
  wsdir = entry.wsdir;
  expiration = entry.expiration;
  extensions = entry.extensions;
  acctcode = entry.acctcode;
}

release-agrees_example :
    (old' db' : Dict (DbFile Node)) × (dirs' : Dict Dir) × (answer : Result (Unit {0})) × (release
        libs host workspace.config workspace.filesystem workspace.username
        (codes "w")
        (idle release_caps db dirs 1001 100)
      ≡ (answer, idle release_caps old' dirs' 1001 100))
    × (Release.release libs host workspace (codes "w") (idle allocate_caps db dirs 1001 100)
        ≡ (answer, idle allocate_caps db' dirs' 1001 100))
    × ((q : Text) → text_eq (codes "/db/old/bob-w-0") q ≡ false → lookup q old' ≡ lookup q db')
    × (lookup (codes "/db/old/bob-w-0") old' ≡ some (file_of entry))
    × Holds
        (codes "/db/old/bob-w-0")
        (libs.emit (entry_node libs (released_entry libs host workspace (codes "w") entry)))
        db'
unfolding full_name stamped deleted_path join_path entry_name lookup text_eq read_dbfile parse_entry
    entry_node insert has_char
release-agrees_example =
    release-agrees libs host workspace (codes "w") (codes "/db") (codes "old") entry older db dirs
      1001 100 (file_of entry) workspace-CanRelease refl refl refl refl
