-- ===== src/Tests/Extend.antt =====
-- The witness for an extension.
use hpc_workspace.Base.{false, true, ◌≡◌, refl, [], ◌∷◌}
use hpc_workspace.Base.Int.{pos, ◌-ℤ◌}
use hpc_workspace.Base.Text.{Text, codes, text_eq}
use hpc_workspace.Base.Dict.{Dict, lookup}
use hpc_workspace.World.{DbFile, ok}
use hpc_workspace.World.Caps.{idle, allocate_caps}
use hpc_workspace.Config.{config_duration}
use hpc_workspace.Access.{clamp_duration}
use hpc_workspace.Names.{join_path, entry_name}
use hpc_workspace.Workspace.{entry_file, expiration_after}
use hpc_workspace.Db.{entry_node, update_notes, consumes}
use hpc_workspace.Db.Written.{Holds, open_entry-Holds}
use hpc_workspace.Allocate.{Request, allocate, search_list, entry_user}
use hpc_workspace.Allocate.Extend.{CanExtend, extension_report, longer, allocate-extends}
use hpc_workspace.Tests.{Node, libs, libs-IsLawful, host, fs_name, workspace, entry}
use hpc_workspace.Tests.Allocate.{request}
use hpc_workspace.Tests.Db.{entry-IsRanged}
use hpc_workspace.Tests.Release.{file_of}

-- `ws_allocate -x -F fs w 7`
abbrev extending : Request
extending = record request { extensionflag = true }

abbrev db : Dict (DbFile Node)
db = (codes "/db/bob-w", file_of entry) ∷ []

db-CanExtend :
    CanExtend libs host workspace extending fs_name
      (codes "/db/bob-w")
      (pos 30)
      entry
      db
      []
      1001
      100
unfolding search_list entry_file entry_user lookup text_eq join_path entry_name config_duration
    clamp_duration expiration_after update_notes consumes ◌-ℤ◌
db-CanExtend = record {
  build = refl;
  asked = refl;
  own = refl;
  given = refl;
  extendable = refl;
  limited = refl;
  left = refl;
  opened =
      open_entry-Holds libs host entry (idle allocate_caps db [] 1001 100) libs-IsLawful
        entry-IsRanged (file_of entry, refl, refl);
  named = refl;
  before = [];
  rest = [];
  searched = refl;
  lacking = tt;
  found = (refl, refl);
}

allocate-extends_example :
    (db' : Dict (DbFile Node)) × (allocate libs host workspace extending
        (idle allocate_caps db [] 1001 100)
      ≡ (
        ok (
            extension_report libs host workspace extending fs_name
              (codes "/db/bob-w")
              (pos 30)
              entry),
        idle allocate_caps db' [] 1001 100,
      ))
    × Holds
        (codes "/db/bob-w")
        (libs.emit (
          entry_node libs
            (longer libs host workspace extending fs_name (codes "/db/bob-w") (pos 30) entry)))
        db'
    × ((q : Text) → text_eq (codes "/db/bob-w") q ≡ false → lookup q db' ≡ lookup q db)
allocate-extends_example =
    allocate-extends libs host workspace extending fs_name (codes "/db/bob-w") (pos 30) entry db []
      1001 100 db-CanExtend refl
