-- ===== src/Tests/Release.antt =====
-- Witnesses for Release.
use hpc_workspace.Base.{true, false, ◌≡◌, refl, [], ◌∷◌, if◌then◌else◌}
use hpc_workspace.Base.Text.{codes, text_eq, has_char}
use hpc_workspace.Base.Dict.{Dict, lookup}
use hpc_workspace.World.{Host, DbFile, Dir, ok, err, ws_not_removed, cross_device}
use hpc_workspace.World.Caps.{idle, allocate_caps}
use hpc_workspace.Names.{join_path, entry_name}
use hpc_workspace.Db.{WsDb, entry_node}
use hpc_workspace.Db.Written.{open_entry-Holds}
use hpc_workspace.Release.{full_name, stamped, deleted_path, move_dir, release}
use hpc_workspace.Workspace.{Workspace}
use hpc_workspace.Tests.{opts}
use hpc_workspace.Release.Moved.{CanRelease, IsMoved, dir_target, release_lem, release-no_child}
use hpc_workspace.Tests.{Node, libs, libs-IsLawful, host, workspace, entry}
use hpc_workspace.Tests.Db.{entry-IsRanged}

abbrev pub file_of : WsDb → DbFile Node
file_of e = record { content = entry_node libs e; mode = 0o644; owner = 900; group = 901 }

abbrev pub dir : Dir
dir = record { owner = 1001; group = 100; mode = 0o700; files = codes "data" ∷ [] }

abbrev pub db : Dict (DbFile Node)
db = (codes "/db/bob-w", file_of entry) ∷ []

abbrev pub dirs : Dict Dir
dirs = (codes "/ws/bob-w", dir) ∷ []

-- Every rename ends with another file system, and no child can be forked.
abbrev far_host : Host
far_host = record host {
  rename_answer =
      λ p q. if text_eq p (codes "/db/bob-w") then host.rename_answer p q else cross_device;
}

pub workspace-CanRelease :
    CanRelease libs host workspace (codes "w") (codes "/db") (codes "old") entry false db
unfolding full_name stamped deleted_path join_path entry_name lookup text_eq has_char
workspace-CanRelease = record {
  build = refl;
  database_set = refl;
  deleted_set = refl;
  found = refl;
  opened = λ dirs euid egid.
      open_entry-Holds libs host entry (idle allocate_caps db dirs euid egid) libs-IsLawful
        entry-IsRanged (file_of entry, refl, refl);
  named = refl;
  written = refl;
  moved = refl;
  apart = refl;
  option = refl;
}

far-CanRelease :
    CanRelease libs far_host workspace (codes "w") (codes "/db") (codes "old") entry false db
unfolding full_name stamped deleted_path join_path entry_name lookup text_eq has_char
far-CanRelease = record {
  build = refl;
  database_set = refl;
  deleted_set = refl;
  found = refl;
  opened = λ dirs euid egid.
      open_entry-Holds libs far_host entry (idle allocate_caps db dirs euid egid) libs-IsLawful
        entry-IsRanged (file_of entry, refl, refl);
  named = refl;
  written = refl;
  moved = refl;
  apart = refl;
  option = refl;
}

release_lem_example :
    (db' : Dict (DbFile Node)) × (release libs host workspace
        (codes "w")
        (idle allocate_caps db dirs 1001 100)
      ≡ (
        if (move_dir libs host
              (codes "/ws/bob-w")
              (dir_target libs host workspace (codes "w") (codes "/db") (codes "old") entry)
              dirs).0
            then ok tt
            else err ws_not_removed,
        idle allocate_caps db'
            (move_dir libs host
              (codes "/ws/bob-w")
              (dir_target libs host workspace (codes "w") (codes "/db") (codes "old") entry)
              dirs).1
            1001
            100,
      ))
    × IsMoved libs host workspace (codes "w") (codes "/db") (codes "old") entry db db'
release_lem_example =
    release_lem libs host workspace (codes "w") (codes "/db") (codes "old") entry db dirs 1001 100
      workspace-CanRelease

release-no_child_example :
    (db' : Dict (DbFile Node)) × (release libs far_host workspace
        (codes "w")
        (idle allocate_caps db dirs 1001 100)
      ≡ (ok tt, idle allocate_caps db' dirs 1001 100))
    × IsMoved libs far_host workspace (codes "w") (codes "/db") (codes "old") entry db db'
unfolding lookup text_eq has_char
release-no_child_example =
    release-no_child libs far_host workspace (codes "w") (codes "/db") (codes "old") entry db dirs
      1001 100 dir far-CanRelease refl refl refl

abbrev deleting : Workspace
deleting = record workspace { opt = record opts { delete_data = true } }
