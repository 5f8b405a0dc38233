-- ===== src/Tests/Allocate.antt =====
-- Witnesses for Allocate.
use hpc_workspace.Base.{ℕ, ◌≡◌, refl, false, some, List, [], ◌∷◌, ◌≤◌, arith, All, get_elem?}
use hpc_workspace.Base.Int.{pos, ◌+ℤ◌, ◌*ℤ◌, wrap32}
use hpc_workspace.Base.Text.{Text, codes, text_eq}
use hpc_workspace.Base.Dict.{Dict, lookup}
use hpc_workspace.Config.{Config}
use hpc_workspace.World.{pure, ◌>>=◌, World, DbFile, Dir, ok}
use hpc_workspace.World.Caps.{idle, allocate_caps}
use hpc_workspace.Workspace.{entry_file, expiration_after, duration_seconds}
use hpc_workspace.Names.{join_path, entry_name}
use hpc_workspace.Db.RoundTrip.{IsRanged}
use hpc_workspace.Allocate.Choice.{select_space}
use hpc_workspace.Allocate.{
  Request, entry_user, dir_user, search, use_entry, target_ids, entry_group, choose_wsdir, allocate,
  search_list,
}
use hpc_workspace.Allocate.Space.{select_space-most}
use hpc_workspace.Allocate.Search.{search-first}
use hpc_workspace.Allocate.Twice.{
  CanCreate, IsCreated, created, report, allocate-creates, allocate-twice,
}
use hpc_workspace.Tests.{Node, libs, libs-IsLawful, host, fs, config, fs_name, workspace}

abbrev pub request : Request
request = record {
  name = codes "w";
  extensionflag = false;
  reminder = pos 0;
  mailaddress = [];
  user_option = [];
  groupname = [];
  comment = [];
}

abbrev pub file : Text
file = codes "/db/bob-w"

abbrev pub wsdir : Text
wsdir = codes "/ws/bob-w"

abbrev world : World Node
world = idle allocate_caps [] [] 1001 100

pub workspace-CanCreate : CanCreate libs host workspace request file wsdir [] (1001, 100) 1001 100
unfolding entry_file entry_user lookup text_eq join_path entry_name choose_wsdir select_space
    dir_user target_ids entry_group
workspace-CanCreate = record {
  build = refl;
  plain = refl;
  file = refl;
  allocatable = refl;
  chosen = λ w. refl;
  made = refl;
  owned = refl;
  moded = refl;
  written = refl;
  target = λ w. refl;
  grouped = λ db dirs. refl;
}

pub created-IsRanged :
    IsRanged (created libs host workspace request file wsdir [] (1001, 100) 1001 100)
unfolding expiration_after duration_seconds ◌+ℤ◌ ◌*ℤ◌ wrap32
created-IsRanged = record {
  expiration_fits = (omega arith, omega arith);
  extensions_fits = (omega arith, omega arith);
  reminder_fits = (omega arith, omega arith);
}

allocate-creates_example :
    (db' : Dict (DbFile Node)) × (dirs' : Dict Dir) × (allocate libs host workspace request world
      ≡ (
        ok (report libs host workspace request file wsdir [] (1001, 100) 1001 100),
        idle allocate_caps db' dirs' 1001 100,
      ))
    × IsCreated libs host workspace request file wsdir [] (1001, 100) 1001 100 db' dirs'
unfolding search_list entry_file entry_user lookup text_eq join_path entry_name
allocate-creates_example =
    allocate-creates libs host workspace request file wsdir [] (1001, 100) 1001 100 [] []
      (fs_name ∷ []) workspace-CanCreate refl refl ((file, refl, refl), tt)

allocate-twice_example :
    (db' : Dict (DbFile Node)) × (dirs' : Dict Dir) × (allocate libs host workspace request world
      ≡ (
        ok (report libs host workspace request file wsdir [] (1001, 100) 1001 100),
        idle allocate_caps db' dirs' 1001 100,
      ))
    × (allocate libs host workspace request (idle allocate_caps db' dirs' 1001 100) ≡ (
      ok (report libs host workspace request file wsdir [] (1001, 100) 1001 100),
      idle allocate_caps db' dirs' 1001 100,
    ))
unfolding lookup
allocate-twice_example =
    allocate-twice libs host workspace request file wsdir [] (1001, 100) 1001 100 [] []
      libs-IsLawful created-IsRanged workspace-CanCreate refl refl refl

abbrev two_spaces : List Text
two_spaces = codes "/a" ∷ codes "/b" ∷ []

select_space-most_example :
    (i : ℕ) × (t : Text) × (select_space host (some (codes "mostspace")) two_spaces ≡ some i)
    × (get_elem? two_spaces i ≡ some t)
    × All (λ u. host.free_bytes u ≤ host.free_bytes t) two_spaces
select_space-most_example = select_space-most host (codes "/a") (codes "/b" ∷ [])

-- The filesystem `fs2` is there before, and has no entry.
abbrev two_config : Config
two_config = record config {
  workspaces = (codes "fs2", record fs { database = some (codes "/db2") }) ∷ config.workspaces;
}

abbrev with_entry : World Node
with_entry =
    idle allocate_caps
      ((file, record { content = libs.empty; mode = 0; owner = 0; group = 0 }) ∷ []) [] 1001 100

search-first_example :
    search libs host
      (record workspace { config = two_config })
      request
      (codes "fs2" ∷ fs_name ∷ [])
      with_entry
    ≡ (use_entry libs host (record workspace { config = two_config }) request fs_name file >>= λ a.
          pure (some a))
        with_entry
unfolding entry_file entry_user lookup text_eq join_path entry_name
search-first_example =
    search-first libs host (record workspace { config = two_config }) request with_entry
      (codes "fs2" ∷ []) fs_name file [] refl ((codes "/db2/bob-w", refl, refl), tt) (refl, refl)
