-- ===== src/Tests/Offers.antt =====
-- The witness for the list of ws_restore.
use hpc_workspace.Base.{true, false, none, some, List, [], ◌∷◌, All, refl}
use hpc_workspace.Base.Text.{Text, codes, text_eq, contains, starts_with}
use hpc_workspace.Base.Dict.{lookup}
use hpc_workspace.Names.{join_path}
use hpc_workspace.World.{World}
use hpc_workspace.World.Caps.{idle, restore_caps}
use hpc_workspace.Programs.Restoring.{
  RestoreOptions, restore_user, restorable_names, list_main, list_each, get_restorable,
}
use hpc_workspace.Programs.Restoring.Filesystems.{
  get_valid_fslist, names_of, userok, listed_fs, some_group,
}
use hpc_workspace.Programs.Restoring.Offers.{CanList, Offered, list_main-Offered}
use hpc_workspace.Tests.{Node, libs, host, config, fs_name}

-- `ws_restore -l`
abbrev listing_all : RestoreOptions
listing_all = record {
  shows = false;
  list = true;
  name = none;
  target = none;
  filesystem = none;
  username = [];
}

abbrev world : World Node
world = idle restore_caps [] [] 100 100

abbrev lists : List (Text × List Text)
lists = (fs_name, codes "bob-w-7" ∷ []) ∷ []

world-CanList :
    CanList libs host config []
      (λ p. some (codes "ann-v-3" ∷ codes "bob-w-7" ∷ []))
      (λ i. i)
      []
      listing_all
      (codes "bob")
      (codes "bob")
      (codes "users")
      (100 ∷ [])
      world
unfolding restore_user lookup
world-CanList = record {
  named = refl;
  for = refl;
  distinct = (refl, tt);
  grouped = refl;
  grouped_effective = refl;
  groups = refl;
  groups_effective = refl;
}

list_main-Offered_example :
    All
      (Offered libs host config []
        (λ p. some (codes "ann-v-3" ∷ codes "bob-w-7" ∷ []))
        (λ i. i)
        []
        listing_all
        (codes "bob")
        (codes "bob")
        (codes "users")
        (100 ∷ [])
        world)
      lists
unfolding list_main list_each get_restorable restorable_names starts_with get_valid_fslist names_of
    userok listed_fs some_group contains text_eq lookup join_path restore_user
list_main-Offered_example =
    list_main-Offered libs host config [] (λ p. some (codes "ann-v-3" ∷ codes "bob-w-7" ∷ []))
      (λ i. i) [] listing_all (codes "bob") (codes "bob") (codes "users") (100 ∷ []) world world
      lists world-CanList refl
