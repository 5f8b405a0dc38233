-- ===== src/Tests/Old.antt =====
-- Witnesses for the older tools.
use hpc_workspace.Base.{Bool, false, ◌≡◌, refl, none, some, [], ◌∷◌}
use hpc_workspace.Base.Int.{pos, ◌-ℤ◌}
use hpc_workspace.Base.Text.{codes, text_eq}
use hpc_workspace.Base.Dict.{Dict, lookup, insert}
use hpc_workspace.World.{World, DbFile, ok}
use hpc_workspace.World.Caps.{idle}
use hpc_workspace.Db.Written.{Holds}
use hpc_workspace.Old.{OldDb, old_caps, entry_node, parse_entry, write_dbfile, read_dbfile}
use hpc_workspace.Old.Access.{Validated}
use hpc_workspace.Old.Allocate.{AllocateOptions, Arguments, use_entry}
use hpc_workspace.Old.Extend.{extended, use_entry-forgets}
use hpc_workspace.Tests.{Node, libs, host, config, fs_name}

abbrev old : OldDb
old = record {
  wsdir = codes "/ws/bob-w";
  expiration = pos 100;
  extensions = pos 2;
  acctcode = codes "users";
}

-- What the older tool leaves of that entry.
abbrev written : World Node
written =
    (write_dbfile libs host (codes "/db/bob-w") old 900 901 (pos 3) (codes "bob@site")
      (idle old_caps [] [] 1001 100)).1

-- `ws_allocate -x w 7`
abbrev extending : AllocateOptions
extending = record {
  help = false;
  name = some (codes "w");
  duration = pos 7;
  filesystem = none;
  reminder = pos 0;
  mailaddress = none;
  extension = Bool.true;
  user = [];
}

abbrev arguments : Arguments
arguments = record { name = codes "w"; reminder = pos 0; mailaddress = [] }

abbrev validated : Validated
validated = record {
  filesystem = fs_name;
  duration = pos 7;
  maxextensions = pos 3;
  primarygroup = codes "users";
}

-- The entry with a reminder.
abbrev db : Dict (DbFile Node)
db =
    (
      codes "/db/bob-w",
      record {
        content = entry_node libs old (pos 3) (codes "bob@site");
        mode = 0o664;
        owner = 900;
        group = 901;
      },
    )
    ∷ []

use_entry-forgets_example :
    (db' : Dict (DbFile Node)) × (use_entry libs host config extending arguments validated
        (codes "bob")
        (codes "/db/bob-w")
        (idle old_caps db [] 1001 100)
      ≡ (
        ok (
            extended libs host config extending arguments validated
              (codes "bob")
              (codes "/db/bob-w")
              old),
        idle old_caps db' [] 1001 100,
      ))
    × Holds
        (codes "/db/bob-w")
        (libs.emit (
          entry_node libs
            (extended libs host config extending arguments validated
              (codes "bob")
              (codes "/db/bob-w")
              old)
            (pos 0)
            []))
        db'
unfolding read_dbfile entry_node parse_entry lookup insert text_eq ◌-ℤ◌
use_entry-forgets_example =
    use_entry-forgets libs host config extending arguments validated (codes "bob")
      (codes "/db/bob-w") old db [] 1001 100 refl refl refl refl refl refl
