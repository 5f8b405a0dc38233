-- ===== src/Tests/Db.antt =====
-- Witnesses for Db.
use hpc_workspace.Base.{◌≡◌, refl, arith, []}
use hpc_workspace.Base.Int.{pos}
use hpc_workspace.World.{ok}
use hpc_workspace.World.Caps.{idle, allocate_caps}
use hpc_workspace.Db.{open_entry, write_dbfile}
use hpc_workspace.Db.RoundTrip.{IsRanged}
use hpc_workspace.Db.Written.{write_dbfile-open_entry}
use hpc_workspace.Tests.{libs, libs-IsLawful, host, entry}

pub entry-IsRanged : IsRanged entry
entry-IsRanged = record {
  expiration_fits = (omega arith, omega arith);
  extensions_fits = (omega arith, omega arith);
  reminder_fits = (omega arith, omega arith);
}

write_dbfile-open_entry_example :
    let w = (write_dbfile libs host entry (idle allocate_caps [] [] 1001 100)).1 in
    open_entry libs entry.dbfilename 900 901 w ≡ (ok (record entry { released = pos 0 }), w)
write_dbfile-open_entry_example =
    write_dbfile-open_entry libs host entry [] [] 1001 100 libs-IsLawful entry-IsRanged refl refl
