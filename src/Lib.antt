-- ===== src/Lib.antt =====
-- The workspace tools: ws_allocate, ws_release and ws_restore, of src/*.cpp. They manage workspaces,
-- directories with a limited life on scratch filesystems, for users who cannot write into the
-- database of them. Each program drops its privileges, reads its options, makes a `Workspace` object
-- (which validates who may use which filesystem, for how long) and calls one operation of it; the
-- operations read and write database entries through `WsDB`.
--
--  - World: the state that the operations change (database files, workspace directories,
--    capabilities, effective ids), what they ask of the system (`Host`), of yaml-cpp and Boost
--    (`Libs`, with the documented laws `IsLawful`), and the errors, with their exit codes. An
--    operation is a function from the world to a result and a world. The database may be changed as
--    `may_write` of World.Caps says: with CAP_DAC_OVERRIDE or as the database user, and with SETUID
--    also as root, unless root is squashed. World.Caps is `raise_cap`, `lower_cap` and `drop_cap` of
--    src/ws.cpp, in the build with capabilities and the build with SETUID; theorems name the build
--    that they are about.
--  - Db: src/wsdb.cpp, `read_dbfile`, `write_dbfile`, `use_extension` and the two constructors.
--    Db.Legacy is the plain format of older entries.
--  - Config and Access: the configuration as it is read, `Workspace::validate` and
--    `Workspace::get_valid_fslist` of src/ws.cpp.
--  - Workspace, Allocate, Release, Restore: the constructor and the three operations of src/ws.cpp.
--    A helper stands for a block of the function that its comment names, in the order of the source.
--  - Names: the tests of names in the `commandline` functions, `check_name` of src/ws_restore.cpp.
--  - Programs: the `commandline` functions and the `main`s of the three programs, and the list of
--    restorable workspaces in src/ws_restore.cpp, with its own `get_valid_fslist`; Restoring.Offers
--    is about that list. What Boost has parsed is a record of options.
--  - Spec: what the programs promise of the database, which is a function from paths to files there:
--    commands that put, move and remove a file, and sequences of them. Spec.Store shows the changes
--    that src/wsdb.cpp and src/ws.cpp make to be such commands.
--  - World.After, and the modules called After in Access, Db, Workspace, Allocate, Release, Restore
--    and Programs: rules for what an operation keeps in every outcome, one for each way to build an
--    action, and from them one for each operation. A statement that each step keeps is kept by the
--    whole, also where it ends with an error.
--  - World.Builds, Db.Builds, Release.Builds and Restore.Builds: the two builds side by side.
--  - Programs.Runs: runs of the three programs, with any options, one after the other. Runs.Refines
--    is about the files that a run changes, Runs.History about many runs by many users, Runs.Idle
--    about the privileges that are left, Runs.Lifecycle about a workspace from its creation to its
--    release, and Runs.Meanwhile about that with the runs of others in between. Runs.Mains is about
--    the `main`s up to their operation; Runs.Cycle (ws_allocate, then ws_release) and Runs.Undo
--    (ws_release, then ws_restore) are about the programs as they are called. Runs.Quota is about the
--    extensions that many runs of ws_allocate use, from Allocate.Paid and Allocate.Quota.
--  - Old: the programs of old/ that these have replaced (old/ws_util.cpp, old/ws_allocate.cpp,
--    old/ws_release.cpp). They are not built any more, but entries that they have written are still
--    read. Old.Same sets its release beside the present one.
--  - Ruh: src/ruh.cpp. Ruh.Screen is an account of the terminal.
--  - Tests: one small installation, and the theorems applied to it.
--
-- Numbers: an `int` of the source is an integer; where a computed value can leave the type
-- (`duration*24*3600`) the wrap-around of 32 bits is written out, and what is stored as YAML is
-- assumed to fit where it is read back. Workspace.Duration says up to where it is exact. There is no
-- fuel: every loop runs over a list or a count.
--
-- A write that fails after the file was opened leaves what `cut_short` of `Libs` says; a `/bin/mv`
-- that does not end with 0 leaves what `mv_left` of `Host` says of the directories.
--
-- Not modelled: a child that cannot start `/bin/mv` and goes on with the program, loading and typing
-- the configuration files, the parsing of options by Boost, the Lua callout (off by default), messages
-- and the system log, file contents of a workspace beyond their names, and the scripts in bin and
-- sbin.
pub mod Base
pub mod Names
pub mod Ruh
pub mod World
pub mod Db
pub mod Config
pub mod Access
pub mod Workspace
pub mod Allocate
pub mod Release
pub mod Restore
pub mod Spec
pub mod Programs
pub mod Old
pub mod Tests
