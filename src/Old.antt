-- ===== src/Old.antt =====
-- The older tools of old/: old/ws_util.cpp, shared by old/ws_allocate.cpp and old/ws_release.cpp.
-- They are superseded, but entries that they have written are still read. Here are their privileges
-- and their database entries. A change of privilege that fails prints an error, and they go on.
pub mod Access
pub mod Allocate
pub mod Release
pub mod Written
pub mod Extend
pub mod Same
use hpc_workspace.Base.{ℕ, Bool, true, false, ◌&&◌, ◌||◌, not, Option, none, some, if◌then◌else◌}
use hpc_workspace.Base.Int.{ℤ}
use hpc_workspace.Base.Text.{Text, codes}
use hpc_workspace.Base.Dict.{Dict, lookup, insert}
use hpc_workspace.World.{
  Host, Libs, Doc, map_doc, scalar_doc, World, DbFile, CapSet, M, Result, ok, err,
  uncaught_exception, modify, ◌>>=◌, ◌>>◌,
}
use hpc_workspace.World.Caps.{Cap, cap_chown, cap_dac_override, no_caps, set_flag, subset}

-- What `read_dbfile` gives by reference, and what `write_dbfile` is given.
pub record OldDb : Type 0 where
  pub wsdir : Text
  pub expiration : ℤ
  pub extensions : ℤ
  pub acctcode : Text

-- What ws_allocate keeps; ws_release keeps CAP_DAC_OVERRIDE alone.
abbrev pub old_caps : CapSet
old_caps = record { chown = true; dac_override = true; dac_read_search = false; fowner = false }

module _ {F : Type 0} (h : Host) where
  -- `cap_set_proc(caps)`, whose failure is only printed.
  abbrev try_proc : CapSet → CapSet → World F → World F
  try_proc permitted effective w =
      if subset permitted w.permitted && subset effective permitted
      then record w { permitted = permitted; effective = effective }
      else w

  -- `seteuid(u)`, whose failure is not looked at.
  abbrev try_seteuid : ℕ → World F → World F
  try_seteuid u w = if h.seteuid_ok u then record w { euid = u } else w

  -- The two overloads of `drop_cap`, by the set of their arguments.
  unfoldable pub drop_cap : CapSet → ℕ → M F (Unit {0})
  drop_cap caps dbuid =
      modify (λ w. if h.setuid_build then try_seteuid dbuid w else try_proc caps no_caps w)

  unfoldable pub lower_cap : Cap → ℕ → M F (Unit {0})
  lower_cap c dbuid = modify (λ w.
      if h.setuid_build
      then try_seteuid dbuid w
      else try_proc w.permitted (set_flag c false w.effective) w)

  unfoldable pub raise_cap : Cap → M F (Unit {0})
  raise_cap c = modify (λ w.
      if h.setuid_build
      then try_seteuid 0 w
      else try_proc w.permitted (set_flag c true w.effective) w)

module _ (L : Libs) where
  -- The node that `write_dbfile` fills.
  unfoldable pub entry_node : OldDb → ℤ → Text → L.Node
  entry_node e reminder mailaddress =
      let n = L.set_text (codes "workspace") e.wsdir L.empty in
      let n = L.set_int (codes "expiration") e.expiration n in
      let n = L.set_int (codes "extensions") e.extensions n in
      let n = L.set_text (codes "acctcode") e.acctcode n in
      let n = L.set_int (codes "reminder") reminder n in
      L.set_text (codes "mailaddress") mailaddress n

  module _ (h : Host) where
    -- `ofstream fout(filename); fout << entry`, under the umask 0002 for a new file; a write that
    -- fails after the opening loses the old content.
    unfoldable pub store_file : Text → L.Node → ℕ → ℕ → Dict (DbFile L.File) → Dict (DbFile L.File)
    unfolding lookup insert
    store_file filename n euid egid db =
        let written = if h.write_ok filename then L.emit n else L.cut_short (L.emit n) in
        let new : DbFile L.File = record {
          content = written;
          mode = 0o664;
          owner = euid;
          group = egid;
        } in
        if h.write_ok filename || h.open_ok filename
        then insert filename
            (elim (lookup filename db) [ none ↦ new | some f ↦ record f { content = written } ]) db
        else db

    -- `chown(filename, dbuid, dbgid)`, with a message if it fails.
    unfoldable pub chown_file : Text → ℕ → ℕ → Dict (DbFile L.File) → Dict (DbFile L.File)
    unfolding lookup insert
    chown_file filename dbuid dbgid db = elim (lookup filename db) [
      | none ↦ db
      | some f ↦
          if h.chown_ok filename
          then insert filename (record f { owner = dbuid; group = dbgid }) db
          else db
    ]

    -- `write_dbfile`
    unfoldable pub write_dbfile : Text → OldDb → ℕ → ℕ → ℤ → Text → M L.File (Unit {0})
    unfolding raise_cap lower_cap store_file chown_file entry_node
    write_dbfile filename e dbuid dbgid reminder mailaddress = do
      raise_cap h cap_dac_override
      modify (λ w. record w {
        db = store_file filename (entry_node e reminder mailaddress) w.euid w.egid w.db;
      })
      lower_cap h cap_dac_override dbuid
      raise_cap h cap_chown
      modify (λ w. record w { db = chown_file filename dbuid dbgid w.db })
      lower_cap h cap_chown dbuid

  -- The conversions of `read_dbfile`. The reminder and the mail address are read into copies of the
  -- caller's variables, and are lost; their conversions can throw.
  unfoldable pub parse_entry : L.Node → Option OldDb
  parse_entry n = elim (L.text_at n (codes "workspace")) [
    | none ↦ none
    | some wsdir ↦ elim (L.long_at n (codes "expiration")) [
      | none ↦ none
      | some expiration ↦ elim (L.int_at n (codes "extensions")) [
        | none ↦ none
        | some extensions ↦ elim (L.text_at n (codes "acctcode")) [
          | none ↦ none
          | some acctcode ↦ elim (L.int_at n (codes "reminder")) [
            | none ↦ none
            | some reminder ↦ elim (L.text_at n (codes "mailaddress")) [
              | none ↦ none
              | some mailaddress ↦ some (record {
                wsdir = wsdir;
                expiration = expiration;
                extensions = extensions;
                acctcode = acctcode;
              })
            ]
          ]
        ]
      ]
    ]
  ]

  -- `read_dbfile`; what cannot be read is an exception that nobody catches.
  unfoldable pub read_dbfile : Text → M L.File OldDb
  unfolding lookup parse_entry
  read_dbfile filename w = elim (lookup filename w.db) [
    | none ↦ (err uncaught_exception, w)
    | some f ↦ elim (L.load f.content) [
      | none ↦ (err uncaught_exception, w)
      | some scalar_doc ↦ (err uncaught_exception, w)
      | some (map_doc n) ↦ elim (parse_entry n) [
        | none ↦ (err uncaught_exception, w)
        | some e ↦ (ok e, w)
      ]
    ]
  ]
