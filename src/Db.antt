-- ===== src/Db.antt =====
-- src/wsdb.h and src/wsdb.cpp: the database entry of a workspace. It is a YAML file; an entry of
-- the older tools is plain lines, and is read by the fallback of `read_dbfile`.
pub mod Legacy
pub mod RoundTrip
pub mod Extension
pub mod Written
pub mod After
pub mod Builds
use hpc_workspace.Base.{ℕ, zero, suc, ◌+◌, Bool, true, false, ◌&&◌, ◌||◌, not, Option, none, some}
use hpc_workspace.Base.{List, [], ◌∷◌, get_elem?, default_to, ◌==◌, if◌then◌else◌}
use hpc_workspace.Base.Int.{ℤ, pos, negsuc, ◌-ℤ◌, ltb_ℤ, eqb_ℤ}
use hpc_workspace.Base.Text.{Text, codes, is_empty}
use hpc_workspace.Base.Dict.{Dict, lookup, insert}
use hpc_workspace.World.{
  Host, Libs, Doc, map_doc, scalar_doc, World, DbFile, M, Result, ok, err, Error,
  uncaught_exception, undefined_behaviour, invalid_db_entry, no_more_extensions, pure, fail,
  or_fail, fail_if, modify, when, gets, ◌>>=◌, ◌>>◌,
}
use hpc_workspace.World.Caps.{
  may_write, cap_chown, cap_dac_override, cap_fowner, raise_cap, lower_cap, become_db_user,
  become_root,
}
use hpc_workspace.Db.Legacy.{OldEntry, read_old}

-- `class WsDB`
pub record WsDb : Type 0 where
  pub dbfilename : Text
  pub wsdir : Text
  pub expiration : ℤ
  pub extensions : ℤ
  pub acctcode : Text
  pub dbuid : ℕ
  pub dbgid : ℕ
  pub reminder : ℤ
  pub mailaddress : Text
  pub group : Text
  pub comment : Text
  pub released : ℤ

module _ (L : Libs) where
  -- The node that `write_dbfile` fills.
  unfoldable pub entry_node : WsDb → L.Node
  entry_node e =
      let n = L.set_text (codes "workspace") e.wsdir L.empty in
      let n = L.set_int (codes "expiration") e.expiration n in
      let n = L.set_int (codes "extensions") e.extensions n in
      let n = L.set_text (codes "acctcode") e.acctcode n in
      let n = L.set_int (codes "reminder") e.reminder n in
      let n = L.set_text (codes "mailaddress") e.mailaddress n in
      let n = if is_empty e.group then n else L.set_text (codes "group") e.group n in
      let n = if ltb_ℤ (pos 0) e.released then L.set_int (codes "released") e.released n else n in
      L.set_text (codes "comment") e.comment n

  -- `perm` of `write_dbfile`: 0744 for a group workspace, else 0644.
  unfoldable pub entry_mode : WsDb → ℕ
  entry_mode e = if is_empty e.group then 0o644 else 0o744

  -- The conversions in the `try` block, in order; `none` if one of them throws.
  unfoldable pub parse_entry : Text → ℕ → ℕ → L.Node → Option WsDb
  parse_entry filename dbuid dbgid n = elim (L.text_at n (codes "workspace")) [
    | none ↦ none
    | some wsdir ↦ elim (L.long_at n (codes "expiration")) [
      | none ↦ none
      | some expiration ↦ elim (L.int_at n (codes "extensions")) [
        | none ↦ none
        | some extensions ↦ elim (L.text_at n (codes "acctcode")) [
          | none ↦ none
          | some acctcode ↦ elim (L.int_at n (codes "reminder")) [
            | none ↦ none
            | some reminder ↦ elim (L.text_at n (codes "mailaddress")) [
              | none ↦ none
              | some mailaddress ↦ some (record {
                dbfilename = filename;
                wsdir = wsdir;
                expiration = expiration;
                extensions = extensions;
                acctcode = acctcode;
                dbuid = dbuid;
                dbgid = dbgid;
                reminder = reminder;
                mailaddress = mailaddress;
                group = default_to [] (L.text_at n (codes "group"));
                comment = default_to [] (L.text_at n (codes "comment"));
                released = pos 0;
              })
            ]
          ]
        ]
      ]
    ]
  ]

  -- The fallback: acctcode and extensions stand behind the first colon of their lines. A line
  -- without a colon is read past the end of `sp`.
  unfoldable pub parse_old : Text → ℕ → ℕ → Text → Result WsDb
  parse_old filename dbuid dbgid content =
      let old = read_old content in
      elim (get_elem? (L.split old.acct_line b':') 1) [
        | none ↦ err undefined_behaviour
        | some acctcode ↦ elim (get_elem? (L.split old.extension_line b':') 1) [
          | none ↦ err undefined_behaviour
          | some ext ↦ elim (L.lexical_cast ext) [
            | none ↦ err uncaught_exception
            | some extensions ↦ ok (record {
              dbfilename = filename;
              wsdir = old.wsdir;
              expiration = old.expiration;
              extensions = extensions;
              acctcode = acctcode;
              dbuid = dbuid;
              dbgid = dbgid;
              reminder = pos 0;
              mailaddress = [];
              group = [];
              comment = [];
              released = pos 0;
            })
          ]
        ]
      ]

  -- `read_dbfile`, called by the constructor that opens an entry.
  unfoldable pub read_dbfile : Text → ℕ → ℕ → L.File → Result WsDb
  unfolding parse_entry parse_old
  read_dbfile filename dbuid dbgid file = elim (L.load file) [
    | none ↦ err uncaught_exception
    | some scalar_doc ↦ parse_old filename dbuid dbgid (L.bytes file)
    | some (map_doc n) ↦ elim (parse_entry filename dbuid dbgid n) [
      | none ↦ err invalid_db_entry
      | some e ↦ ok e
    ]
  ]

  -- `WsDB dbentry(dbfilename, dbuid, dbgid)`; a file that is not there throws `BadFile`.
  unfoldable pub open_entry : Text → ℕ → ℕ → M L.File WsDb
  unfolding read_dbfile lookup
  open_entry filename dbuid dbgid w = elim (lookup filename w.db) [
    | none ↦ (err uncaught_exception, w)
    | some f ↦ (read_dbfile filename dbuid dbgid f.content, w)
  ]

  module _ (h : Host) where
    -- `ofstream fout(dbfilename); fout << entry`, under the umask 0002 for a new file. A failure is
    -- a message; if it comes after the file was opened, its old content is lost.
    unfoldable pub store_entry : WsDb → ℕ → ℕ → Dict (DbFile L.File) → Dict (DbFile L.File)
    unfolding lookup insert entry_node
    store_entry e euid egid db =
        let content = L.emit (entry_node e) in
        let written = if h.write_ok e.dbfilename then content else L.cut_short content in
        let new : DbFile L.File = record {
          content = written;
          mode = 0o664;
          owner = euid;
          group = egid;
        } in
        if h.write_ok e.dbfilename || h.open_ok e.dbfilename
        then insert e.dbfilename
            (elim (lookup e.dbfilename db) [ none ↦ new | some f ↦ record f { content = written } ])
            db
        else db

    -- `chmod(dbfilename, perm)`, with a message if it fails.
    unfoldable pub chmod_entry : WsDb → Dict (DbFile L.File) → Dict (DbFile L.File)
    unfolding lookup insert entry_mode
    chmod_entry e db = elim (lookup e.dbfilename db) [
      | none ↦ db
      | some f ↦
          if h.chmod_ok e.dbfilename
          then insert e.dbfilename (record f { mode = entry_mode e }) db
          else db
    ]

    -- `chown(dbfilename, dbuid, dbgid)`, with a message if it fails.
    unfoldable pub chown_entry : WsDb → Dict (DbFile L.File) → Dict (DbFile L.File)
    unfolding lookup insert
    chown_entry e db = elim (lookup e.dbfilename db) [
      | none ↦ db
      | some f ↦
          if h.chown_ok e.dbfilename
          then insert e.dbfilename (record f { owner = e.dbuid; group = e.dbgid }) db
          else db
    ]

    -- The part under `#ifndef SETUID` that gives the file to the database user.
    unfoldable pub give_entry : WsDb → M L.File (Unit {0})
    give_entry e = do
      raise_cap h cap_chown
      modify (λ w. record w { db = chown_entry e w.db })
      lower_cap h cap_chown e.dbuid

    unfoldable pub write_dbfile : WsDb → M L.File (Unit {0})
    unfolding become_db_user become_root give_entry
    write_dbfile e = do
      raise_cap h cap_dac_override
      become_db_user h e.dbuid e.dbgid
      modify (λ w. record w {
        db = if may_write h e.dbuid w then store_entry e w.euid w.egid w.db else w.db;
      })
      raise_cap h cap_fowner
      modify (λ w. record w { db = chmod_entry e w.db })
      lower_cap h cap_fowner e.dbuid
      become_root h
      lower_cap h cap_dac_override e.dbuid
      when (not h.setuid_build) (give_entry e)

    -- The constructor that creates an entry: `released` is 0, and the entry is written at once.
    unfoldable pub create_entry : WsDb → M L.File WsDb
    create_entry e = do
      write_dbfile (record e { released = pos 0 })
      pure (record e { released = pos 0 })

    -- The new mail address, reminder and comment; empty and 0 keep the old ones.
    unfoldable pub update_notes : WsDb → Text → ℤ → Text → WsDb
    update_notes e mailaddress reminder comment = record e {
      mailaddress = if is_empty mailaddress then e.mailaddress else mailaddress;
      reminder = if eqb_ℤ reminder (pos 0) then e.reminder else reminder;
      comment = if is_empty comment then e.comment else comment;
    }

    -- Whether an extension is consumed: not for root, not without a new expiration (-1), and not if
    -- it is no later than the old one.
    unfoldable pub consumes : WsDb → ℤ → Bool
    consumes e expiration =
        not (h.uid == 0) && not (eqb_ℤ expiration (negsuc 0)) && ltb_ℤ e.expiration expiration

    -- `use_extension`, with the entry that it leaves.
    unfoldable pub use_extension : WsDb → ℤ → Text → ℤ → Text → M L.File WsDb
    unfolding update_notes
    use_extension e expiration mailaddress reminder comment = do
      let e1 = update_notes e mailaddress reminder comment
      let e2 = record e1 {
        extensions = if consumes e1 expiration then e1.extensions -ℤ pos 1 else e1.extensions;
      }
      fail_if (ltb_ℤ e2.extensions (pos 0) && not (h.uid == 0)) no_more_extensions
      let e3 = record e2 {
        expiration = if eqb_ℤ expiration (negsuc 0) then e2.expiration else expiration;
      }
      write_dbfile e3
      pure e3
