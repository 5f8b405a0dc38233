-- ===== src/Allocate/Extend.antt =====
-- `allocate` with -x, in the capabilities build: the entry that is found is extended.
use mathlib.Core.Path.{subst}
use hpc_workspace.Base.{
  ℕ, ◌≡◌, refl, true, false, ◌&&◌, not, some, List, ◌∷◌, ◌++◌, All, ◌==◌, if◌then◌else◌, default_to,
}
use hpc_workspace.Base.Int.{ℤ, pos, negsuc, ◌-ℤ◌, ltb_ℤ, eqb_ℤ}
use hpc_workspace.Base.Text.{Text, text_eq, is_empty}
use hpc_workspace.Base.Dict.{Dict, lookup}
use hpc_workspace.World.{Host, Libs, World, Dir, DbFile, ok, continue}
use hpc_workspace.World.Caps.{idle, allocate_caps}
use hpc_workspace.Config.{bind, fs_config, config_duration}
use hpc_workspace.Access.{clamp_duration}
use hpc_workspace.Workspace.{Workspace, expiration_after}
use hpc_workspace.Db.{WsDb, entry_node, update_notes, consumes, use_extension, open_entry}
use hpc_workspace.Db.Written.{Holds, write_dbfile_caps, written-Holds, written-others}
use hpc_workspace.Allocate.{
  Request, Allocated, search_list, allocate, has_user, use_entry, extend_entry, new_expiration,
}
use hpc_workspace.Allocate.Search.{Lacks, Has, search-first}

module _ (L : Libs) (h : Host) (e : WsDb) (expiration : ℤ) (mail : Text) (reminder : ℤ)
    (comment : Text) where
  -- The entry after an extension to `expiration`.
  abbrev pub extended : WsDb
  extended =
      let new = update_notes L h e mail reminder comment in
      record new {
        extensions =
            if consumes L h new expiration then new.extensions -ℤ pos 1 else new.extensions;
        expiration = if eqb_ℤ expiration (negsuc 0) then new.expiration else expiration;
      }

  use_extension_lem :
      (db : Dict (DbFile L.File)) (dirs : Dict Dir) (euid egid : ℕ)
      → h.setuid_build ≡ false
      → ltb_ℤ extended.extensions (pos 0) && not (h.uid == 0) ≡ false
      → (db' : Dict (DbFile L.File)) × (use_extension L h e expiration mail reminder comment
            (idle allocate_caps db dirs euid egid)
          ≡ (ok extended, idle allocate_caps db' dirs euid egid))
        × (h.write_ok e.dbfilename ≡ true → Holds e.dbfilename (L.emit (entry_node L extended)) db')
        × ((q : Text) → text_eq e.dbfilename q ≡ false → lookup q db' ≡ lookup q db)
  unfolding use_extension update_notes
  use_extension_lem db dirs euid egid build left = (
    _,
    rw (left, use_extension, continue)
        (rw (write_dbfile_caps L h extended db dirs euid egid build, continue) refl),
    λ written. written-Holds L h extended db euid egid written,
    λ q apart. written-others L h extended db euid egid q apart,
  )

module _ (L : Libs) (h : Host) (s : Workspace) (r : Request) (fs p : Text) (limit : ℤ)
    (e : WsDb) where
  -- The new expiration, within the limit of the filesystem.
  abbrev pub until : ℤ
  until = expiration_after h 0 (clamp_duration h s.config s.userconfig s.username limit s.duration)

  -- The entry with the new expiration and what the request changes.
  abbrev pub longer : WsDb
  longer =
      extended L h e until (if is_empty r.mailaddress then e.mailaddress else r.mailaddress)
        r.reminder r.comment

  -- -x without -u, and with a duration: the entry `e` is the first that the search finds, the
  -- filesystem allows extensions and has a limit, and the user has an extension left.
  pub record CanExtend (db : Dict (DbFile L.File)) (dirs : Dict Dir) (euid egid : ℕ) : Type 0 where
    pub build : h.setuid_build ≡ false
    pub asked : r.extensionflag ≡ true
    pub own : has_user L h s r ≡ false
    pub given : eqb_ℤ s.duration (pos 0) ≡ false
    pub extendable : default_to true (bind (fs_config s.config fs) (λ c. c.extendable)) ≡ true
    pub limited : config_duration s.config s.userconfig fs s.username ≡ some limit
    pub left : ltb_ℤ longer.extensions (pos 0) && not (h.uid == 0) ≡ false
    pub opened :
        open_entry L p s.config.dbuid s.config.dbgid (idle allocate_caps db dirs euid egid)
        ≡ (ok e, idle allocate_caps db dirs euid egid)
    pub named : e.dbfilename ≡ p
    pub before : List Text
    pub rest : List Text
    pub searched :
        search_list L h s r (idle allocate_caps db dirs euid egid)
        ≡ (ok (before ++ (fs ∷ rest)), idle allocate_caps db dirs euid egid)
    pub lacking : All (Lacks L h s r (idle allocate_caps db dirs euid egid)) before
    pub found : Has L h s r (idle allocate_caps db dirs euid egid) fs p

  abbrev pub extension_report : Allocated
  extension_report = record { wsdir = e.wsdir; extension = longer.extensions; expiration = until }

  module _ (db : Dict (DbFile L.File)) (dirs : Dict Dir) (euid egid : ℕ)
      (c : CanExtend db dirs euid egid) where
    new_expiration_lem : (w : World L.File) → new_expiration L h s r fs w ≡ (ok until, w)
    unfolding new_expiration
    new_expiration_lem w = rw (c.given, new_expiration, c.limited) refl

    extend_entry_lem :
        (db' : Dict (DbFile L.File)) × (extend_entry L h s r fs e
            (idle allocate_caps db dirs euid egid)
          ≡ (ok extension_report, idle allocate_caps db' dirs euid egid))
        × (h.write_ok e.dbfilename ≡ true → Holds e.dbfilename (L.emit (entry_node L longer)) db')
        × ((q : Text) → text_eq e.dbfilename q ≡ false → lookup q db' ≡ lookup q db)
    unfolding extend_entry
    extend_entry_lem =
        let (db', extends, holds, others) =
          use_extension_lem L h e until
            (if is_empty r.mailaddress then e.mailaddress else r.mailaddress) r.reminder r.comment
            db dirs euid egid c.build c.left in
        (
          db',
          rw (c.extendable, extend_entry, c.own, continue)
              (rw (new_expiration_lem (idle allocate_caps db dirs euid egid), continue)
                (rw (extends, continue, c.given) refl)),
          holds,
          others,
        )

    -- In the capabilities build, with -x and a duration and without -u: if the first entry that the
    -- search finds can be read and written, its filesystem allows extensions and has a limit, and the
    -- caller is root or has an extension left, `allocate` prints the directory, what is left of the
    -- extensions and the expiration after the duration as the limit clamps it. The entry's file holds
    -- the extended entry, every other file and every directory is as it was, and no capability is
    -- left in effect.
    pub allocate-extends :
        h.write_ok p ≡ true
        → (db' : Dict (DbFile L.File)) × (allocate L h s r (idle allocate_caps db dirs euid egid)
            ≡ (ok extension_report, idle allocate_caps db' dirs euid egid))
          × Holds p (L.emit (entry_node L longer)) db'
          × ((q : Text) → text_eq p q ≡ false → lookup q db' ≡ lookup q db)
    unfolding allocate use_entry
    allocate-extends written =
        let (db', extends, holds, others) = extend_entry_lem in
        let w : World L.File = idle allocate_caps db dirs euid egid in
        let plain : (r.extensionflag && has_user L h s r) ≡ false = rw c.own (rw c.asked refl) in
        let uses : use_entry L h s r fs p w
            ≡ (ok extension_report, idle allocate_caps db' dirs euid egid) =
          rw (c.opened, use_entry, continue) (rw c.asked extends) in
        (
          db',
          rw (c.searched, allocate, continue)
              (rw (search-first L h s r w c.before fs p c.rest plain c.lacking c.found, continue)
                (rw (uses, continue) refl)),
          subst (λ q. Holds q (L.emit (entry_node L longer)) db') c.named
              (holds (rw c.named written)),
          λ q apart. others q (rw c.named apart),
        )
