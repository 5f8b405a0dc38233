-- ===== src/Old/Same.antt =====
-- The release of old/ws_release.cpp beside the one of src/ws.cpp, in the capabilities build.
use hpc_workspace.Base.{
  ℕ, ◌≡◌, refl, ◌∙◌, true, false, not, none, some, if◌then◌else◌, Bool-cases, inl, inr,
}
use hpc_workspace.Base.Text.{Text, text_eq, text_eq→eq}
use hpc_workspace.Base.Dict.{Dict, lookup}
use hpc_workspace.World.{
  Host, Libs, Dir, DbFile, CapSet, Result, ok, err, db_not_deleted, ws_not_removed, continue,
}
use hpc_workspace.World.Caps.{idle, allocate_caps}
use hpc_workspace.World.Caps.Steps.{by_cap}
use hpc_workspace.Config.{Config, database_of}
use hpc_workspace.Names.{entry_name, join_path}
use hpc_workspace.Workspace.{Workspace, entry_file, rename_in}
use hpc_workspace.Workspace.Rename.{rename_in-moves}
use hpc_workspace.Db.{WsDb, entry_node}
use hpc_workspace.Db.Written.{Holds}
use mathlib.Core.Path.{subst, sym}
use hpc_workspace.Release
use hpc_workspace.Release.{is_renamed, move_dir, full_name, stamped, deleted_path, released_entry}
use hpc_workspace.Release.Moved.{CanRelease, file, file_target, dir_target, release_lem}
use hpc_workspace.Old.{OldDb, read_dbfile, raise_cap, lower_cap}
use hpc_workspace.Old.Release.{move_entry, move_workspace, release}

-- What the older ws_release keeps.
abbrev pub release_caps : CapSet
release_caps = record {
  chown = false;
  dac_override = true;
  dac_read_search = false;
  fowner = false;
}

module _ (L : Libs) (h : Host) (config : Config) (build : h.setuid_build ≡ false)
    (db : Dict (DbFile L.File)) (dirs : Dict Dir) (euid egid : ℕ) where
  move_entry_lem :
      (source target : Text)
      → move_entry L h config source target (idle release_caps db dirs euid egid) ≡ (
        if not (is_renamed (rename_in h source target db).0) then err db_not_deleted else ok tt,
        idle release_caps (rename_in h source target db).1 dirs euid egid,
      )
  unfolding move_entry raise_cap lower_cap
  move_entry_lem source target =
      by_cap
        (λ k. move_entry L k config source target (idle release_caps db dirs euid egid) ≡ (
          if not (is_renamed (rename_in k source target db).0) then err db_not_deleted else ok tt,
          idle release_caps (rename_in k source target db).1 dirs euid egid,
        ))
        h build refl

  move_workspace_lem :
      (source target : Text)
      → move_workspace L h config source target (idle release_caps db dirs euid egid) ≡ (
        if not (move_dir L h source target dirs).0 then err ws_not_removed else ok tt,
        idle release_caps db (move_dir L h source target dirs).1 euid egid,
      )
  unfolding move_workspace raise_cap lower_cap
  move_workspace_lem source target =
      by_cap
        (λ k. move_workspace L k config source target (idle release_caps db dirs euid egid) ≡ (
          if not (move_dir L k source target dirs).0 then err ws_not_removed else ok tt,
          idle release_caps db (move_dir L k source target dirs).1 euid egid,
        ))
        h build refl

module _ (L : Libs) (h : Host) (s : Workspace) (name database deleted : Text) (e : WsDb)
    (o : OldDb) where
  -- How a release ends, by the move of the directory.
  abbrev ending : Dict Dir → Result (Unit {0})
  ending dirs =
      if (move_dir L h e.wsdir (dir_target L h s name database deleted e) dirs).0
      then ok tt
      else err ws_not_removed

  file_lem :
      s.opt.userworkspace ≡ false
      → database_of s.config s.filesystem ≡ some database
      → entry_file s.config s.filesystem s.username name ≡ some (file L h s name database deleted e)
  unfolding entry_file full_name
  file_lem plain set = rw (set, plain) refl

  target_lem :
      (p : Text)
      → s.opt.userworkspace ≡ false
      → join_path
          (join_path (L.parent_path p) deleted)
          (entry_name (entry_name s.username name) (L.to_text (h.clock 0)))
        ≡ deleted_path L h s name deleted p
  unfolding full_name stamped deleted_path
  target_lem p plain = rw plain refl

  -- The older release, from the answers of the database.
  old_release_lem :
      (db : Dict (DbFile L.File)) (dirs : Dict Dir) (euid egid : ℕ) (f : DbFile L.File)
      → CanRelease L h s name database deleted e false db
      → s.opt.userworkspace ≡ false
      → lookup (file L h s name database deleted e) db ≡ some f
      → read_dbfile L (file L h s name database deleted e) (idle release_caps db dirs euid egid)
        ≡ (ok o, idle release_caps db dirs euid egid)
      → o.wsdir ≡ e.wsdir
      → (db' : Dict (DbFile L.File)) × (release L h s.config s.filesystem s.username name
            (idle release_caps db dirs euid egid)
          ≡ (
            ending dirs,
            idle release_caps db'
                (move_dir L h e.wsdir (dir_target L h s name database deleted e) dirs).1
                euid
                egid,
          ))
        × (lookup (file_target L h s name database deleted e) db' ≡ some f)
        × (lookup (file L h s name database deleted e) db' ≡ none)
        × ((q : Text)
            → text_eq (file L h s name database deleted e) q ≡ false
            → text_eq (file_target L h s name database deleted e) q ≡ false
            → lookup q db' ≡ lookup q db)
  unfolding release
  old_release_lem db dirs euid egid f c plain stored reads same =
      let p = file L h s name database deleted e in
      let q = file_target L h s name database deleted e in
      let (db', moved, there, gone, others) = rename_in-moves h p q f db stored c.moved c.apart in
      (
        db',
        rw (file_lem plain c.database_set, release, c.found)
            (rw (reads, continue, c.deleted_set)
              (rw
                (
                  target_lem p plain,
                  move_entry_lem L h s.config c.build db dirs euid egid p q,
                  moved,
                  continue,
                )
                (rw
                  (
                    same,
                    target_lem e.wsdir plain,
                    move_workspace_lem L h s.config c.build db' dirs euid egid e.wsdir
                        (dir_target L h s name database deleted e),
                  )
                  (elim (Bool-cases
                    (move_dir L h e.wsdir (dir_target L h s name database deleted e) dirs).0) [
                      | inl done ↦ rw done refl
                      | inr kept ↦ rw kept refl
                    ])))),
        there,
        gone,
        others,
      )

  -- In the capabilities build, without --userworkspace and --delete-data, where the entry can be
  -- read by both tools, naming the same directory, and can be written and moved: the older and the
  -- present release end alike and leave the same directories, also where the directory cannot be
  -- moved. Every path of the database but the new one of the entry holds the same afterwards; there
  -- the older release leaves the entry as it was, the present one with the time of the release.
  pub release-agrees :
      (db : Dict (DbFile L.File)) (dirs : Dict Dir) (euid egid : ℕ) (f : DbFile L.File)
      → CanRelease L h s name database deleted e false db
      → s.opt.userworkspace ≡ false
      → lookup (file L h s name database deleted e) db ≡ some f
      → read_dbfile L (file L h s name database deleted e) (idle release_caps db dirs euid egid)
        ≡ (ok o, idle release_caps db dirs euid egid)
      → o.wsdir ≡ e.wsdir
      → (older db' : Dict (DbFile L.File)) × (dirs' : Dict Dir) × (answer : Result (Unit {0}))
        × (release L h s.config s.filesystem s.username name (idle release_caps db dirs euid egid)
            ≡ (answer, idle release_caps older dirs' euid egid))
        × (Release.release L h s name (idle allocate_caps db dirs euid egid)
            ≡ (answer, idle allocate_caps db' dirs' euid egid))
        × ((q : Text)
            → text_eq (file_target L h s name database deleted e) q ≡ false
            → lookup q older ≡ lookup q db')
        × (lookup (file_target L h s name database deleted e) older ≡ some f)
        × Holds
            (file_target L h s name database deleted e)
            (L.emit (entry_node L (released_entry L h s name e)))
            db'
  release-agrees db dirs euid egid f c plain stored reads same =
      let (older, old_ends, there, gone, others) =
        old_release_lem db dirs euid egid f c plain stored reads same in
      let (db', ends, is_moved) = release_lem L h s name database deleted e db dirs euid egid c in
      (
        older,
        db',
        _,
        _,
        old_ends,
        ends,
        λ q not_target. elim (Bool-cases (text_eq (file L h s name database deleted e) q)) [
          | inl at ↦
              let path : file L h s name database deleted e ≡ q = text_eq→eq _ q at in
              subst (λ z. lookup z older ≡ lookup z db') path (gone ∙ sym is_moved.gone)
          | inr not_file ↦
              others q not_file not_target ∙ sym (is_moved.others q not_file not_target)
        ],
        there,
        is_moved.there,
      )
