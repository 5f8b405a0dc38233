-- ===== src/Programs/Runs/Lifecycle.antt =====
-- A workspace that is created can be released.
use hpc_workspace.Base.{ℕ, ◌≡◌, ap, sym, ◌∙◌, true, false, ◌&&◌, ◌==◌, not, none, some, List, All}
use hpc_workspace.Base.Text.{Text, text_eq, is_empty}
use hpc_workspace.Base.Dict.{Dict, lookup}
use hpc_workspace.World.{Host, Libs, IsLawful, Dir, DbFile, ok, renamed}
use hpc_workspace.World.Caps.{idle, allocate_caps}
use hpc_workspace.Config.{database_of, deleted_of}
use hpc_workspace.Names.{join_path, entry_name}
use hpc_workspace.Workspace.{Workspace, exists, entry_file}
use hpc_workspace.Db.{WsDb, entry_node}
use hpc_workspace.Db.RoundTrip.{IsRanged}
use hpc_workspace.Db.Written.{Holds, open_entry-Holds}
use hpc_workspace.Allocate.{Request, entry_user, search_list, allocate}
use hpc_workspace.Allocate.Create.{finished_dir}
use hpc_workspace.Allocate.Search.{Lacks}
use hpc_workspace.Allocate.Twice.{CanCreate, created, report, allocate-creates}
use hpc_workspace.Release.{full_name, deleted_path, release}
use hpc_workspace.Release.Moved.{CanRelease, IsMoved, file, dir_target, release-moves}
use hpc_workspace.Programs.Runs.Own.{entry_file-known, full_name-own, entry_user-own}
use mathlib.Core.Path.{subst}

-- `ws_allocate` runs at `h` with `s`, and `ws_release` later at `k` with `t`, by the same user.
module _ (L : Libs) (h k : Host) (s t : Workspace) (r : Request)
    (p wsdir group database deleted : Text) (ids : ℕ × ℕ) (euid egid : ℕ) where
  abbrev pub entry : WsDb
  entry = created L h s r p wsdir group ids euid egid

  -- The user is not root, both runs have the same configuration and filesystem, and the system
  -- grants what the release asks for.
  pub record CanRetire : Type 0 where
    pub law : IsLawful L
    pub fits : IsRanged entry
    pub creates : CanCreate L h s r p wsdir group ids euid egid
    pub mortal : (h.uid == 0) ≡ false
    pub mortal_later : (k.uid == 0) ≡ false
    pub same_config : t.config ≡ s.config
    pub same_filesystem : t.filesystem ≡ s.filesystem
    pub same_user : t.username ≡ s.username
    pub build : k.setuid_build ≡ false
    pub database_set : database_of s.config s.filesystem ≡ some database
    pub deleted_set : deleted_of s.config s.filesystem ≡ some deleted
    pub written : k.write_ok p ≡ true
    pub moved : k.rename_answer p (deleted_path L k t r.name deleted p) ≡ renamed
    pub apart : text_eq (deleted_path L k t r.name deleted p) p ≡ false
    pub keeps : t.opt.delete_data ≡ false
    pub away : k.rename_answer wsdir (dir_target L k t r.name database deleted entry) ≡ renamed
    pub away_apart : text_eq (dir_target L k t r.name database deleted entry) wsdir ≡ false

  -- Both name the same file.
  pub same_file : CanRetire → p ≡ join_path database (full_name L k t r.name)
  unfolding entry_file
  same_file c =
      let own : (r.extensionflag && not (is_empty r.user_option)) ≡ false =
        ap (λ b. b && not (is_empty r.user_option)) c.creates.plain in
      let user : entry_user L h s r ≡ s.username = entry_user-own L h s c.mortal r own in
      let name : full_name L k t r.name ≡ entry_name t.username r.name =
        full_name-own L k t c.mortal_later r.name in
      entry_file-known s.config s.filesystem _ r.name database p c.database_set c.creates.file
      ∙ ap (join_path database) (ap (λ u. entry_name u r.name) (user ∙ sym c.same_user) ∙ sym name)

  module _ (db : Dict (DbFile L.File)) (c : CanRetire)
      (there : Holds p (L.emit (entry_node L entry)) db) where
    pub created-CanRelease : CanRelease L k t r.name database deleted entry false db
    created-CanRelease =
        let at : file L k t r.name database deleted entry ≡ p = sym (same_file c) in
        let (f, stored, same) = there in
        record {
          build = c.build;
          database_set = rw (c.same_config, c.same_filesystem) c.database_set;
          deleted_set = rw (c.same_config, c.same_filesystem) c.deleted_set;
          found = rw at (rw (stored, exists));
          opened = λ dirs euid egid. rw at (
              rw c.same_config (
                open_entry-Holds L h entry (idle allocate_caps db dirs euid egid) c.law c.fits
                  there));
          named = same_file c;
          written = rw at c.written;
          moved = rw at c.moved;
          apart = rw at c.apart;
          option = c.keeps;
        }

  -- In the capabilities build, by a user other than root, where the system grants every call, no
  -- searched filesystem has the entry, the directory is new and the numbers fit their types: a
  -- workspace that `allocate` creates without -x can be released by the same user at any later
  -- time, with the same configuration and filesystem and without --delete-data. Then the
  -- entry and the directory, with the owner and the permissions that it was created with, are
  -- found under their stamped names, and both old paths are free.
  pub allocate-release :
      (db : Dict (DbFile L.File)) (dirs : Dict Dir) (list : List Text)
      → CanRetire
      → exists wsdir dirs ≡ false
      → search_list L h s r (idle allocate_caps db dirs euid egid)
        ≡ (ok list, idle allocate_caps db dirs euid egid)
      → All (Lacks L h s r (idle allocate_caps db dirs euid egid)) list
      → (db' db'' : Dict (DbFile L.File)) × (dirs' dirs'' : Dict Dir) × (allocate L h s r
            (idle allocate_caps db dirs euid egid)
          ≡ (
            ok (report L h s r p wsdir group ids euid egid),
            idle allocate_caps db' dirs' euid egid,
          ))
        × (release L k t r.name (idle allocate_caps db' dirs' euid egid)
            ≡ (ok tt, idle allocate_caps db'' dirs'' euid egid))
        × IsMoved L k t r.name database deleted entry db' db''
        × (lookup p db'' ≡ none)
        × (lookup (dir_target L k t r.name database deleted entry) dirs''
            ≡ some (finished_dir s r ids))
        × (lookup wsdir dirs'' ≡ none)
  allocate-release db dirs list c new searched lack =
      let (db', dirs', allocated, made) =
        allocate-creates L h s r p wsdir group ids euid egid db dirs list c.creates new searched
          lack in
      let (db'', dirs'', released, m, there, gone) =
        release-moves L k t r.name database deleted entry db' dirs' euid egid _
          (created-CanRelease db' c made.entry) made.directory c.away c.away_apart in
      (
        db',
        db'',
        dirs',
        dirs'',
        allocated,
        released,
        m,
        subst (λ q. lookup q db'' ≡ none) (sym (same_file c)) m.gone,
        there,
        gone,
      )
