-- ===== src/Programs/Runs/Meanwhile.antt =====
-- What other users do in between does not keep a user from releasing a workspace.
use hpc_workspace.Base.{ℕ, ◌≡◌, ◌∙◌, true, false, none, some}
use hpc_workspace.Base.Text.{Text, has_char}
use hpc_workspace.Base.Dict.{Dict, lookup}
use hpc_workspace.World.{Host, Libs, Dir, DbFile, ok}
use hpc_workspace.World.Caps.{idle, allocate_caps}
use hpc_workspace.Names.{valid_name}
use hpc_workspace.Names.Owner.{IsEntryOf}
use hpc_workspace.Workspace.{Workspace}
use hpc_workspace.Allocate.{Request}
use hpc_workspace.Allocate.Twice.{IsCreated}
use hpc_workspace.Release.{release}
use hpc_workspace.Release.Moved.{IsMoved, dir_target, release-moves}
use hpc_workspace.Programs.Runs.Owned.{full_name-IsEntryOf}
use hpc_workspace.Programs.Runs.History.{History, History-others}
use hpc_workspace.Programs.Runs.Lifecycle.{CanRetire, entry, same_file, created-CanRelease}
use mathlib.Core.Path.{subst⁻¹}

module _ (L : Libs) (numbers : (n : ℕ) → has_char b'/' (L.to_text n) ≡ false) (h k : Host)
    (s t : Workspace) (r : Request) (p wsdir group database deleted : Text) (ids : ℕ × ℕ)
    (euid egid : ℕ) where
  created_file-IsEntryOf :
      CanRetire L h k s t r p wsdir group database deleted ids euid egid
      → valid_name r.name ≡ true
      → IsEntryOf t.username p
  created_file-IsEntryOf c valid =
      subst⁻¹ (IsEntryOf t.username)
        (same_file L h k s t r p wsdir group database deleted ids euid egid c)
        (full_name-IsEntryOf L k t c.mortal_later numbers database r.name valid)

  -- If numbers are printed without a slash, in the capabilities build, by a user other than root:
  -- whatever the other users run after a workspace was created, as long as its directory is still
  -- there and the system grants every call, the user can release it, without --delete-data. The
  -- entry and the directory are found under their stamped names, and no other file of the database
  -- has changed.
  pub History-release :
      (db db' : Dict (DbFile L.File)) (dirs dirs' : Dict Dir) (d : Dir)
      → CanRetire L h k s t r p wsdir group database deleted ids euid egid
      → valid_name r.name ≡ true
      → IsCreated L h s r p wsdir group ids euid egid db dirs
      → History L numbers t.username
          (idle allocate_caps db dirs euid egid)
          (idle allocate_caps db' dirs' euid egid)
      → lookup wsdir dirs' ≡ some d
      → let e = entry L h k s t r p wsdir group database deleted ids euid egid in
        (db'' : Dict (DbFile L.File)) × (dirs'' : Dict Dir) × (release L k t r.name
            (idle allocate_caps db' dirs' euid egid)
          ≡ (ok tt, idle allocate_caps db'' dirs'' euid egid))
        × IsMoved L k t r.name database deleted e db' db''
        × (lookup (dir_target L k t r.name database deleted e) dirs'' ≡ some d)
        × (lookup wsdir dirs'' ≡ none)
  History-release db db' dirs dirs' d c valid made others here =
      let (f, stored, same) = made.entry in
      let kept : lookup p db' ≡ some f =
        History-others L numbers t.username p _ _ (created_file-IsEntryOf c valid) others
        ∙ stored in
      release-moves L k t r.name database deleted _ db' dirs' euid egid d
        (created-CanRelease L h k s t r p wsdir group database deleted ids euid egid db' c
          (f, kept, same))
        here c.away c.away_apart
