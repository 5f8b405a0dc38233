-- ===== src/Programs/Runs/Cycle.antt =====
-- A workspace from `ws_allocate` to `ws_release`, as the programs are run.
use hpc_workspace.Base.{ℕ, ◌≡◌, ap, ◌∙◌, Bool, true, false, Option, none, some, List, All}
use hpc_workspace.Base.Int.{ℤ, pos}
use hpc_workspace.Base.Text.{Text, has_char}
use hpc_workspace.Base.Dict.{Dict, lookup}
use hpc_workspace.World.{Host, Libs, CapSet, Dir, DbFile, World, Result, ok}
use hpc_workspace.World.Caps.{idle, allocate_caps, subset}
use hpc_workspace.Config.{Config, UserConfig, ws_allocate, ws_release}
use hpc_workspace.Access.{Validated, validate}
use hpc_workspace.Workspace.{Workspace, exists}
use hpc_workspace.Db.{WsDb}
use hpc_workspace.Allocate.{Request, Allocated, search_list}
use hpc_workspace.Allocate.Search.{Lacks}
use hpc_workspace.Allocate.Twice.{report, IsCreated, allocate-creates}
use hpc_workspace.Release.Moved.{IsMoved, dir_target}
use hpc_workspace.Programs.{ReleaseOptions, release_commandline, release_opts, release_main}
use hpc_workspace.Programs.Allocating.{
  AllocateOptions, UserHome, Arguments, allocate_commandline, allocate_opts, allocate_main,
}
use hpc_workspace.Programs.Allocating.After.{allocate_commandline-IsChecked}
use hpc_workspace.Programs.Runs.History.{History}
use hpc_workspace.Programs.Runs.Lifecycle.{CanRetire, entry}
use hpc_workspace.Programs.Runs.Meanwhile.{History-release}
use hpc_workspace.Programs.Runs.Mains.{object, request, allocate_main_lem, release_main_lem}
use mathlib.Core.Path.{subst}

-- `ws_allocate` is run at `h`, and `ws_release` later at `k`. `a` is what `commandline` makes of the
-- options of the first, `v` and `v'` are what the two validations give.
module _ (L : Libs) (h k : Host) (config : Config) (userconfig : UserConfig) (username : Text)
    (load_home : Text → Option UserHome) (parses : Text → Bool) (reminder duration : ℤ)
    (o : AllocateOptions) (conf : Text) (o' : ReleaseOptions) (a : Arguments) (v v' : Validated)
    (p wsdir group database deleted : Text) (ids : ℕ × ℕ) (euid egid : ℕ) where
  abbrev pub s : Workspace
  s =
      object config userconfig (allocate_opts h load_home parses reminder duration o a.completed)
        username v

  abbrev pub t : Workspace
  t = object config userconfig (release_opts o') username v'

  abbrev pub r : Request
  r = request o a

  abbrev pub created_entry : WsDb
  created_entry = entry L h k s t r p wsdir group database deleted ids euid egid

  -- Both programs accept their options and validate the user, who can create the workspace and
  -- release it; the processes start with the capabilities `caps` and `caps'`.
  pub record CanCycle (caps caps' : CapSet) : Type 0 where
    pub enough : subset allocate_caps caps ≡ true
    pub enough_later : subset allocate_caps caps' ≡ true
    pub asked : allocate_commandline h load_home parses reminder duration o conf ≡ ok a
    pub days : ℤ
    pub set : a.completed.duration ≡ some days
    pub asked_later : release_commandline o' ≡ ok a.name
    pub named : h.getpwuid h.uid ≡ some username
    pub named_later : k.getpwuid k.uid ≡ some username
    pub valid :
        (db : Dict (DbFile L.File)) (dirs : Dict Dir)
        → validate h config userconfig username ws_allocate s.opt days
            (pos 0)
            (idle allocate_caps db dirs euid egid)
          ≡ (ok v, idle allocate_caps db dirs euid egid)
    pub valid_later :
        (db : Dict (DbFile L.File)) (dirs : Dict Dir)
        → validate k config userconfig username ws_release t.opt
            (pos 0)
            (pos 0)
            (idle allocate_caps db dirs euid egid)
          ≡ (ok v', idle allocate_caps db dirs euid egid)
    pub retires : CanRetire L h k s t r p wsdir group database deleted ids euid egid

  module _ (numbers : (n : ℕ) → has_char b'/' (L.to_text n) ≡ false) (caps caps' : CapSet)
      (c : CanCycle caps caps') where
    abbrev allocating : Dict (DbFile L.File) → Dict Dir → Result Allocated × World L.File
    allocating db dirs =
        allocate_main h load_home parses reminder duration o L config userconfig (some conf)
          (idle caps db dirs euid egid)

    allocate_main-creates :
        (db : Dict (DbFile L.File)) (dirs : Dict Dir) (list : List Text)
        → exists wsdir dirs ≡ false
        → search_list L h s r (idle allocate_caps db dirs euid egid)
          ≡ (ok list, idle allocate_caps db dirs euid egid)
        → All (Lacks L h s r (idle allocate_caps db dirs euid egid)) list
        → (db' : Dict (DbFile L.File)) × (dirs' : Dict Dir) × (allocating db dirs ≡ (
          ok (report L h s r p wsdir group ids euid egid),
          idle allocate_caps db' dirs' euid egid,
        ))
          × IsCreated L h s r p wsdir group ids euid egid db' dirs'
    allocate_main-creates db dirs list new searched lack =
        let (db', dirs', allocated, made) =
          allocate-creates L h s r p wsdir group ids euid egid db dirs list c.retires.creates new
            searched lack in
        (
          db',
          dirs',
          allocate_main_lem L h config userconfig username v c.retires.creates.build db dirs euid
                egid caps load_home parses reminder duration o conf a c.days c.enough c.asked c.set
                c.named (c.valid db dirs)
              ∙ allocated,
          made,
        )

    -- If numbers are printed without a slash, in the capabilities build and for a user other than
    -- root, where both programs accept their options and validate the user, the system grants every
    -- call, no searched filesystem has the entry, the directory is new and the numbers fit their
    -- types: `ws_allocate` without -x creates the workspace. Whatever other users run then, who are
    -- not root, have plain names and do not run `ws_allocate -x -u` (the user's name is plain too), as
    -- long as the directory is still there, `ws_release` of the same name without --delete-data ends
    -- well. The entry and the directory are found under their stamped names, the directory's old path
    -- is free, and no other file of the database has changed.
    pub allocate_main-release_main :
        (db db' : Dict (DbFile L.File)) (dirs dirs' : Dict Dir) (list : List Text) (d : Dir)
        → exists wsdir dirs ≡ false
        → search_list L h s r (idle allocate_caps db dirs euid egid)
          ≡ (ok list, idle allocate_caps db dirs euid egid)
        → All (Lacks L h s r (idle allocate_caps db dirs euid egid)) list
        → History L numbers username (allocating db dirs).1 (idle allocate_caps db' dirs' euid egid)
        → lookup wsdir dirs' ≡ some d
        → ((allocating db dirs).0 ≡ ok (report L h s r p wsdir group ids euid egid))
          × (db'' : Dict (DbFile L.File)) × (dirs'' : Dict Dir) × (release_main L k config
                userconfig o'
                (idle caps' db' dirs' euid egid)
              ≡ (ok tt, idle allocate_caps db'' dirs'' euid egid))
          × IsMoved L k t r.name database deleted created_entry db' db''
          × (lookup (dir_target L k t r.name database deleted created_entry) dirs'' ≡ some d)
          × (lookup wsdir dirs'' ≡ none)
    allocate_main-release_main db db' dirs dirs' list d new searched lack others here =
        let (db1, dirs1, allocated, made) = allocate_main-creates db dirs list new searched lack in
        let (db'', dirs'', released, moved, there, gone) =
          History-release L numbers h k s t r p wsdir group database deleted ids euid egid db1 db'
            dirs1 dirs' d c.retires
            (allocate_commandline-IsChecked h load_home parses reminder duration o conf a
              c.asked).valid
            made
            (subst (λ w. History L numbers username w (idle allocate_caps db' dirs' euid egid))
              (ap (λ x. x.1) allocated) others)
            here in
        (
          ap (λ x. x.0) allocated,
          db'',
          dirs'',
          release_main_lem L k config userconfig username v' c.retires.build db' dirs' euid egid
                caps' o' a.name c.enough_later c.asked_later c.named_later (c.valid_later db' dirs')
              ∙ released,
          moved,
          there,
          gone,
        )
