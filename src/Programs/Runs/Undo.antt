-- ===== src/Programs/Runs/Undo.antt =====
-- A workspace from `ws_release` to `ws_restore`, as the programs are run.
use hpc_workspace.Base.{
  ◌==◌, ap, ℕ, ◌≡◌, ◌∙◌, true, false, Option, none, some, List, [], default_to, refl,
}
use hpc_workspace.Base.Int.{pos}
use hpc_workspace.Base.Text.{Text, has_char, text_eq_refl}
use hpc_workspace.Base.Dict.{Dict, lookup, erase, lookup-erase}
use hpc_workspace.Ruh.{ruh}
use hpc_workspace.Ruh.Screen.{Output}
use hpc_workspace.Names.{check_name, join_path, entry_name}
use hpc_workspace.World.{Host, Libs, CapSet, Dir, DbFile, World, Result, ok, continue, ◌>>=◌, pure}
use hpc_workspace.World.Caps.{idle, allocate_caps, restore_caps, subset}
use hpc_workspace.Config.{Config, UserConfig, ws_release, ws_restore}
use hpc_workspace.Access.{Validated, validate}
use hpc_workspace.Workspace.{Workspace}
use hpc_workspace.Db.{WsDb}
use hpc_workspace.Release.{stamped}
use hpc_workspace.Restore.{restored, restore}
use hpc_workspace.Restore.Again.{CanUndo, KeepsBoth, moved-restore, from_dir, to_dir}
use hpc_workspace.Release.Moved.{IsMoved, release-moves}
use hpc_workspace.Programs.After.{release_commandline-valid}
use hpc_workspace.Programs.Runs.Owned.{stamped-IsEntryOf}
use hpc_workspace.Programs.Runs.History.{History, History-others}
use mathlib.Core.Path.{subst}
use hpc_workspace.Programs.{ReleaseOptions, release_commandline, release_opts, release_main}
use hpc_workspace.Programs.Restoring.{
  RestoreOptions, ended, restore_opts, restore_commandline, restore_user, restore_main, restore_one,
  restore_checked,
}
use hpc_workspace.Programs.Runs.Mains.{object, release_main_lem, dropped, new_workspace_lem}

module _ (L : Libs) (k : Host) (config : Config) (userconfig : UserConfig) (username : Text)
    (list_dir : Text → Option (List Text)) (rand : ℕ → ℕ) (typed : Text) (o : RestoreOptions)
    (v : Validated) (name target user : Text) (out : List Output) where
  -- The options ask for the restore of `name` into `target`, the name is one of the caller's, and
  -- the word is typed.
  pub record IsAsked : Type 0 where
    pub asked : restore_commandline o ≡ ok tt
    pub no_list : o.list ≡ false
    pub name_given : default_to [] o.name ≡ name
    pub target_given : default_to [] o.target ≡ target
    pub user_given : restore_user o.username username ≡ ok user
    pub own_name : check_name name user username ≡ true
    pub human : ruh rand typed ≡ some (out, true)
    pub named : k.getpwuid k.uid ≡ some username

  -- A validated `ws_restore` that is asked so restores.
  pub restore_main_lem :
      (db : Dict (DbFile L.File)) (dirs : Dict Dir) (euid egid : ℕ) (caps : CapSet)
      → IsAsked
      → k.setuid_build ≡ false
      → subset restore_caps caps ≡ true
      → validate k config userconfig username ws_restore
          (restore_opts o)
          (pos 0)
          (pos 0)
          (idle restore_caps db dirs euid egid)
        ≡ (ok v, idle restore_caps db dirs euid egid)
      → restore_main L k config userconfig list_dir rand typed o (idle caps db dirs euid egid)
        ≡ (restore L k (object config userconfig (restore_opts o) username v) name target user
              >>= λ e. pure (ended e))
            (idle restore_caps db dirs euid egid)
  unfolding restore_main restore_one restore_checked
  restore_main_lem db dirs euid egid caps c build enough valid =
      rw
        (
          dropped k build restore_caps refl db dirs euid egid caps config.dbuid enough,
          restore_main,
          continue,
          c.asked,
          c.no_list,
        )
        (rw
          (
            new_workspace_lem k build restore_caps refl db dirs euid egid config userconfig username
                v ws_restore (restore_opts o) (pos 0) (pos 0) c.named valid,
            restore_one,
            continue,
            c.user_given,
          )
          (rw (c.name_given, c.target_given, c.own_name, c.human, restore_checked) refl))

-- `ws_release` is run at `h`, and `ws_restore` later at `k`, by the same user or by root. `name` is
-- what the first releases, `target` the user's workspace that the second restores into, `v` and `v'`
-- are what the two validations give.
module _ (L : Libs) (h k : Host) (config : Config) (userconfig : UserConfig)
    (username caller : Text) (list_dir : Text → Option (List Text)) (rand : ℕ → ℕ) (typed : Text)
    (o : ReleaseOptions) (o' : RestoreOptions) (v v' : Validated)
    (name target database deleted : Text) (out : List Output) (e te : WsDb) (euid egid : ℕ) where
  abbrev pub s : Workspace
  s = object config userconfig (release_opts o) username v

  abbrev pub t : Workspace
  t = object config userconfig (restore_opts o') caller v'

  -- The entry in the `deleted` directory.
  abbrev pub old_file : Text
  old_file = join_path (join_path database deleted) (stamped L h s name)

  -- Both programs accept their options and validate their callers, and what the first puts away can
  -- be brought back; the processes start with the capabilities `caps` and `caps'`.
  pub record CanReturn (db : Dict (DbFile L.File)) (dirs : Dict Dir) (d : Dir) (caps caps' : CapSet)
      : Type 0 where
    pub enough : subset allocate_caps caps ≡ true
    pub enough_later : subset restore_caps caps' ≡ true
    pub asked : release_commandline o ≡ ok name
    pub named : h.getpwuid h.uid ≡ some username
    pub mortal : (h.uid == 0) ≡ false
    pub target_plain : has_char b'/' target ≡ false
    pub asked_later :
        IsAsked L k config userconfig caller list_dir rand typed o' v'
          (stamped L h s name)
          target
          username
          out
    pub valid :
        validate h config userconfig username ws_release
          (release_opts o)
          (pos 0)
          (pos 0)
          (idle allocate_caps db dirs euid egid)
        ≡ (ok v, idle allocate_caps db dirs euid egid)
    pub valid_later :
        (db' : Dict (DbFile L.File)) (dirs' : Dict Dir)
        → validate k config userconfig caller ws_restore
            (restore_opts o')
            (pos 0)
            (pos 0)
            (idle restore_caps db' dirs' euid egid)
          ≡ (ok v', idle restore_caps db' dirs' euid egid)
    pub undoes : CanUndo L h k s t name target username database deleted e te db dirs d

  module _ (numbers : (n : ℕ) → has_char b'/' (L.to_text n) ≡ false) (db : Dict (DbFile L.File))
      (dirs : Dict Dir) (d : Dir) (caps caps' : CapSet) (c : CanReturn db dirs d caps caps') where
    abbrev releasing : Result (Unit {0}) × World L.File
    releasing = release_main L h config userconfig o (idle caps db dirs euid egid)

    release_main-moves :
        (db' : Dict (DbFile L.File)) × (dirs' : Dict Dir) × (releasing
          ≡ (ok tt, idle allocate_caps db' dirs' euid egid))
        × IsMoved L h s name database deleted e db db'
        × (lookup e.wsdir dirs' ≡ none)
    release_main-moves =
        let (db', dirs', released, m, there, gone) =
          release-moves L h s name database deleted e db dirs euid egid d c.undoes.releases
            c.undoes.directory c.undoes.away c.undoes.away_apart in
        (
          db',
          dirs',
          release_main_lem L h config userconfig username v c.undoes.releases.build db dirs euid
                egid caps o name c.enough c.asked c.named c.valid
              ∙ released,
          m,
          gone,
        )

    -- The other users leave the two entries of the restore alone.
    History-KeepsBoth :
        (db' db'' : Dict (DbFile L.File)) (dirs' dirs'' : Dict Dir)
        → History L numbers username
            (idle allocate_caps db' dirs' euid egid)
            (idle allocate_caps db'' dirs'' euid egid)
        → KeepsBoth L h k s t name target username database deleted e te db db' dirs d c.undoes db''
    History-KeepsBoth db' db'' dirs' dirs'' others = record {
      old_kept =
          History-others L numbers username old_file _ _
            (stamped-IsEntryOf L h s c.mortal numbers (join_path database deleted) name
              (release_commandline-valid o name c.asked))
            others;
      target_kept =
          History-others L numbers username (join_path database (entry_name username target)) _ _
            (database, target, refl, c.target_plain) others;
    }

    -- If numbers are printed without a slash, in the capabilities build and for a user other than
    -- root, where both programs accept their options and validate their callers, the word that the
    -- terminal shows is typed, every system call is granted, the paths are different ones, the
    -- filesystem is restorable, the target's name has no slash and its entry can be read, and the
    -- numbers of the entry fit their types: `ws_release` without --delete-data puts the workspace
    -- away. Whatever other users run then, who are not root, have plain names and do not run
    -- `ws_allocate -x -u` (the user's name is plain too), as long as the directory is still where it
    -- was put, `ws_restore` under the stamped name, by the user or by root for the user, brings it
    -- back: the directory is in the target workspace at the end, nothing is left of it in the
    -- `deleted` directory, and neither is its entry there.
    pub release_main-restore_main :
        (db' : Dict (DbFile L.File)) (dirs' : Dict Dir)
        → History L numbers username releasing.1 (idle allocate_caps db' dirs' euid egid)
        → lookup (from_dir L h k s t name target username database deleted e te) dirs' ≡ some d
        → (releasing.0 ≡ ok tt)
          × (lookup e.wsdir releasing.1.dirs ≡ none)
          × (db'' : Dict (DbFile L.File)) × (dirs'' : Dict Dir) × (restore_main L k config
                userconfig list_dir rand typed o'
                (idle caps' db' dirs' euid egid)
              ≡ (ok (ended restored), idle restore_caps db'' dirs'' euid egid))
          × (lookup (to_dir L h k s t name target username database deleted e te) dirs'' ≡ some d)
          × (lookup (from_dir L h k s t name target username database deleted e te) dirs'' ≡ none)
          × (lookup old_file db'' ≡ none)
    release_main-restore_main db' dirs' others there =
        let (db1, dirs1, released, m, gone) = release_main-moves in
        let kept = History-KeepsBoth db1 db' dirs1 dirs' (
          subst (λ w. History L numbers username w (idle allocate_caps db' dirs' euid egid))
            (ap (λ x. x.1) released) others) in
        let (dirs'', back, at, left) =
          moved-restore L h k s t name target username database deleted e te db db1 dirs d c.undoes
            db' dirs' euid egid m kept there in
        (
          ap (λ x. x.0) released,
          ap (λ x. lookup e.wsdir x.1.dirs) released ∙ gone,
          erase old_file db',
          dirs'',
          restore_main_lem L k config userconfig caller list_dir rand typed o' v'
                (stamped L h s name) target username out db' dirs' euid egid caps' c.asked_later
                c.undoes.build c.enough_later (c.valid_later db' dirs')
              ∙ rw (back, continue) refl,
          at,
          left,
          rw (lookup-erase, text_eq_refl old_file),
        )
