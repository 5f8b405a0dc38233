-- ===== src/Programs/Runs/Mains.antt =====
-- The `main`s in the capabilities build, up to the call of the operation: the steps that the three
-- share, and from them `main` of ws_allocate and of ws_release. That of ws_restore is in Runs.Undo.
use hpc_workspace.Base.{arith, ℕ, ◌≡◌, refl, true, false, some, default_to, Option, Bool, []}
use hpc_workspace.Base.Int.{ℤ, pos}
use hpc_workspace.Base.Text.{Text}
use hpc_workspace.Base.Dict.{Dict}
use hpc_workspace.World.{Host, Libs, CapSet, DbFile, Dir, World, ok, continue}
use hpc_workspace.World.Caps.{
  idle, allocate_caps, subset, no_caps, drop_cap, set_flag, raise_cap, lower_cap, cap_dac_override,
}
use hpc_workspace.Config.{Config, UserConfig, Opts, WhichClient, ws_allocate, ws_release}
use hpc_workspace.Access.{Validated, validate}
use hpc_workspace.Workspace.{Workspace, new_workspace}
use hpc_workspace.Allocate.{Request, allocate}
use hpc_workspace.Release.{release}
use hpc_workspace.Programs.{ReleaseOptions, release_commandline, release_opts, release_main}
use hpc_workspace.Programs.Allocating.{
  AllocateOptions, UserHome, Arguments, allocate_commandline, allocate_opts, allocate_main,
}

-- The workspace object that a validation gives.
abbrev pub object : Config → UserConfig → Opts → Text → Validated → Workspace
object config userconfig opt username v = record {
  config = config;
  userconfig = userconfig;
  opt = opt;
  maxextensions = v.maxextensions;
  duration = v.duration;
  filesystem = v.filesystem;
  acctcode = v.primarygroup;
  username = username;
}

-- The arguments of `allocate`.
abbrev pub request : AllocateOptions → Arguments → Request
request o a = record {
  name = a.name;
  extensionflag = o.extension;
  reminder = a.completed.reminder;
  mailaddress = a.mailaddress;
  user_option = a.completed.user_option;
  groupname = a.completed.groupname;
  comment = default_to [] o.comment;
}

subset_refl : (s : CapSet) → subset s s ≡ true
subset_refl s = ground arith

-- In the capabilities build, a program that keeps `kept`.
module _ {F : Type 0} (h : Host) (build : h.setuid_build ≡ false) (kept : CapSet)
    (can : kept.dac_override ≡ true) (db : Dict (DbFile F)) (dirs : Dict Dir) (euid egid : ℕ) where
  pub dropped :
      (caps : CapSet) (dbuid : ℕ)
      → subset kept caps ≡ true
      → drop_cap h kept dbuid (idle caps db dirs euid egid) ≡ (ok tt, idle kept db dirs euid egid)
  unfolding drop_cap
  dropped caps dbuid enough = rw (build, enough, drop_cap) refl

  abbrev raised_world : World F
  raised_world = record (idle kept db dirs euid egid) {
    effective = set_flag cap_dac_override true no_caps;
  }

  raised : raise_cap h cap_dac_override (idle kept db dirs euid egid) ≡ (ok tt, raised_world)
  unfolding raise_cap
  raised = rw (build, subset_refl kept, can, raise_cap) refl

  lowered :
      (dbuid : ℕ)
      → lower_cap h cap_dac_override dbuid raised_world ≡ (ok tt, idle kept db dirs euid egid)
  unfolding lower_cap
  lowered dbuid = rw (build, subset_refl kept, lower_cap) refl

  pub new_workspace_lem :
      (config : Config) (userconfig : UserConfig) (username : Text) (v : Validated)
      (wc : WhichClient) (opt : Opts) (duration max : ℤ)
      → h.getpwuid h.uid ≡ some username
      → validate h config userconfig username wc opt duration max (idle kept db dirs euid egid)
        ≡ (ok v, idle kept db dirs euid egid)
      → new_workspace h config userconfig wc opt duration max (idle kept db dirs euid egid)
        ≡ (ok (object config userconfig opt username v), idle kept db dirs euid egid)
  unfolding new_workspace
  new_workspace_lem config userconfig username v wc opt duration max named valid =
      rw (raised, new_workspace, continue)
        (rw (lowered config.dbuid, continue, named) (rw (valid, continue) refl))

module _ (L : Libs) (h : Host) (config : Config) (userconfig : UserConfig) (username : Text)
    (v : Validated) (build : h.setuid_build ≡ false) (db : Dict (DbFile L.File)) (dirs : Dict Dir)
    (euid egid : ℕ) (caps : CapSet) where
  abbrev w : World L.File
  w = idle allocate_caps db dirs euid egid

  -- A validated `ws_release` releases.
  pub release_main_lem :
      (o : ReleaseOptions) (name : Text)
      → subset allocate_caps caps ≡ true
      → release_commandline o ≡ ok name
      → h.getpwuid h.uid ≡ some username
      → validate h config userconfig username ws_release (release_opts o) (pos 0) (pos 0) w
        ≡ (ok v, w)
      → release_main L h config userconfig o (idle caps db dirs euid egid)
        ≡ release L h (object config userconfig (release_opts o) username v) name w
  unfolding release_main
  release_main_lem o name enough asked named valid =
      rw
        (
          dropped h build allocate_caps refl db dirs euid egid caps config.dbuid enough,
          release_main,
          continue,
          asked,
        )
        (rw
          (
            new_workspace_lem h build allocate_caps refl db dirs euid egid config userconfig
                username v ws_release (release_opts o) (pos 0) (pos 0) named valid,
            continue,
          )
          refl)

  -- A validated `ws_allocate` allocates.
  module _ (load_home : Text → Option UserHome) (parses : Text → Bool)
      (reminderdefault durationdefault : ℤ) (o : AllocateOptions) where
    pub allocate_main_lem :
        (conf : Text) (a : Arguments) (duration : ℤ)
        → subset allocate_caps caps ≡ true
        → allocate_commandline h load_home parses reminderdefault durationdefault o conf ≡ ok a
        → a.completed.duration ≡ some duration
        → h.getpwuid h.uid ≡ some username
        → validate h config userconfig username ws_allocate
            (allocate_opts h load_home parses reminderdefault durationdefault o a.completed)
            duration
            (pos 0)
            w
          ≡ (ok v, w)
        → allocate_main h load_home parses reminderdefault durationdefault o L config userconfig
            (some conf)
            (idle caps db dirs euid egid)
          ≡ allocate L h
              (object config userconfig
                (allocate_opts h load_home parses reminderdefault durationdefault o a.completed)
                username
                v)
              (request o a)
              w
    unfolding allocate_main
    allocate_main_lem conf a duration enough asked set named valid =
        rw
          (
            dropped h build allocate_caps refl db dirs euid egid caps h.uid enough,
            allocate_main,
            continue,
            asked,
          )
          (rw set (
            rw
              (
                new_workspace_lem h build allocate_caps refl db dirs euid egid config userconfig
                    username v ws_allocate
                    (allocate_opts h load_home parses reminderdefault durationdefault o a.completed)
                    duration (pos 0) named valid,
                continue,
              )
              refl))
