-- ===== src/Programs/Allocating/After.antt =====
-- What a run of ws_allocate keeps, however it ends, if each of its steps keeps it.
use hpc_workspace.Base.{
  Bool, true, false, not, ◌&&◌, Option, ◌≡◌, arith, if◌then◌else◌, is_some, Bool-cases,
  Option-cases, inl, inr,
}
use hpc_workspace.Base.Int.{ℤ}
use hpc_workspace.Base.Text.{Text, is_empty}
use hpc_workspace.World.{Host, Libs, World, Result, ok, err, bad_name}
use hpc_workspace.World.After.{After, After-continue, After-value, After-or_fail}
use hpc_workspace.World.Caps.{drop_cap, allocate_caps}
use hpc_workspace.Config.{Config, UserConfig, Opts}
use hpc_workspace.Names.{valid_name}
use hpc_workspace.Workspace.{Workspace}
use hpc_workspace.Workspace.After.{IsOf, After-with_workspace}
use hpc_workspace.Allocate.{Request, allocate}
use hpc_workspace.Programs.After.{Makes}
use hpc_workspace.Programs.Allocating.{
  AllocateOptions, UserHome, Completed, Arguments, and_then, first_user, complete, checked_mail,
  allocate_commandline, allocate_main,
}

-- The last steps of `commandline`.
abbrev last_steps : Text → Result Completed → (Completed → Result Text) → Result Arguments
last_steps name r mail = and_then r (λ c. and_then (mail c) (λ m.
    if not (valid_name name)
    then err bad_name
    else ok (record { name = name; mailaddress = m; completed = c })))

last_steps-ok :
    (name : Text) (r : Result Completed) (mail : Completed → Result Text) (a : Arguments)
    → last_steps name r mail ≡ ok a
    → (valid_name a.name ≡ true) × (r ≡ ok a.completed)
last_steps-ok name (err x) mail a e = absurd (ground arith)
last_steps-ok name (ok c) mail a e = with_mail (mail c) e
  where
    with_mail :
        (m : Result Text)
        → and_then m (λ m.
          if not (valid_name name)
          then err bad_name
          else ok (record { name = name; mailaddress = m; completed = c }))
          ≡ ok a
        → (valid_name a.name ≡ true) × (ok c ≡ ok a.completed)
    with_mail (err x) e = absurd (ground arith)
    with_mail (ok m) e = ground arith

module _ (h : Host) (load_home : Text → Option UserHome) (parses : Text → Bool)
    (reminderdefault durationdefault : ℤ) (o : AllocateOptions) where
  -- -x and -u are not both given.
  abbrev pub OwnOnly : Type 0
  OwnOnly = (o.extension && is_some o.username) ≡ false

  complete-own :
      (conf : Text) (c : Completed)
      → OwnOnly
      → complete h load_home parses reminderdefault durationdefault o conf ≡ ok c
      → (o.extension && not (is_empty c.user_option)) ≡ false
  unfolding complete first_user
  complete-own conf c own e = ground arith

  -- What `commandline` lets through.
  pub record IsChecked (conf : Text) (a : Arguments) : Type 0 where
    pub valid : valid_name a.name ≡ true
    pub completed :
        complete h load_home parses reminderdefault durationdefault o conf ≡ ok a.completed

  pub allocate_commandline-IsChecked :
      (conf : Text) (a : Arguments)
      → allocate_commandline h load_home parses reminderdefault durationdefault o conf ≡ ok a
      → IsChecked conf a
  unfolding allocate_commandline
  allocate_commandline-IsChecked conf a e = elim (Bool-cases o.shows) [
    | inl shows ↦ absurd (ground arith)
    | inr goes ↦ elim (Option-cases o.name) [
      | inl nameless ↦ absurd (ground arith)
      | inr (name, given) ↦
          let e0 = rw (goes, given, allocate_commandline) at e in
          let (valid, done) =
            last_steps-ok name (complete h load_home parses reminderdefault durationdefault o conf)
              (checked_mail h load_home parses reminderdefault durationdefault o conf) a e0 in
          record { valid = valid; completed = done }
    ]
  ]

  -- The arguments of `allocate` in `main`.
  pub record IsRequest (a : Arguments) (r : Request) : Type 0 where
    pub name : r.name ≡ a.name
    pub extensionflag : r.extensionflag ≡ o.extension
    pub user_option : r.user_option ≡ a.completed.user_option
    pub reminder : r.reminder ≡ a.completed.reminder

  -- An own request names no other user in an extension.
  pub IsRequest-own :
      (conf : Text) (a : Arguments) (r : Request)
      → IsChecked conf a
      → IsRequest a r
      → OwnOnly
      → (r.extensionflag && not (is_empty r.user_option)) ≡ false
  IsRequest-own conf a r c q own =
      rw (q.extensionflag, q.user_option) (complete-own conf a.completed own c.completed)

  module _ (L : Libs) (config : Config) (userconfig : UserConfig) (P : World L.File → Type 0)
      (reads : Makes h config userconfig P)
      (k : (s : Workspace) (r : Request) (opt : Opts) (conf : Text) (a : Arguments)
        → IsOf h config opt s
        → opt.filesystem ≡ o.filesystem
        → IsChecked conf a
        → IsRequest a r
        → (w : World L.File) → P w
        → After P (allocate L h s r w)) where
    -- The call of `allocate` in `main`.
    After-allocate_with :
        (s : Workspace) (conf : Text) (a : Arguments) (r : Request) (opt : Opts) (w : World L.File)
        → IsOf h config opt s
        → opt.filesystem ≡ o.filesystem
        → allocate_commandline h load_home parses reminderdefault durationdefault o conf ≡ ok a
        → r.name ≡ a.name
        → r.extensionflag ≡ o.extension
        → r.user_option ≡ a.completed.user_option
        → r.reminder ≡ a.completed.reminder
        → P w
        → After P (allocate L h s r w)
    After-allocate_with s conf a r opt w made given e names extends user reminder =
        k s r opt conf a made given (allocate_commandline-IsChecked conf a e)
          (record {
            name = names;
            extensionflag = extends;
            user_option = user;
            reminder = reminder;
          })
          w

    pub After-allocate_main :
        (conf : Option Text) (w : World L.File)
        → After P (drop_cap h allocate_caps h.uid w)
        → After P (
            allocate_main h load_home parses reminderdefault durationdefault o L config userconfig
              conf w)
    unfolding allocate_main
    After-allocate_main conf w q =
        search
          (
            After-value P,
            After-with_workspace h config userconfig,
            After-or_fail P,
            After-continue P,
            reads,
            After-allocate_with,
          )
          depth 60
