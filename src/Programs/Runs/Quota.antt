-- ===== src/Programs/Runs/Quota.antt =====
-- The extensions of an entry over many runs of ws_allocate.
use mathlib.Core.Path.{subst, subst⁻¹}
use hpc_workspace.Base.{
  Bool, ◌≡◌, refl, ap, ◌∙◌, sym, false, Option, some, none, ◌==◌, ◌<◌, [], ◌∷◌, arith, Option-cases,
  Bool-cases, inl, inr, default_to,
}
use hpc_workspace.Base.Int.{ℤ, pos, IsInt}
use hpc_workspace.Base.Text.{Text, text_eq_refl, contains}
use hpc_workspace.World.{Host, Libs, IsLawful, World, ok, ok-injective}
use hpc_workspace.World.After.Files.{Files, OnFiles, After-drop_cap}
use hpc_workspace.Config.{Config, UserConfig}
use hpc_workspace.Workspace.{Workspace}
use hpc_workspace.Workspace.After.{After-new_workspace}
use hpc_workspace.Db.{WsDb}
use hpc_workspace.Allocate.{Request, search_list}
use hpc_workspace.Allocate.Paid.{HoldsPaid, IsWhole}
use hpc_workspace.Allocate.Quota.{IsListed, After-allocate}
use hpc_workspace.Programs.Allocating.{
  AllocateOptions, UserHome, Completed, is_old_format, complete,
}
use hpc_workspace.Programs.Allocating.After.{After-allocate_main}
use hpc_workspace.Programs.Runs.{allocates, run}

-- What a run of ws_allocate is given.
pub record Call : Type 0 where
  pub host : Host
  pub config : Config
  pub userconfig : UserConfig
  pub load_home : Text → Option UserHome
  pub parses : Text → Bool
  pub reminder : ℤ
  pub duration : ℤ
  pub options : AllocateOptions
  pub conf : Option Text

abbrev pub called : (L : Libs) → Call → World L.File → World L.File
called L c =
    run L c.host c.config c.userconfig
      (allocates c.load_home c.parses c.reminder c.duration c.options c.conf)

-- The caller is not root and gives a filesystem with -F; no write fails halfway; the clock has not left the range of `long`,
-- and every reminder is an `int`.
pub record IsCounted (c : Call) : Type 0 where
  pub mortal : (c.host.uid == 0) ≡ false
  pub whole : IsWhole c.host
  pub early : c.host.clock 0 < 9223372034707292160
  pub filesystem : Text
  pub given : c.options.filesystem ≡ some filesystem
  pub default_int : IsInt c.reminder
  pub option_int : (n : ℤ) → c.options.reminder ≡ some n → IsInt n
  pub home_int :
      (t : Text) (x : UserHome) (n : ℤ) → c.load_home t ≡ some x → x.reminder ≡ some n → IsInt n

default_to-IsInt :
    (o : Option ℤ) (d : ℤ) → IsInt d → ((n : ℤ) → o ≡ some n → IsInt n) → IsInt (default_to d o)
default_to-IsInt none d fits given = fits
default_to-IsInt (some n) d fits given = given n refl

complete-IsInt :
    (c : Call) (text : Text) (d : Completed)
    → IsCounted c
    → complete c.host c.load_home c.parses c.reminder c.duration c.options text ≡ ok d
    → IsInt d.reminder
unfolding complete
complete-IsInt c text d k e = elim (Bool-cases (is_old_format text)) [
  | inl old ↦
      subst IsInt (ap (λ x. x.reminder) (ok-injective (rw (old, complete) at e)))
        (default_to-IsInt c.options.reminder (pos 0) (omega arith, omega arith) k.option_int)
  | inr new ↦ elim (Option-cases (c.load_home text)) [
    | inl unreadable ↦ let e' = rw (new, unreadable, complete) at e in absurd (ground arith)
    | inr (x, home) ↦
        subst IsInt (ap (λ x. x.reminder) (ok-injective (rw (new, home, complete) at e))) (
          default_to-IsInt c.options.reminder _
            (default_to-IsInt x.reminder c.reminder k.default_int (λ n. k.home_int text x n home))
            k.option_int)
  ]
]

given-IsListed :
    (L : Libs) (h : Host) (s : Workspace) (r : Request)
    → s.opt.filesystem ≡ some s.filesystem
    → IsListed L h s r
unfolding search_list contains
given-IsListed L h s r given w v list e =
    let e' : (ok (s.filesystem ∷ []), w) ≡ (ok list, v) = rw (given, search_list) at e in
    let one : s.filesystem ∷ [] ≡ list = ground arith in
    rw (sym one) (rw (text_eq_refl s.filesystem) refl)

module _ (L : Libs) (law : IsLawful L) (e0 : WsDb) (p : Text) where
  run-HoldsPaid :
      (c : Call) (w : World L.File)
      → IsCounted c
      → HoldsPaid L e0 p w.db
      → HoldsPaid L e0 p (called L c w).db
  unfolding run
  run-HoldsPaid c w k held =
      let Q : Files L.File = λ db dirs. HoldsPaid L e0 p db in
      (After-allocate_main c.host c.load_home c.parses c.reminder c.duration c.options L c.config
        c.userconfig (OnFiles Q)
        (λ wc opt d m. After-new_workspace c.host c.config c.userconfig wc opt d m Q)
        (λ s r opt text a made same checked q w'.
          let (named, configured, optioned, chosen) = made in
          let given : s.opt.filesystem ≡ some s.filesystem =
            rw (optioned, same, k.given) (ap some (sym (chosen k.filesystem (same ∙ k.given)))) in
          After-allocate L c.host s r law k.mortal k.whole k.early
            (rw q.reminder (complete-IsInt c text a.completed k checked.completed)) e0 p w'
            (given-IsListed L c.host s r given))
        c.conf w (After-drop_cap Q c.host _ _ w held)).holds

  -- Runs of ws_allocate, one after the other, with what touches no file of the database in between.
  pub data Calls : World L.File → World L.File → Type 0 where
    nothing : (w : World L.File) → Calls w w
    then_call : (w u : World L.File) (c : Call) → Calls w u → IsCounted c → Calls w (called L c u)
    then_aside : (w u u' : World L.File) → Calls w u → u'.db ≡ u.db → Calls w u'

  -- If yaml-cpp reads what it has written: whatever runs of ws_allocate with -F are made by any users
  -- other than root, also with -u, however each ends and in both builds, as long as no write of a
  -- database file fails after the file was opened: an entry of the database stays an entry of the
  -- same directory. Its extensions never become more, nor negative, and they are fewer than at the
  -- start if its expiration is later than at the start. The clock is within the range of `long`, and
  -- reminders are `int`s.
  pub Calls-HoldsPaid :
      (w w' : World L.File) → Calls w w' → HoldsPaid L e0 p w.db → HoldsPaid L e0 p w'.db
  Calls-HoldsPaid w w' (nothing u) held = held
  Calls-HoldsPaid w w' (then_call a u c before k) held =
      run-HoldsPaid c u k (Calls-HoldsPaid w u before held)
  Calls-HoldsPaid w w' (then_aside a u u' before same) held =
      subst⁻¹ (HoldsPaid L e0 p) same (Calls-HoldsPaid w u before held)
