-- ===== src/Programs/Allocating/Checks.antt =====
-- What `commandline` of src/ws_allocate.cpp lets through and what it completes.
use hpc_workspace.Base.{Bool, true, not, Option, none, some, if◌then◌else◌}
use hpc_workspace.Base.{◌≡◌, ◌≢◌, ◌↔◌, refl, arith, Bool-cases, Option-cases, inl, inr}
use hpc_workspace.Base.Int.{ℤ, pos, eqb_ℤ, eqb_ℤ_iff}
use hpc_workspace.Base.Text.{Text}
use hpc_workspace.World.{Host, Result, ok, err, ok-injective, bad_name, bad_mail}
use hpc_workspace.Names.{valid_name, valid_mail}
use mathlib.Core.Path.{subst}
use hpc_workspace.Programs.Allocating.{
  AllocateOptions, UserHome, Completed, Arguments, and_then, is_old_format, complete, found_mail,
  checked_mail, allocate_commandline,
}

module _ (h : Host) (load_home : Text → Option UserHome) (parses : Text → Bool)
    (reminderdefault durationdefault : ℤ) (o : AllocateOptions) where
  valid_mail_of_ok :
      (r : Result Text) (m : Text)
      → and_then r (λ m. if not (valid_mail m) then err bad_mail else ok m) ≡ ok m
      → valid_mail m ≡ true
  valid_mail_of_ok (err x) m e = absurd (cc)
  valid_mail_of_ok (ok x) m e = elim (Bool-cases (valid_mail x)) [
    | inl good ↦ let q : x ≡ m = ok-injective (rw good at e) in rw (← q) good
    | inr bad ↦ absurd (cc (rw bad at e))
  ]

  checked_mail-valid_mail :
      (conf m : Text) (c : Completed)
      → checked_mail h load_home parses reminderdefault durationdefault o conf c ≡ ok m
      → c.reminder ≢ pos 0
      → valid_mail m ≡ true
  unfolding checked_mail
  checked_mail-valid_mail conf m c e r = elim (Bool-cases (eqb_ℤ c.reminder (pos 0))) [
    | inl zero ↦ absurd (r ((eqb_ℤ_iff c.reminder (pos 0)).0 zero))
    | inr given ↦
        valid_mail_of_ok
          (elim o.mailaddress [
            | none ↦ found_mail h load_home parses reminderdefault durationdefault o conf c.home
            | some m' ↦ ok m'
          ])
          m (rw (given, checked_mail) at e)
  ]

  -- What passes `commandline` has a name that is accepted, and with a reminder an address that is
  -- accepted, also where it comes from the user's file or is the user's name.
  pub allocate_commandline-checks :
      (conf : Text) {a : Arguments}
      → allocate_commandline h load_home parses reminderdefault durationdefault o conf ≡ ok a
      → (valid_name a.name ≡ true)
        × (a.completed.reminder ≢ pos 0 → valid_mail a.mailaddress ≡ true)
  unfolding allocate_commandline
  allocate_commandline-checks conf {a} e = elim (Bool-cases o.shows) [
    | inl shown ↦ absurd (cc (rw (shown, allocate_commandline) at e))
    | inr not_shown ↦ elim (Option-cases o.name) [
      | inl missing ↦ absurd (cc (rw (not_shown, missing, allocate_commandline) at e))
      | inr (name, named) ↦
          go name (complete h load_home parses reminderdefault durationdefault o conf)
            (rw (not_shown, named, allocate_commandline) at e)
    ]
  ]
    where
      last : (name m : Text) (c : Completed) → Result Arguments
      last name m c =
          if not (valid_name name)
          then err bad_name
          else ok (record { name = name; mailaddress = m; completed = c })

      IsChecked : Arguments → Type 0
      IsChecked a =
          (valid_name a.name ≡ true)
          × (a.completed.reminder ≢ pos 0 → valid_mail a.mailaddress ≡ true)

      ends :
          (name : Text) (c : Completed) (r : Result Text)
          → checked_mail h load_home parses reminderdefault durationdefault o conf c ≡ r
          → and_then r (λ m. last name m c) ≡ ok a
          → IsChecked a
      ends name c (err x) p q = absurd (cc)
      ends name c (ok m) p q = elim (Bool-cases (valid_name name)) [
        | inl good ↦
            subst IsChecked (ok-injective (rw good at q)) (good, checked_mail-valid_mail conf m c p)
        | inr bad ↦ absurd (cc (rw bad at q))
      ]

      go :
          (name : Text) (r : Result Completed)
          → and_then r (λ c.
            and_then
              (checked_mail h load_home parses reminderdefault durationdefault o conf c)
              (λ m. last name m c))
            ≡ ok a
          → (valid_name a.name ≡ true)
            × (a.completed.reminder ≢ pos 0 → valid_mail a.mailaddress ≡ true)
      go name (err x) q = absurd (cc)
      go name (ok c) q =
          ends name c (checked_mail h load_home parses reminderdefault durationdefault o conf c)
            refl q

  -- The duration is left unset exactly if the user's file has the old format and -d is not given.
  pub complete-duration :
      (conf : Text) {c : Completed}
      → complete h load_home parses reminderdefault durationdefault o conf ≡ ok c
      → (c.duration ≡ none) ↔ ((is_old_format conf ≡ true) × (o.duration ≡ none))
  unfolding complete
  complete-duration conf {c} e = ground arith
