-- ===== src/World/After.antt =====
-- What holds of the world after an action, whether it has ended well or with an error: one rule for
-- each way to build an action. `search` applies them.
pub mod Files
pub mod Gives
use hpc_workspace.Base.{◌≡◌, refl, Bool, true, false, Option, none, some, if◌then◌else◌}
use hpc_workspace.World.{World, M, Result, ok, err, Error, or_fail, continue, when}

pub record After {F A : Type 0} (P : World F → Type 0) (r : Result A × World F) : Type 0 where
  pub holds : P r.1

module _ {F : Type 0} (P : World F → Type 0) where
  pub After-end : {A : Type 0} (a : Result A) (w : World F) → P w → After P (a, w)
  After-end a w p = record { holds = p }

  pub After-continue :
      {A B : Type 0} (r : Result A × World F) (f : A → M F B)
      → After P r
      → ((a : A) (w : World F) → P w → After P (f a w))
      → After P (continue r f)
  After-continue (ok a, w) f p q = q a w p.holds
  After-continue (err e, w) f p q = record { holds = p.holds }

  pub After-or_fail :
      {A : Type 0} (o : Option A) (e : Error) (w : World F) → P w → After P (or_fail o e w)
  After-or_fail none e w p = record { holds = p }
  After-or_fail (some a) e w p = record { holds = p }

  pub After-if :
      {A : Type 0} (b : Bool) (r s : Result A × World F)
      → After P r
      → After P s
      → After P (if b then r else s)
  After-if true r s p q = p
  After-if false r s p q = q

  -- Where an option is needed, what follows may use that it is there.
  pub After-some :
      {A B : Type 0} (o : Option A) (e : Error) (f : A → M F B) (w : World F)
      → P w
      → ((a : A) → o ≡ some a → After P (f a w))
      → After P (continue (or_fail o e w) f)
  After-some none e f w p go = record { holds = p }
  After-some (some a) e f w p go = go a refl

  -- One of two actions.
  pub After-branch :
      {A : Type 0} (b : Bool) (m n : M F A) (w : World F)
      → After P (m w)
      → After P (n w)
      → After P ((if b then m else n) w)
  After-branch true m n w p q = p
  After-branch false m n w p q = q

  -- What follows may use how the first action has ended.
  pub After-then :
      {A B : Type 0} (r : Result A × World F) (f : A → M F B)
      → After P r
      → ((a : A) (w : World F) → r ≡ (ok a, w) → P w → After P (f a w))
      → After P (continue r f)
  After-then (ok a, w) f p go = go a w refl p.holds
  After-then (err e, w) f p go = record { holds = p.holds }

  pub After-value :
      {A B : Type 0} (r : Result A) (f : A → M F B) (w : World F)
      → P w
      → ((a : A) → r ≡ ok a → After P (f a w))
      → After P (continue (r, w) f)
  After-value (ok a) f w p go = go a refl
  After-value (err e) f w p go = record { holds = p }

  -- One of two actions, which may use which one is taken.
  pub After-either :
      {A : Type 0} (b : Bool) (m n : M F A) (w : World F)
      → (b ≡ true → After P (m w))
      → (b ≡ false → After P (n w))
      → After P ((if b then m else n) w)
  After-either true m n w p q = p refl
  After-either false m n w p q = q refl

  pub After-when :
      (b : Bool) (m : M F (Unit {0})) (w : World F)
      → P w
      → (b ≡ true → After P (m w))
      → After P (when b m w)
  After-when true m w p go = go refl
  After-when false m w p go = record { holds = p }
