-- ===== src/World/After/Gives.antt =====
-- What holds of the value of an action that ends well, with the rules for `search`.
use hpc_workspace.Base.{◌≡◌, refl, Option, some, none, arith}
use hpc_workspace.World.{World, M, Result, ok, err, Error, or_fail, continue}

pub record Gives {F A : Type 0} (R : A → Type 0) (r : Result A × World F) : Type 0 where
  pub holds : (a : A) (w : World F) → r ≡ (ok a, w) → R a

module _ {F B : Type 0} (R : B → Type 0) where
  pub Gives-end : (b : B) (w : World F) → R b → Gives R (ok b, w)
  Gives-end b w p = record { holds = λ a v e. grind arith }

  pub Gives-error : (x : Error) (w : World F) → Gives {F = F} R (err x, w)
  Gives-error x w = record { holds = λ a v e. absurd (ground arith) }

  pub Gives-then :
      {A : Type 0} (r : Result A × World F) (f : A → M F B)
      → ((a : A) (w : World F) → r ≡ (ok a, w) → Gives R (f a w))
      → Gives R (continue r f)
  Gives-then (ok a, w) f go = go a w refl
  Gives-then (err x, w) f go = Gives-error x w

  pub Gives-some :
      {A : Type 0} (o : Option A) (e : Error) (f : A → M F B) (w : World F)
      → ((a : A) → o ≡ some a → Gives R (f a w))
      → Gives R (continue (or_fail o e w) f)
  Gives-some none e f w go = Gives-error e w
  Gives-some (some a) e f w go = go a refl
