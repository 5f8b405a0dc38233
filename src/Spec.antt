-- ===== src/Spec.antt =====
-- What the programs promise of the database: it is a partial function from paths to files, and an
-- operation is a sequence of three commands. The order of the files and how they are kept is
-- forgotten.
pub mod Store
use hpc_workspace.Base.{◌≡◌, refl, ◌∙◌, Option, none, some, false}
use hpc_workspace.Base.Text.{Text, text_eq}
use hpc_workspace.Base.Dict.{Dict, lookup}
use hpc_workspace.World.{DbFile}

abbrev pub View : Type 0 → Type 0
View F = Text → Option (DbFile F)

abbrev pub view : {F : Type 0} → Dict (DbFile F) → View F
view db q = lookup q db

pub data Command : Type 0 where
  put : Text → Command
  move : Text → Text → Command
  remove : Text → Command

-- The command has nothing to do with the file at `q`.
abbrev pub Avoids : Text → Command → Type 0
Avoids q (put p) = text_eq p q ≡ false
Avoids q (move p p') = (text_eq p q ≡ false) × (text_eq p' q ≡ false)
Avoids q (remove p) = text_eq p q ≡ false

-- What a command does. `put` leaves some file at its path; no other file changes.
pub data Effect {F : Type 0} : Command → View F → View F → Type 0 where
  puts :
      (p : Text) (f : DbFile F) (v v' : View F)
      → v' p ≡ some f
      → ((q : Text) → text_eq p q ≡ false → v' q ≡ v q)
      → Effect (put p) v v'
  moves :
      (p p' : Text) (f : DbFile F) (v v' : View F)
      → v p ≡ some f
      → v' p' ≡ some f
      → (text_eq p' p ≡ false → v' p ≡ none)
      → ((q : Text) → text_eq p q ≡ false → text_eq p' q ≡ false → v' q ≡ v q)
      → Effect (move p p') v v'
  removes :
      (p : Text) (v v' : View F)
      → v' p ≡ none
      → ((q : Text) → text_eq p q ≡ false → v' q ≡ v q)
      → Effect (remove p) v v'

-- Commands that are all permitted, one after the other.
pub data Trace {F : Type 0} (May : Command → Type 0) : View F → View F → Type 0 where
  done : (v : View F) → Trace May v v
  then_command :
      (c : Command) (v u u' : View F) → Trace May v u → May c → Effect c u u' → Trace May v u'

Effect-others :
    {F : Type 0} (c : Command) (v v' : View F) (q : Text) → Effect c v v' → Avoids q c → v' q ≡ v q
Effect-others _ v v' q (puts p f a b at others) apart = others q apart
Effect-others _ v v' q (moves p p' f a b from at gone others) (apart, apart') =
    others q apart apart'
Effect-others _ v v' q (removes p a b gone others) apart = others q apart

-- If every permitted command avoids a file, a trace leaves it as it is.
pub Trace-others :
    {F : Type 0} (May : Command → Type 0) (q : Text)
    → ((c : Command) → May c → Avoids q c)
    → (v v' : View F) → Trace May v v'
    → v' q ≡ v q
Trace-others May q avoid v v' (done u) = refl
Trace-others May q avoid v v' (then_command c a u u' before may e) =
    Effect-others c u u' q e (avoid c may) ∙ Trace-others May q avoid v u before
