-- ===== src/World/Builds.antt =====
-- The two builds side by side: the one with capabilities, and the one with SETUID where every change
-- of the effective user is granted. Two runs of an action are compared, one in each.
pub mod Files
use mathlib.Core.Path.{subst}
use hpc_workspace.Base.{
  ◌==◌, ◌||◌, ◌&&◌, not, if◌then◌else◌, ℕ, arith, ◌≡◌, refl, ap, Bool, true, false, Option, none,
  some,
}
use hpc_workspace.Base.Text.{Text}
use hpc_workspace.Base.Dict.{Dict, lookup}
use hpc_workspace.World.{
  Host, World, DbFile, Dir, CapSet, M, Result, ok, err, ok-injective, Error, continue, or_fail,
  when,
}
use hpc_workspace.World.Caps.{idle, no_caps}

-- A file without its owner.
pub record Shown (F : Type 0) : Type 0 where
  pub content : F
  pub mode : ℕ

abbrev pub shown : {F : Type 0} → Option (DbFile F) → Option (Shown F)
shown none = none
shown (some f) = some (record { content = f.content; mode = f.mode })

-- The same files, but for their owners.
abbrev pub SameFiles : {F : Type 0} → Dict (DbFile F) → Dict (DbFile F) → Type 0
SameFiles db db' = (q : Text) → shown (lookup q db) ≡ shown (lookup q db')

-- The worlds of the two builds: the same directories and, but for their owners, the same files. The
-- first has the capabilities `caps`, and none in effect.
pub data Beside {F : Type 0} (caps : CapSet) : World F → World F → Type 0 where
  beside :
      (db db' : Dict (DbFile F)) (dirs : Dict Dir) (euid egid euid' egid' : ℕ) (c c' : CapSet)
      → SameFiles db db'
      → Beside caps (idle caps db dirs euid egid) (record {
        db = db';
        dirs = dirs;
        permitted = c;
        effective = c';
        euid = euid';
        egid = egid';
      })

-- The two runs end alike and leave the same directories and, but for their owners, the same files.
-- Where they end well, no capability is left in effect.
pub record Alike {F A : Type 0} (caps : CapSet) (r r' : Result A × World F) : Type 0 where
  pub same : r.0 ≡ r'.0
  pub files : SameFiles r.1.db r'.1.db
  pub dirs : r.1.dirs ≡ r'.1.dirs
  pub worlds : (a : A) → r.0 ≡ ok a → Beside caps r.1 r'.1

module _ {F : Type 0} (caps : CapSet) where
  pub Alike-end :
      {A : Type 0} (a : Result A) (w w' : World F) → Beside caps w w' → Alike caps (a, w) (a, w')
  Alike-end a w w' (beside db db' dirs u g u' g' c c' same) = record {
    same = refl;
    files = same;
    dirs = refl;
    worlds = λ x e. beside db db' dirs u g u' g' c c' same;
  }

  pub Alike-continue :
      {A B : Type 0} (r r' : Result A × World F) (f f' : A → M F B)
      → Alike caps r r'
      → ((a : A) (w w' : World F) → Beside caps w w' → Alike caps (f a w) (f' a w'))
      → Alike caps (continue r f) (continue r' f')
  Alike-continue (ok a, w) (ok a', w') f f' k go =
      subst (λ x. Alike caps (f a w) (f' x w')) (ok-injective k.same) (go a w w' (k.worlds a refl))
  Alike-continue (ok a, w) (err e, w') f f' k go = absurd (ground (arith, k.same))
  Alike-continue (err e, w) (ok a, w') f f' k go = absurd (ground (arith, k.same))
  Alike-continue (err e, w) (err e', w') f f' k go = record {
    same = ground (arith, k.same);
    files = k.files;
    dirs = k.dirs;
    worlds = λ x q. absurd (ground arith);
  }

  pub Alike-or_fail :
      {A : Type 0} (o : Option A) (e : Error) (w w' : World F)
      → Beside caps w w'
      → Alike caps (or_fail o e w) (or_fail o e w')
  Alike-or_fail none e w w' b = Alike-end (err e) w w' b
  Alike-or_fail (some a) e w w' b = Alike-end (ok a) w w' b

  pub Alike-when :
      (b : Bool) (m m' : M F (Unit {0})) (w w' : World F)
      → Beside caps w w'
      → Alike caps (m w) (m' w')
      → Alike caps (when b m w) (when b m' w')
  Alike-when true m m' w w' b k = k
  Alike-when false m m' w w' b k = Alike-end (ok tt) w w' b

  pub Alike-branch :
      {A : Type 0} (b : Bool) (m m' n n' : M F A) (w w' : World F)
      → Alike caps (m w) (m' w')
      → Alike caps (n w) (n' w')
      → Alike caps ((if b then m else n) w) ((if b then m' else n') w')
  Alike-branch true m m' n n' w w' k j = k
  Alike-branch false m m' n n' w w' k j = j

-- The database user may write the database, also where root is squashed.
abbrev pub db_user_may : Host → ℕ → Bool
db_user_may h dbuid = dbuid == dbuid || dbuid == 0 && not h.root_squash

eqb_refl : (n : ℕ) → (n == n) ≡ true
eqb_refl n = ground arith

pub db_user-may_write : (h : Host) (dbuid : ℕ) → db_user_may h dbuid ≡ true
db_user-may_write h dbuid = rw (eqb_refl dbuid) refl
