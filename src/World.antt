-- ===== src/World.antt =====
-- What the tools act on. `World` is the state that they change: the database files and workspace
-- directories by path, and the process's capabilities and effective ids. `Host` is what they ask of the
-- system and cannot change; which system calls fail is part of it. `Libs` is yaml-cpp and Boost.
-- A handler is a function of the world; `exit` and an uncaught exception end it with an `Error`,
-- and what was written before stays written.
pub mod Caps
pub mod After
pub mod Builds
use hpc_workspace.Base.{
  ℕ, Bool, true, false, Option, none, some, List, ◌≡◌, refl, ◌⊎◌, inl, inr, if◌then◌else◌, ◌<◌, ◌≤◌,
}
use hpc_workspace.Base.Int.{ℤ, pos, negsuc, IsInt, pos_part, neg_part}
use hpc_workspace.Base.Text.{Text, text_eq}
use hpc_workspace.Base.Dict.{Dict}

-- A set of the four capabilities that the tools name.
pub record CapSet : Type 0 where
  pub chown : Bool
  pub dac_override : Bool
  pub dac_read_search : Bool
  pub fowner : Bool

pub record DbFile (F : Type 0) : Type 0 where
  pub content : F
  pub mode : ℕ
  pub owner : ℕ
  pub group : ℕ

-- A directory, with the names of the files that its user has put there.
pub record Dir : Type 0 where
  pub owner : ℕ
  pub group : ℕ
  pub mode : ℕ
  pub files : List Text

pub record World (F : Type 0) : Type 0 where
  pub db : Dict (DbFile F)
  pub dirs : Dict Dir
  pub permitted : CapSet
  pub effective : CapSet
  pub euid : ℕ
  pub egid : ℕ

-- The answer of `rename(2)`: 0, -1 with `EXDEV`, or -1 with another error.
pub data RenameResult : Type 0 where
  renamed cross_device rename_failed : RenameResult

-- The answer of `fork(2)` in the parent, -1 or a child, and how the child's `/bin/mv` ends: with an
-- exit status, or by a signal.
pub data ForkResult : Type 0 where
  no_child : ForkResult
  child : ℕ → ForkResult
  killed : ForkResult

pub record Host : Type 0 where
  pub uid : ℕ
  pub gid : ℕ
  -- Whether the build defines SETUID, and CHECK_ALL_GROUPS.
  pub setuid_build : Bool
  pub check_all_groups : Bool
  -- The answer of the n-th call of `time(NULL)` in an operation.
  pub clock : ℕ → ℕ
  pub rand : ℕ
  pub getpwuid : ℕ → Option Text
  pub getpwnam : Text → Option (ℕ × ℕ)
  pub getgrgid : ℕ → Option Text
  pub getgrnam : Text → Option ℕ
  -- `none` if there are more than the 128 groups that the buffer holds.
  pub getgrouplist : Text → ℕ → Option (List ℕ)
  -- `access(path, R_OK|W_OK|X_OK) == 0`
  pub can_access : Text → Bool
  -- `f_bsize * f_bfree` of `statfs`.
  pub free_bytes : Text → ℕ
  pub seteuid_ok : ℕ → Bool
  pub setegid_ok : ℕ → Bool
  -- Whether a file can be opened to be written, and whether all of it can be written.
  pub open_ok : Text → Bool
  pub write_ok : Text → Bool
  -- Whether the database is on a filesystem where root counts as nobody.
  pub root_squash : Bool
  pub chmod_ok : Text → Bool
  pub chown_ok : Text → Bool
  pub mkdir_ok : Text → Bool
  -- Whether `unlink(2)` removes a directory.
  pub unlink_ok : Text → Bool
  -- What the n-th `remove_all` leaves: the files that it could not remove, or `none` if all is gone.
  pub remove_all : ℕ → Text → Option (List Text)
  pub remove_ok : Text → Bool
  pub rename_answer : Text → Text → RenameResult
  pub fork_answer : Text → Text → ForkResult
  -- What a `/bin/mv` that does not end with 0 leaves of the directories.
  pub mv_left : Text → Text → Dict Dir → Dict Dir

-- What `YAML::LoadFile` gives: a document that can be subscripted, or a scalar, at which every
-- subscript throws `BadSubscript`.
pub data Doc (N : Type 0) : Type 0 where
  map_doc : N → Doc N
  scalar_doc : Doc N

pub record Libs : Type 1 where
  pub Node : Type 0
  pub File : Type 0
  pub empty : Node
  pub set_text : Text → Text → Node → Node
  pub set_int : Text → ℤ → Node → Node
  -- `fout << entry`
  pub emit : Node → File
  -- What is in a file that was opened, and so emptied, if writing it fails.
  pub cut_short : File → File
  -- `none` if `LoadFile` throws.
  pub load : File → Option (Doc Node)
  -- `entry[key].as<string>()`, `.as<int>()`, `.as<long>()`; `none` if the conversion throws.
  pub text_at : Node → Text → Option Text
  pub int_at : Node → Text → Option ℤ
  pub long_at : Node → Text → Option ℤ
  -- The bytes of a file, as an `ifstream` reads them.
  pub bytes : File → Text
  -- `boost::split` at a character, `boost::lexical_cast<int>`.
  pub split : Text → ℕ → List Text
  pub lexical_cast : Text → Option ℤ
  -- `lexical_cast<string>` of a number.
  pub to_text : ℕ → Text
  -- `fs::path(p).parent_path()` and `.filename()`.
  pub parent_path : Text → Text
  pub filename : Text → Text

-- The values of a `long`.
abbrev pub IsLong : ℤ → Type 0
IsLong z = (pos_part z < 9223372036854775808) × (neg_part z ≤ 9223372036854775808)

-- What the code relies on: a document is read as it was written, and a key holds what was last
-- set there, as long as it fits the type that it is read as.
pub record IsLawful (L : Libs) : Type 0 where
  pub load-emit : (n : L.Node) → L.load (L.emit n) ≡ some (map_doc n)
  pub text_at-empty : (k : Text) → L.text_at L.empty k ≡ none
  pub text_at-set_text :
      (k j v : Text) (n : L.Node)
      → L.text_at (L.set_text k v n) j ≡ (if text_eq k j then some v else L.text_at n j)
  pub text_at-set_int :
      (k j : Text) (v : ℤ) (n : L.Node)
      → text_eq k j ≡ false
      → L.text_at (L.set_int k v n) j ≡ L.text_at n j
  pub int_at-set_text :
      (k j v : Text) (n : L.Node)
      → text_eq k j ≡ false
      → L.int_at (L.set_text k v n) j ≡ L.int_at n j
  pub int_at-set_int :
      (k j : Text) (v : ℤ) (n : L.Node)
      → IsInt v
      → L.int_at (L.set_int k v n) j ≡ (if text_eq k j then some v else L.int_at n j)
  pub int_at-set_other :
      (k j : Text) (v : ℤ) (n : L.Node)
      → text_eq k j ≡ false
      → L.int_at (L.set_int k v n) j ≡ L.int_at n j
  pub long_at-set_text :
      (k j v : Text) (n : L.Node)
      → text_eq k j ≡ false
      → L.long_at (L.set_text k v n) j ≡ L.long_at n j
  pub long_at-set_int :
      (k j : Text) (v : ℤ) (n : L.Node)
      → IsLong v
      → L.long_at (L.set_int k v n) j ≡ (if text_eq k j then some v else L.long_at n j)
  pub long_at-set_other :
      (k j : Text) (v : ℤ) (n : L.Node)
      → text_eq k j ≡ false
      → L.long_at (L.set_int k v n) j ≡ L.long_at n j

-- Why a tool ended. The first line ends without a call of `exit`.
pub data Error : Type 0 where
  uncaught_exception undefined_behaviour : Error
  no_more_extensions invalid_db_entry cap_refused seteuid_refused : Error
  ws_not_found not_extendable no_permission not_allocatable : Error
  mkdir_failed chown_failed chmod_failed : Error
  db_not_deleted ws_not_removed : Error
  too_many_groups no_group invalid_group no_such_filesystem not_allowed no_default : Error
  not_restorable no_target : Error
  usage bad_name bad_mail mail_without_reminder only_root conf_symlink : Error

-- The argument of `exit`, for the errors that call it.
unfoldable pub exit_code : Error → Option ℤ
exit_code uncaught_exception = none
exit_code undefined_behaviour = none
exit_code no_more_extensions = some (negsuc 0)
exit_code invalid_db_entry = some (negsuc 1)
exit_code cap_refused = some (pos 1)
exit_code seteuid_refused = some (negsuc 0)
exit_code ws_not_found = some (negsuc 0)
exit_code not_extendable = some (pos 1)
exit_code no_permission = some (negsuc 0)
exit_code not_allocatable = some (pos 1)
exit_code mkdir_failed = some (negsuc 0)
exit_code chown_failed = some (negsuc 0)
exit_code chmod_failed = some (negsuc 0)
exit_code db_not_deleted = some (negsuc 0)
exit_code ws_not_removed = some (negsuc 0)
exit_code too_many_groups = some (negsuc 0)
exit_code no_group = some (negsuc 0)
exit_code invalid_group = some (negsuc 0)
exit_code no_such_filesystem = some (pos 1)
exit_code not_allowed = some (pos 4)
exit_code no_default = some (pos 1)
exit_code not_restorable = some (pos 1)
exit_code no_target = some (pos 1)
exit_code usage = some (pos 1)
exit_code bad_name = some (pos 1)
exit_code bad_mail = some (pos 1)
exit_code mail_without_reminder = some (pos 1)
exit_code only_root = some (negsuc 0)
exit_code conf_symlink = some (negsuc 0)

pub data Result {ℓ} (A : Type ℓ) : Type ℓ where
  ok : A → Result A
  err : Error → Result A

abbrev pub M : Type 0 → Type 0 → Type 0
M F A = World F → Result A × World F

module _ {F A : Type 0} where
  abbrev pub pure : A → M F A
  pure a w = (ok a, w)

  abbrev pub fail : Error → M F A
  fail e w = (err e, w)

  abbrev pub or_fail : Option A → Error → M F A
  or_fail none e = fail e
  or_fail (some a) e = pure a

  abbrev pub gets : (World F → A) → M F A
  gets f w = (ok (f w), w)

-- What follows on the end of an action.
abbrev pub continue : {F A B : Type 0} → Result A × World F → (A → M F B) → Result B × World F
continue (ok a, w) f = f a w
continue (err e, w) f = (err e, w)

infixl 5 ◌>>=◌ ◌>>◌
abbrev pub ◌>>=◌ : {F A B : Type 0} → M F A → (A → M F B) → M F B
◌>>=◌ m f w = continue (m w) f

abbrev pub ◌>>◌ : {F A B : Type 0} → M F A → M F B → M F B
m >> k = m >>= λ _. k

module _ {F : Type 0} where
  abbrev pub modify : (World F → World F) → M F (Unit {0})
  modify f w = (ok tt, f w)

  abbrev pub fail_if : Bool → Error → M F (Unit {0})
  fail_if c e w = (if c then err e else ok tt, w)

  abbrev pub when : Bool → M F (Unit {0}) → M F (Unit {0})
  when c m w = if c then m w else (ok tt, w)

  abbrev pub skip : M F (Unit {0})
  skip w = (ok tt, w)

-- To split on the end of an action.
pub Result-cases :
    {F A : Type 0} (r : Result A × World F)
    → ((a : A) × (w : World F) × (r ≡ (ok a, w))) ⊎ ((e : Error) × (w : World F) × (r ≡ (err e, w)))
Result-cases (ok a, w) = inl (a, w, refl)
Result-cases (err e, w) = inr (e, w, refl)

pub ok-injective : {A : Type 0} {a b : A} → ok a ≡ ok b → a ≡ b
ok-injective h = cc
