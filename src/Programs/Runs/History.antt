-- ===== src/Programs/Runs/History.antt =====
-- Histories: runs of the three programs by any users, in any order.
use hpc_workspace.Base.{ℕ, false, ◌≡◌, ◌≢◌, refl, ap, ◌∙◌}
use hpc_workspace.Base.Text.{Text, text_eq, has_char}
use hpc_workspace.Base.Dict.{lookup}
use hpc_workspace.World.{Host, Libs, World}
use hpc_workspace.Config.{Config, UserConfig}
use hpc_workspace.Names.Owner.{IsEntryOf, IsPlain, entry-one_owner}
use hpc_workspace.Spec.{view, Command, put, move, remove, Avoids, Trace-others}
use hpc_workspace.Programs.Runs.{Run, allocates, releases, restores, run, OwnRun}
use hpc_workspace.Programs.Runs.Refines.{IsCaller, Permits, run-refines}

-- The caller of a run: a user other than root and `v`; both have plain names.
pub record IsOther (v : Text) (h : Host) : Type 0 where
  pub user : Text
  pub caller : IsCaller user h
  pub plain : IsPlain user
  pub other_plain : IsPlain v
  pub different : user ≢ v

module _ (v q : Text) (h : Host) (by : IsOther v h) (whose : IsEntryOf v q) where
  other_file : (p : Text) → IsEntryOf by.user p → text_eq p q ≡ false
  other_file p own = entry-one_owner by.user v p q by.plain by.other_plain by.different own whose

  -- What is permitted to the other user leaves the file alone.
  Permits-Avoids : (r : Run) (c : Command) → Permits by.user r c → Avoids q c
  Permits-Avoids (allocates a b c d e f) (put p) may = other_file p may
  Permits-Avoids (allocates a b c d e f) (move p p') may = elim may [ ]
  Permits-Avoids (allocates a b c d e f) (remove p) may = elim may [ ]
  Permits-Avoids (releases o) (put p) may = other_file p may
  Permits-Avoids (releases o) (move p p') (may, may') = (other_file p may, other_file p' may')
  Permits-Avoids (releases o) (remove p) (deletes, may) = other_file p may
  Permits-Avoids (restores a b c d) (put p) may = elim may [ ]
  Permits-Avoids (restores a b c d) (move p p') may = elim may [ ]
  Permits-Avoids (restores a b c d) (remove p) may = other_file p may

module _ (L : Libs) (numbers : (n : ℕ) → has_char b'/' (L.to_text n) ≡ false) where
  -- If numbers are printed without a slash: a run of one of the programs by a user other than root,
  -- but for `ws_allocate -x -u`, leaves every database entry of every other user as it is, also
  -- the released ones, however the run ends and in both builds; no name of the two has a dash or a
  -- slash.
  pub run-others :
      (h : Host) (config : Config) (userconfig : UserConfig) (c : Run) (w : World L.File)
      (v q : Text)
      → IsOther v h
      → OwnRun c
      → IsEntryOf v q
      → lookup q (run L h config userconfig c w).db ≡ lookup q w.db
  run-others h config userconfig c w v q by own whose =
      Trace-others (Permits by.user c) q (Permits-Avoids v q h by whose c) (view w.db) _
        (run-refines L numbers h config userconfig c w by.user by.caller own)

  -- What the users other than `v` do, one after the other: runs of the programs, each with its own
  -- host, configuration and privileges, and whatever touches no file of the database.
  pub data History (v : Text) : World L.File → World L.File → Type 0 where
    nothing : (w : World L.File) → History v w w
    then_run :
        (w u : World L.File) (h : Host) (config : Config) (userconfig : UserConfig) (c : Run)
        → History v w u
        → IsOther v h
        → OwnRun c
        → History v w (run L h config userconfig c u)
    then_aside : (w u u' : World L.File) → History v w u → u'.db ≡ u.db → History v w u'

  -- If numbers are printed without a slash: whatever the other users do, the entries of a user stay
  -- as they are. The users are not root and have plain names, and none runs `ws_allocate -x -u`.
  pub History-others :
      (v q : Text) (w w' : World L.File)
      → IsEntryOf v q
      → History v w w'
      → lookup q w'.db ≡ lookup q w.db
  History-others v q w w' whose (nothing u) = refl
  History-others v q w w' whose (then_run a u h config userconfig c before by own) =
      run-others h config userconfig c u v q by own whose ∙ History-others v q w u whose before
  History-others v q w w' whose (then_aside a u u' before same) =
      ap (lookup q) same ∙ History-others v q w u whose before
