-- ===== src/Programs/Runs/Own.antt =====
-- A user other than root works under the own name.
use hpc_workspace.Base.{some, false, not, ◌&&◌, ◌==◌, ◌≡◌, arith}
use hpc_workspace.Base.Text.{Text, is_empty}
use hpc_workspace.World.{Host, Libs}
use hpc_workspace.Config.{Config, database_of}
use hpc_workspace.Names.{entry_name, join_path}
use hpc_workspace.Workspace.{Workspace, entry_file}
use hpc_workspace.Allocate.{Request, entry_user}
use hpc_workspace.Release.{full_name}

pub entry_file-known :
    (config : Config) (fs user name d p : Text)
    → database_of config fs ≡ some d
    → entry_file config fs user name ≡ some p
    → p ≡ join_path d (entry_name user name)
unfolding entry_file
entry_file-known config fs user name d p known e = grind arith

module _ (L : Libs) (h : Host) (s : Workspace) (mortal : (h.uid == 0) ≡ false) where
  pub full_name-own : (name : Text) → full_name L h s name ≡ entry_name s.username name
  unfolding full_name
  full_name-own name = ground arith

  pub entry_user-own :
      (r : Request)
      → (r.extensionflag && not (is_empty r.user_option)) ≡ false
      → entry_user L h s r ≡ s.username
  unfolding entry_user
  entry_user-own r own = ground arith
