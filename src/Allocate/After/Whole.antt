-- ===== src/Allocate/After/Whole.antt =====
-- Which files `allocate` (src/ws.cpp) can change, however it ends.
use hpc_workspace.Base.{List, [], ◌∷◌, Option-cases, inl, inr}
use hpc_workspace.Base.Text.{Text}
use hpc_workspace.World.{Host, Libs, World}
use hpc_workspace.World.After.{After, After-continue, After-end}
use hpc_workspace.Workspace.{Workspace}
use hpc_workspace.Allocate.{Request, search, allocate}
use hpc_workspace.Allocate.After.{
  KeepsAllocate, KeepsAllocate-create, After-search_list, After-search_in, After-create,
}

module _ (L : Libs) (h : Host) (s : Workspace) (r : Request) (P : World L.File → Type 0)
    (k : KeepsAllocate L h s r P) where
  After-search : (list : List Text) (w : World L.File) → P w → After P (search L h s r list w)
  unfolding search
  After-search [] w q = After-end P _ w q
  After-search (fs ∷ rest) w q =
      After-search_in L h s r P k fs (search L h s r rest) w q (After-search rest)

  pub After-allocate : (w : World L.File) → P w → After P (allocate L h s r w)
  unfolding allocate
  After-allocate w q = After-continue P _ _ (After-search_list L h s r P w q) (λ list v q'.
      After-continue P _ _ (After-search list v q') (λ found u q''. elim (Option-cases found) [
        | inl nothing ↦ rw nothing (After-create L h s r P (KeepsAllocate-create L h s r P k) u q'')
        | inr (a, something) ↦ rw something (After-end P _ u q'')
      ]))
