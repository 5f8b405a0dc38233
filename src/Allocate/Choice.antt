-- ===== src/Allocate/Choice.antt =====
-- What `Workspace::allocate` of src/ws.cpp chooses: the order of the search, the space of a new
-- workspace and the permissions of its directory.
use hpc_workspace.Base.{ℕ, ◌+◌, ◌%◌, Bool, ◌||◌, not, Option, none, some, List, [], ◌∷◌}
use hpc_workspace.Base.{length, default_to, ltb, if◌then◌else◌}
use hpc_workspace.Base.Text.{Text, text_eq, codes, contains, is_empty}
use hpc_workspace.World.{Host}

-- Writes `x` over the first element that is `fs`: `*df = tmp`.
abbrev pub replace_first : Text → Text → List Text → List Text
replace_first fs x [] = []
replace_first fs x (y ∷ ys) = if text_eq y fs then x ∷ ys else y ∷ replace_first fs x ys

-- The default filesystem changes places with the first one, if it is listed.
unfoldable pub swap_front : Text → List Text → List Text
unfolding contains text_eq
swap_front fs [] = []
swap_front fs (x ∷ xs) =
    if text_eq x fs then x ∷ xs else if contains xs fs then fs ∷ replace_first fs x xs else x ∷ xs

-- The loop of the space selection `mostspace`, from index `i`.
unfoldable pub most_space : (Text → ℕ) → ℕ → ℕ → ℕ → List Text → ℕ
most_space free_bytes i spaceid max_free [] = spaceid
most_space free_bytes i spaceid max_free (s ∷ spaces) =
    most_space free_bytes (i + 1) (if ltb max_free (free_bytes s) then i else spaceid)
      (if ltb max_free (free_bytes s) then free_bytes s else max_free) spaces

-- `spaceid`. With no space at all the remainder is by zero.
unfoldable pub select_space : Host → Option Text → List Text → Option ℕ
unfolding text_eq most_space
select_space h spaceselection [] = none
select_space h spaceselection (s ∷ spaces) =
    let n = length (s ∷ spaces) in
    let selection = default_to [] spaceselection in
    some (
      if text_eq selection (codes "uid")
      then h.uid % n
      else if text_eq selection (codes "gid")
      then h.gid % n
      else if text_eq selection (codes "mostspace")
      then most_space h.free_bytes 0 0 0 (s ∷ spaces)
      else h.rand % n)

-- `mode` of the workspace directory: group workspaces can be read by the group, and with a group
-- name also written, with the setgid bit.
unfoldable pub dir_mode : Bool → Text → ℕ
dir_mode group groupname =
    0o700
    + (if group || not (is_empty groupname) then 0o050 else 0)
    + (if not (is_empty groupname) then 0o2020 else 0)
