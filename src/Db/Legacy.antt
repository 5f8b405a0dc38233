-- ===== src/Db/Legacy.antt =====
-- The stream extractions of `read_dbfile` (src/wsdb.cpp) on an entry of the older tools: the
-- expiration and the directory as two words, then the rest of that line, then two lines.
use hpc_workspace.Base.{ℕ, ◌+◌, ◌*◌, ◌-◌, Bool, ◌&&◌, ◌||◌, [], ◌∷◌}
use hpc_workspace.Base.{leb, ◌==◌, if◌then◌else◌, Option, none, some}
use hpc_workspace.Base.Int.{ℤ, pos, sub_ℕ}
use hpc_workspace.Base.Text.{Text}

pub record OldEntry : Type 0 where
  pub expiration : ℤ
  pub wsdir : Text
  pub acct_line : Text
  pub extension_line : Text

abbrev is_space : ℕ → Bool
is_space c = c == 32 || (leb 9 c && leb c 13)

abbrev is_digit : ℕ → Bool
is_digit c = leb b'0' c && leb c b'9'

skip_space : Text → Text
skip_space [] = []
skip_space (c ∷ s) = if is_space c then skip_space s else c ∷ s

-- The word at the front of the text, and what is behind it.
word : Text → Text × Text
word [] = ([], [])
word (c ∷ s) = let (w, r) = word s in if is_space c then ([], c ∷ s) else (c ∷ w, r)

-- The digits at the front, as a number that continues `acc`, and what is behind them.
digits : ℕ → Text → ℕ × Text
digits acc [] = (acc, [])
digits acc (c ∷ s) =
    let more = digits (acc * 10 + (c - b'0')) s in if is_digit c then more else (acc, c ∷ s)

-- Unsigned digits; `none` where there is none, at which the stream fails.
unsigned : Text → Option (ℕ × Text)
unfolding digits
unsigned [] = none
unsigned (c ∷ s) = if is_digit c then some (digits 0 (c ∷ s)) else none

-- `entry >> expiration`, at a number in the range of a `long`.
long : Text → Option (ℤ × Text)
unfolding unsigned
long [] = none
long (c ∷ s) =
    if c == b'-'
    then elim (unsigned s) [ none ↦ none | some (n, r) ↦ some (sub_ℕ 0 n, r) ]
    else elim (unsigned (if c == b'+' then s else c ∷ s)) [
      | none ↦ none
      | some (n, r) ↦ some (pos n, r)
    ]

-- `getline`
line : Text → Text × Text
line [] = ([], [])
line (c ∷ s) = let (l, r) = line s in if c == 10 then ([], s) else (c ∷ l, r)

-- What is read behind the expiration.
rest_of_old : ℤ → Text → OldEntry
unfolding skip_space word line
rest_of_old expiration s =
    let (wsdir, s1) = word (skip_space s) in
    let (newline, s2) = line s1 in
    let (acct_line, s3) = line s2 in
    let (extension_line, s4) = line s3 in
    record {
      expiration = expiration;
      wsdir = wsdir;
      acct_line = acct_line;
      extension_line = extension_line;
    }

-- A stream that has failed leaves 0 and reads no more.
unfoldable pub read_old : Text → OldEntry
unfolding skip_space long rest_of_old
read_old s = elim (long (skip_space s)) [
  | none ↦ record { expiration = pos 0; wsdir = []; acct_line = []; extension_line = [] }
  | some (expiration, r) ↦ rest_of_old expiration r
]
