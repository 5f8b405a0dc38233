-- ===== src/Names.antt =====
-- The checks on names: the workspace name that the three tools take from their command lines, the
-- mail address of ws_allocate, and the test of ws_restore that an entry belongs to the caller.
-- The regular expressions are constants of the source; each is the function that it denotes, over
-- the bytes of the C locale that `main` sets.
pub mod Valid
pub mod Entry
pub mod Owner
use hpc_workspace.Base.{ℕ, Bool, true, false, ◌&&◌, ◌||◌, not, [], ◌∷◌, ◌++◌, leb, ◌==◌}
use hpc_workspace.Base.{if◌then◌else◌}
use hpc_workspace.Base.Text.{Text, text_eq, starts_with, codes}

-- `[[:alnum:]]`
abbrev pub is_alnum : ℕ → Bool
is_alnum c = (leb b'0' c && leb c b'9') || (leb b'A' c && leb c b'Z') || (leb b'a' c && leb c b'z')

-- `[[:alnum:]_.-]`
abbrev pub is_name_char : ℕ → Bool
is_name_char c = is_alnum c || c == b'_' || c == b'.' || c == b'-'

-- `[[:alnum:]_.@-]`
abbrev pub is_mail_char : ℕ → Bool
is_mail_char c = is_alnum c || c == b'_' || c == b'.' || c == b'@' || c == b'-'

abbrev all_chars : (ℕ → Bool) → Text → Bool
all_chars p [] = true
all_chars p (c ∷ s) = p c && all_chars p s

-- `regex_match(s, e1)` for `^[[:alnum:]][[:alnum:]_.-]*$`.
unfoldable pub match_e1 : Text → Bool
match_e1 [] = false
match_e1 (c ∷ s) = is_alnum c && all_chars is_name_char s

-- `regex_search(s, e2)` for `[^[:alnum:]_.-]`.
unfoldable pub search_e2 : Text → Bool
search_e2 [] = false
search_e2 (c ∷ s) = not (is_name_char c) || search_e2 s

-- `name.substr(0,2)`
abbrev pub first_two : Text → Text
first_two (a ∷ b ∷ s) = a ∷ b ∷ []
first_two s = s

-- The two tests that stand at the end of each `commandline`; on failure the tool exits with 1.
unfoldable pub valid_name : Text → Bool
unfolding match_e1 search_e2
valid_name name = if not (match_e1 (first_two name)) then false else not (search_e2 name)

-- `regex_match(mailaddress, em)` for `^[[:alnum:]][[:alnum:]_.@-]*$`.
unfoldable pub valid_mail : Text → Bool
valid_mail [] = false
valid_mail (c ∷ s) = is_alnum c && all_chars is_mail_char s

-- `username + "-" + name`
unfoldable pub entry_name : Text → Text → Text
entry_name user name = user ++ (b'-' ∷ name)

-- `dir + "/" + name`
unfoldable pub join_path : Text → Text → Text
join_path dir name = dir ++ (b'/' ∷ name)

-- `check_name` of ws_restore: true if the caller may restore the entry.
unfoldable pub check_name : Text → Text → Text → Bool
unfolding text_eq starts_with
check_name name username real_username =
    if not (text_eq real_username (codes "root"))
      && not (starts_with name (real_username ++ (b'-' ∷ [])))
    then false
    else true
