-- ===== src/Tbql/Quoting.antt =====
-- `quote` and `term_for` of console/backend/tbconsole/search/tbql.py, which write a value and a
-- term for the lexer to read back.
pub mod Spans
pub mod Escapes
pub mod Words
pub mod ReadBack
pub mod Exact
use turkey_bite.Prelude.{
  ℕ, Bool, true, false, ◌&&◌, ◌||◌, not, List, [], ◌∷◌, ◌++◌, all, if◌then◌else◌, ◌==◌, nat_eq,
  list_eq, leb,
}
use turkey_bite.Text.{Text, text, lower}
use turkey_bite.Tbql.Lexer.{is_letter}

-- [A-Za-z0-9_.@:/\-]
abbrev pub is_safe : ℕ → Bool
is_safe c =
    is_letter c
    || (leb b'0' c && leb c b'9')
    || c == b'_'
    || c == b'.'
    || c == b'@'
    || c == b':'
    || c == b'/'
    || c == b'-'

abbrev pub is_word : Text → Bool
is_word value = lower value == text "and" || lower value == text "or" || lower value == text "not"

abbrev pub is_plain : Text → Bool
is_plain [] = false
is_plain (c ∷ s) = all is_safe (c ∷ s) && not (is_word (c ∷ s))

-- s.replace(c, by), for one character
unfoldable pub replace_char : ℕ → Text → Text → Text
replace_char c by [] = []
replace_char c by (d ∷ s) = if d == c then by ++ replace_char c by s else d ∷ replace_char c by s

unfoldable pub escape : Text → Text
unfolding replace_char
escape value = replace_char b'"' (text "\\\"") (replace_char b'\\' (text "\\\\") value)

unfoldable pub quote : Text → Text
unfolding escape lower
quote value = if is_plain value then value else b'"' ∷ (escape value ++ b'"' ∷ [])

-- `term_for`, for a value that is no bool
unfoldable pub term_for : Text → Text → Text
unfolding quote
term_for field_name value = field_name ++ b':' ∷ quote value
