-- ===== src/Privacy.antt =====
-- src/libtb/privacy/__init__.py: what an event keeps of the URLs it carries.
-- The pattern `_URL_START` is written out: its classes ignore case as Python's do, so that they
-- have the four letters beyond ASCII whose case is one of an ASCII letter. `settings`, the check of
-- the configuration, is left out.
pub mod Unmarked
pub mod Packets
pub mod Scrubbed
mod Tests
use turkey_bite.Prelude.{
  ℕ, zero, suc, ◌+◌, ◌-◌, Bool, true, false, ◌&&◌, ◌||◌, not, Option, none, some, List, [], ◌∷◌,
  ◌++◌, reverse, length, leb, if◌then◌else◌, ◌==◌, nat_eq, list_eq, elem, take, String,
}
use turkey_bite.Text.{Text, text, is_space, strip, drop_while, ends_with}
use turkey_bite.Json.{
  Json, null, boolean, str, arr, obj, Items, nil, cons, Fields, end, field, has_key,
}

pub data UrlMode : Type 0 where
  full trimmed host_only : UrlMode

abbrev pub bare_schemes : List Text
bare_schemes =
    text "about"
    ∷ text "mailto"
    ∷ text "magnet"
    ∷ text "data"
    ∷ text "javascript"
    ∷ text "tel"
    ∷ text "sms"
    ∷ text "intent"
    ∷ text "market"
    ∷ text "chrome"
    ∷ text "edge"
    ∷ text "opera"
    ∷ text "vivaldi"
    ∷ text "brave"
    ∷ []

-- The class of `lead`
abbrev pub is_lead : ℕ → Bool
is_lead c =
    is_space c
    || (leb 0x200b c && leb c 0x200f)
    || (leb 0x202a c && leb c 0x202e)
    || (leb 0x2060 c && leb c 0x2069)
    || c == 0xfeff
    || elem c (text "\"'`<([")
    || c == 0x201c
    || c == 0x2018
    || c == 0xab

-- [A-Za-z], without regard to case
abbrev pub is_letter : ℕ → Bool
is_letter c =
    (leb b'A' c && leb c b'Z')
    || (leb b'a' c && leb c b'z')
    || c == 0x130
    || c == 0x131
    || c == 0x17f
    || c == 0x212a

-- [A-Za-z0-9+.\-]
abbrev pub is_scheme_char : ℕ → Bool
is_scheme_char c = is_letter c || (leb b'0' c && leb c b'9') || c == b'+' || c == b'.' || c == b'-'

abbrev pub is_slash : ℕ → Bool
is_slash c = c == b'/' || c == b'\\'

-- The letter that a character matches, without regard to case
abbrev pub fold_char : ℕ → ℕ
fold_char c =
    if leb b'A' c && leb c b'Z'
    then c + 32
    else if c == 0x130 || c == 0x131
    then b'i'
    else if c == 0x17f
    then b's'
    else if c == 0x212a
    then b'k'
    else c

abbrev pub fold : Text → Text
fold [] = []
fold (c ∷ s) = fold_char c ∷ fold s

-- str.lower, on the characters of a scheme
abbrev pub lower_scheme : Text → Text
lower_scheme [] = []
lower_scheme (c ∷ s) =
    (if leb b'A' c && leb c b'Z'
      then (c + 32) ∷ []
      else if c == 0x130
      then b'i' ∷ 0x307 ∷ []
      else if c == 0x212a
      then b'k' ∷ []
      else c ∷ [])
    ++ lower_scheme s

-- What stands before the first character of a class, and from it on.
unfoldable pub until : (ℕ → Bool) → Text → Text
until p [] = []
until p (c ∷ s) = let later = c ∷ until p s in if p c then [] else later

unfoldable pub from_first : (ℕ → Bool) → Text → Text
from_first p [] = []
from_first p (c ∷ s) = let later = from_first p s in if p c then c ∷ s else later

abbrev pub after_colon : ℕ → Text → Text → Option (Text × Text)
after_colon c more [] = none
after_colon c more (d ∷ s) = if d == b':' then some (c ∷ more, s) else none

-- [A-Za-z][A-Za-z0-9+.\-]*: at the front: the name, and what follows the colon
unfoldable pub read_name : Text → Option (Text × Text)
unfolding until from_first
read_name [] = none
read_name (c ∷ s) =
    if is_letter c
    then after_colon c (until (λ d. not (is_scheme_char d)) s)
        (from_first (λ d. not (is_scheme_char d)) s)
    else none

abbrev pub starts_slash : Text → Bool
starts_slash [] = false
starts_slash (c ∷ s) = is_slash c

abbrev pub starts_slashes : Text → Bool
starts_slashes (c ∷ d ∷ s) = is_slash c && is_slash d
starts_slashes _ = false

-- The last part of `scheme`, on the name before its colon and what follows it
abbrev pub ends_scheme : Text → Text → Bool
ends_scheme name rest =
    fold name == text "http"
    || fold name == text "https"
    || elem (fold name) bare_schemes
    || (fold name == text "file" && starts_slash rest)
    || starts_slashes rest

abbrev pub add_wrapper : Text → Option (Text × Text) → Option (Text × Text)
add_wrapper name none = none
add_wrapper name (some (scheme, rest)) = some (name ++ b':' ∷ scheme, rest)

-- `scheme` at the front, with what follows; a count of characters to step over follows the text.
unfoldable pub match_scheme : ℕ → Text → Option (Text × Text)
unfolding read_name
match_scheme skip [] = none
match_scheme (suc skip) (c ∷ s) = match_scheme skip s
match_scheme zero (c ∷ s) = elim (read_name (c ∷ s)) [
  | none ↦ none
  | some (name, rest) ↦
      let wrapped = add_wrapper name (match_scheme (length name) s) in
      if ends_scheme name rest then some (name ++ b':' ∷ [], rest) else wrapped
]

-- A match of `_URL_START`, with what follows it.
pub record UrlStart : Type 0 where
  pub lead : Text
  pub scheme : Text
  pub slashes : Text
  pub rest : Text

abbrev pub with_slashes : Text → Option (Text × Text) → Option UrlStart
with_slashes lead none = none
with_slashes lead (some (scheme, s)) = some record {
  lead = lead;
  scheme = scheme;
  slashes = until (λ c. not (is_slash c)) s;
  rest = from_first (λ c. not (is_slash c)) s;
}

unfoldable pub match_start : Text → Option UrlStart
unfolding match_scheme until from_first is_space
match_start value =
    with_slashes (until (λ c. not (is_lead c)) value)
      (match_scheme 0 (from_first (λ c. not (is_lead c)) value))

-- s.rpartition(c)[2]
unfoldable pub after_last : ℕ → Text → Text
unfolding until
after_last c s = reverse (until (λ d. d == c) (reverse s))

-- s.rstrip(), and s.rstrip(':')
unfoldable pub rstrip_by : (ℕ → Bool) → Text → Text
rstrip_by p s = reverse (drop_while p (reverse s))

unfoldable pub rstrip : Text → Text
unfolding rstrip_by is_space
rstrip s = rstrip_by is_space s

abbrev pub is_mark : ℕ → Bool
is_mark c = c == b'?' || c == b'#'

abbrev pub is_end : ℕ → Bool
is_end c = is_slash c || is_mark c

-- last
abbrev pub last_scheme : Text → Text
last_scheme scheme = after_last b':' (rstrip_by (λ c. c == b':') (lower_scheme scheme))

-- A URL with no host
abbrev pub trim_path : UrlMode → Text → Text → Text
trim_path host_only start rest = rstrip start
trim_path _ start rest = rstrip (start ++ until is_mark rest)

abbrev pub trim_authority : UrlMode → Text → Text → Text
trim_authority host_only start rest = rstrip (start ++ after_last b'@' (until is_end rest))
trim_authority _ start rest =
    rstrip (start ++ after_last b'@' (until is_end rest) ++ until is_mark (from_first is_end rest))

-- `_trim`
unfoldable pub trim : UrlMode → UrlStart → Text
unfolding rstrip after_last until from_first rstrip_by
trim mode m =
    let start = m.scheme ++ m.slashes in
    let last = last_scheme m.scheme in
    if elem last bare_schemes && m.slashes == []
    then trim_path mode start m.rest
    else if last == text "file" && not (length m.slashes == 2)
    then trim_path mode start m.rest
    else trim_authority mode start m.rest

abbrev pub closers : List (ℕ × ℕ)
closers =
    (b'"', b'"')
    ∷ (b'\'', b'\'')
    ∷ (b'`', b'`')
    ∷ (b'<', b'>')
    ∷ (b'(', b')')
    ∷ (b'[', b']')
    ∷ (0x201c, 0x201d)
    ∷ (0x2018, 0x2019)
    ∷ (0xab, 0xbb)
    ∷ []

abbrev pub closer_of : List (ℕ × ℕ) → ℕ → Option ℕ
closer_of [] c = none
closer_of ((o, cl) ∷ pairs) c = let later = closer_of pairs c in if o == c then some cl else later

-- _CLOSERS.get(lead.strip()[-1:]), on the reversed text
abbrev pub closer_after : Text → Option ℕ
closer_after [] = none
closer_after (c ∷ s) = closer_of closers c

abbrev pub drop_closer : Option ℕ → Text → Text
drop_closer none s = s
drop_closer (some c) s = if ends_with (c ∷ []) s then rstrip (take (length s - 1) s) else s

abbrev pub trim_start : UrlMode → Text → Option UrlStart → Text
trim_start mode value none = value
trim_start mode value (some m) = drop_closer (closer_after (reverse (strip m.lead))) (trim mode m)

-- `trim_url`, on a text
unfoldable pub trim_url : UrlMode → Text → Text
unfolding match_start trim rstrip ends_with strip
trim_url full value = value
trim_url trimmed value = trim_start trimmed value (match_start value)
trim_url host_only value = trim_start host_only value (match_start value)
