-- ===== src/Tbql/Lexer.antt =====
-- `tokenize` of console/backend/tbconsole/search/tbql.py. Each reader takes the text from where it
-- stands, with its position where a mistake needs it. The loop steps over a token's characters by
-- a count, so that it follows the text.
use turkey_bite.Prelude.{
  ℕ, zero, suc, ◌+◌, ◌-◌, Bool, true, false, ◌&&◌, ◌||◌, not, Option, none, some, List, [], ◌∷◌,
  ◌++◌, length, leb, if◌then◌else◌, ◌==◌, nat_eq, list_eq,
}
use turkey_bite.Text.{Text, text, is_space, strip, strip_by, lower, starts_with, push_head}
use turkey_bite.Tbql.{
  Result, ok, failed, ◌>>=◌, mistake, unclosed_quote, unclosed_parenthesis, unclosed_range,
  bad_range, no_value, Kind, lp, rp, and_op, or_op, not_op, term, eof, Range, Tok, tok,
}

-- The characters at the front that pass a test, and the rest.
unfoldable pub span : (ℕ → Bool) → Text → Text × Text
span p [] = ([], [])
span p (c ∷ s) = let (front, back) = span p s in if p c then (c ∷ front, back) else ([], c ∷ s)

abbrev pub prepend : Text → Option (Text × ℕ) → Option (Text × ℕ)
prepend cs none = none
prepend cs (some (value, n)) = some (cs ++ value, n)

abbrev pub count_more : ℕ → Option (Text × ℕ) → Option (Text × ℕ)
count_more k none = none
count_more k (some (value, n)) = some (value, k + n)

-- `_read_quoted`, from behind the opening quote: the value, and how many characters it takes with
-- the closing quote; none where the quote is never closed.
unfoldable pub read_quoted : Text → Option (Text × ℕ)
read_quoted [] = none
read_quoted (c ∷ []) = if c == b'"' then some ([], 1) else none
read_quoted (c ∷ d ∷ s) =
    let escaped = count_more 2 (prepend (d ∷ []) (read_quoted s)) in
    let plain = count_more 1 (prepend (c ∷ []) (read_quoted (d ∷ s))) in
    if c == b'\\' then escaped else if c == b'"' then some ([], 1) else plain

abbrev pub is_bare : ℕ → Bool
is_bare c = not (is_space c) && not (c == b'(') && not (c == b')')

-- `_read_bare`: the value and the rest
unfoldable pub read_bare : Text → Text × Text
unfolding span is_space
read_bare s = span is_bare s

abbrev pub push_char : ℕ → Result Text → Result Text
push_char c (ok inner) = ok (c ∷ inner)
push_char c (failed m p n) = failed m p n

-- `_read_group`, from behind its '(': what stands before the ')' that closes it. `start` and `size`
-- are the mistake's place, `skip` counts the characters of a quoted text that are left.
unfoldable pub read_group : ℕ → ℕ → ℕ → ℕ → ℕ → Text → Result Text
unfolding read_quoted
read_group start size pos depth skip [] = mistake unclosed_parenthesis start size
read_group start size pos depth (suc skip) (c ∷ s) =
    push_char c (read_group start size (pos + 1) depth skip s)
read_group start size pos depth zero (c ∷ s) =
    let deeper = push_char c (read_group start size (pos + 1) (depth + 1) 0 s) in
    let higher = push_char c (read_group start size (pos + 1) (depth - 1) 0 s) in
    let onward = push_char c (read_group start size (pos + 1) depth 0 s) in
    let quoted : Result Text = elim (read_quoted s) [
      | none ↦ mistake unclosed_quote pos (length (c ∷ s))
      | some (value, n) ↦ push_char c (read_group start size (pos + 1) depth n s)
    ] in
    if c == b'"'
    then quoted
    else if c == b'('
    then deeper
    else if c == b')'
    then (if leb depth 1 then ok [] else higher)
    else onward

-- `\s+TO\s+` at the front, without regard to case: how many characters it takes
abbrev pub is_to : Text → Bool
is_to (t ∷ o ∷ c ∷ s) = (t == b'T' || t == b't') && (o == b'O' || o == b'o') && is_space c
is_to _ = false

unfoldable pub match_to : Text → Option ℕ
unfolding span is_space
match_to s =
    let (before, rest) = span is_space s in
    let (after, _) =
      span is_space (elim rest [ [] ↦ [] | t ∷ r ↦ elim r [ [] ↦ [] | o ∷ q ↦ q ] ]) in
    if leb 1 (length before) && is_to rest then some (length before + 2 + length after) else none

-- re.split(r'\s+TO\s+', inner, flags=re.IGNORECASE)
unfoldable pub split_to : ℕ → Text → List Text
unfolding match_to
split_to skip [] = [] ∷ []
split_to (suc skip) (c ∷ s) = split_to skip s
split_to zero (c ∷ s) = elim (match_to (c ∷ s)) [
  | none ↦ push_head c (split_to 0 s)
  | some n ↦ [] ∷ split_to (n - 1) s
]

abbrev pub is_close : ℕ → Bool
is_close c = c == b']' || c == b'}'

-- p.strip().strip('"')
unfoldable pub bound_text : Text → Text
unfolding strip strip_by
bound_text p = strip_by (λ c. c == b'"') (strip p)

abbrev pub open_bound : Text → Option Text
open_bound b = if b == text "*" || b == text "" then none else some b

-- `_read_range`, from behind its bracket; `size` counts what the brackets enclose, with them.
abbrev pub range_of : Bool → Bool → ℕ → ℕ → List Text → Result Range
range_of open_in close_in pos size (p ∷ q ∷ []) = ok record {
  low = open_bound (bound_text p);
  high = open_bound (bound_text q);
  include_low = open_in;
  include_high = close_in;
}
range_of open_in close_in pos size _ = mistake bad_range pos size

abbrev pub closed_range : Bool → ℕ → Text × Text → Result (Range × ℕ)
closed_range open_in pos (inner, []) = mistake unclosed_range pos (length inner + 1)
closed_range open_in pos (inner, c ∷ s) =
    range_of open_in (c == b']') pos (length inner + 2) (split_to 0 (strip inner)) >>= λ r.
    ok (r, length inner + 2)

unfoldable pub read_range : Bool → ℕ → Text → Result (Range × ℕ)
unfolding span split_to bound_text strip
read_range open_in pos s = closed_range open_in pos (span (λ c. not (is_close c)) s)

-- [A-Za-z_@]
abbrev pub is_letter : ℕ → Bool
is_letter c = (leb b'A' c && leb c b'Z') || (leb b'a' c && leb c b'z')

abbrev pub is_field_start : ℕ → Bool
is_field_start c = is_letter c || c == b'_' || c == b'@'

-- [A-Za-z0-9_.@\-]
abbrev pub is_field_char : ℕ → Bool
is_field_char c =
    is_letter c || (leb b'0' c && leb c b'9') || c == b'_' || c == b'.' || c == b'@' || c == b'-'

abbrev pub before_colon : ℕ → Text × Text → Option (Text × Text)
before_colon c (more, []) = none
before_colon c (more, d ∷ s) = if d == b':' then some (c ∷ more, s) else none

-- `_FIELD_RE` with a colon behind it: the name, and what follows the colon
unfoldable pub match_field : Text → Option (Text × Text)
unfolding span
match_field [] = none
match_field (c ∷ s) = if is_field_start c then before_colon c (span is_field_char s) else none

-- The first of `_OPS` at the front, or ':'
abbrev pub read_op : Text → Text × Text
read_op (a ∷ b ∷ s) =
    if a == b'>' && b == b'='
    then (text ">=", s)
    else if a == b'<' && b == b'='
    then (text "<=", s)
    else if a == b'>'
    then (text ">", b ∷ s)
    else if a == b'<'
    then (text "<", b ∷ s)
    else (text ":", a ∷ b ∷ s)
read_op (a ∷ []) =
    if a == b'>' then (text ">", []) else if a == b'<' then (text "<", []) else (text ":", a ∷ [])
read_op [] = (text ":", [])

abbrev pub quoted_tok : ℕ → ℕ → Option Text → Text → Option (Text × ℕ) → ℕ → ℕ → Result Tok
quoted_tok pos before name op none quote_pos quote_size =
    mistake unclosed_quote quote_pos quote_size
quoted_tok pos before name op (some (value, n)) quote_pos quote_size =
    ok (record (tok term pos (before + 1 + n)) {
      field = name;
      op = op;
      value = value;
      quoted = true;
    })

abbrev pub bare_tok : ℕ → ℕ → Text → Text → Text × Text → Result Tok
bare_tok pos before name op ([], rest) = mistake no_value pos before
bare_tok pos before name op (c ∷ value, rest) =
    ok (record (tok term pos (before + length (c ∷ value))) {
      field = some name;
      op = op;
      value = c ∷ value;
    })

abbrev pub is_open : ℕ → Bool
is_open c = c == b'[' || c == b'{'

-- The token of `name:op` before this text; `before` counts what was read of it.
unfoldable pub field_value : ℕ → ℕ → Text → Text → Text → Result Tok
unfolding read_quoted read_group read_range read_bare
field_value pos before name op [] = mistake no_value pos before
field_value pos before name op (c ∷ s) =
    if c == b'"'
    then quoted_tok pos before (some name) op (read_quoted s) (pos + before) (length (c ∷ s))
    else if c == b'(' && op == text ":"
    then (read_group (pos + before) (length (c ∷ s)) (pos + before + 1) 1 0 s >>= λ inner.
        ok (record (tok term pos (before + 2 + length inner)) {
          field = some name;
          group = some inner;
        }))
    else if is_open c && op == text ":"
    then (read_range (c == b'[') (pos + before) s >>= λ (r, n).
        ok (record (tok term pos (before + n)) { field = some name; range = some r }))
    else bare_tok pos before name op (read_bare (c ∷ s))

abbrev pub word_tok : ℕ → Text → Tok
word_tok pos word =
    if lower word == text "and"
    then tok and_op pos (length word)
    else if lower word == text "or"
    then tok or_op pos (length word)
    else if lower word == text "not"
    then tok not_op pos (length word)
    else record (tok term pos (length word)) { value = word }

unfoldable pub word_or_field : ℕ → Text → Result Tok
unfolding match_field field_value read_bare lower
word_or_field pos s = elim (match_field s) [
  | none ↦ ok (word_tok pos (read_bare s).0)
  | some (name, rest) ↦
      let (op, value) = read_op rest in field_value pos (length s - length value) name op value
]

abbrev pub next_is : (ℕ → Bool) → Text → Bool
next_is p [] = false
next_is p (c ∷ s) = p c

-- The token at the front of a text that starts with no space. `may_negate` is whether a minus here
-- starts a term.
unfoldable pub next_token : Bool → ℕ → Text → Result Tok
unfolding word_or_field is_space read_quoted
next_token may_negate pos [] = ok (tok eof pos 0)
next_token may_negate pos (c ∷ s) =
    if c == b'('
    then ok (tok lp pos 1)
    else if c == b')'
    then ok (tok rp pos 1)
    else if starts_with (text "&&") (c ∷ s)
    then ok (tok and_op pos 2)
    else if starts_with (text "||") (c ∷ s)
    then ok (tok or_op pos 2)
    else if c == b'!' && next_is (λ d. not (is_space d)) s
    then ok (tok not_op pos 1)
    else if c == b'-' && next_is (λ d. not (is_space d) && not (d == b'-')) s && may_negate
    then ok (tok not_op pos 1)
    else if c == b'"'
    then quoted_tok pos 0 none (text ":") (read_quoted s) pos (length (c ∷ s))
    else word_or_field pos (c ∷ s)

-- tokens[-1].kind in ('LP', 'AND', 'OR', 'NOT'), or no token at all
abbrev pub opens_term : Option Kind → Bool
opens_term none = true
opens_term (some lp) = true
opens_term (some and_op) = true
opens_term (some or_op) = true
opens_term (some not_op) = true
opens_term (some _) = false

-- The loop of `tokenize`: the kind of the last token, whether the character before is a space, the
-- position, and how many characters of a token are left to step over.
unfoldable pub tokenize_from : Option Kind → Bool → ℕ → ℕ → Text → Result (List Tok)
unfolding next_token is_space
tokenize_from last spaced pos skip [] = ok (tok eof pos 0 ∷ [])
tokenize_from last spaced pos (suc skip) (c ∷ s) = tokenize_from last (is_space c) (pos + 1) skip s
tokenize_from last spaced pos zero (c ∷ s) = elim (is_space c) [
  | true ↦ tokenize_from last true (pos + 1) 0 s
  | false ↦ next_token (opens_term last || spaced) pos (c ∷ s) >>= λ t.
      tokenize_from (some t.kind) false (pos + 1) (t.length - 1) s >>= λ ts. ok (t ∷ ts)
]

unfoldable pub tokenize : Text → Result (List Tok)
unfolding tokenize_from
tokenize s = tokenize_from none false 0 0 s
