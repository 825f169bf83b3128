-- ===== src/Psl.antt =====
-- src/libtb/psl/__init__.py: registrable domains, by the Public Suffix List.
-- A Python set is a list without repeats. The punycode codec is an argument, `none` where it
-- raises. What the file system says of the list file is an argument of `load`.
pub mod Loading
pub mod Sequences
pub mod Longest
pub mod Owner
mod Tests
use turkey_bite.Prelude.{
  ℕ, zero, suc, ◌+◌, ◌-◌, ◌≤◌, String, Bool, true, false, ◌&&◌, ◌||◌, not, Option, none, some, List,
  [], ◌∷◌, ◌++◌, length, drop, ltb, leb, if◌then◌else◌, ◌==◌, nat_eq, list_eq, elem, all,
}
use turkey_bite.Text.{
  Text, text, is_space, strip, lower, strip_dots, starts_with, split, join, has_char,
}
use turkey_bite.Json.{Json, str}

pub record Rules : Type 0 where
  pub rules : List Text
  pub wildcards : List Text
  pub exceptions : List Text

abbrev pub min_rules : ℕ
min_rules = 5000

abbrev pub required_rules : List Text
required_rules = text "com" ∷ text "co.uk" ∷ text "github.io" ∷ []

-- bucket.add(target)
abbrev pub add : Text → List Text → List Text
add t bucket = if elem t bucket then bucket else t ∷ bucket

abbrev add_option : Option Text → List Text → List Text
add_option none bucket = bucket
add_option (some t) bucket = add t bucket

abbrev pub is_ascii : Text → Bool
is_ascii s = all (λ c. ltb c 128) s

-- line.split()[0], of a line with something in it
abbrev pub first_word : Text → Text
first_word [] = []
first_word (c ∷ s) = let rest = first_word s in if is_space c then [] else c ∷ rest

module _ (punycode : Text → Option Text) where
  abbrev encode_label : Text → Option Text
  encode_label label =
      if is_ascii label
      then some label
      else elim (punycode label) [ none ↦ none | some code ↦ some (text "xn--" ++ code) ]

  abbrev encode_labels : List Text → Option (List Text)
  encode_labels [] = some []
  encode_labels (label ∷ rest) = elim (encode_label label) [
    | none ↦ none
    | some code ↦ elim (encode_labels rest) [ none ↦ none | some codes ↦ some (code ∷ codes) ]
  ]

  unfoldable pub ascii_form : Text → Option Text
  unfolding split join
  ascii_form rule = if is_ascii rule then none else elim (encode_labels (split b'.' rule)) [
    | none ↦ none
    | some codes ↦ some (join b'.' codes)
  ]

  -- `bucket.add(target)`, and its punycode spelling
  abbrev add_both : Text → List Text → List Text
  add_both target bucket = add_option (ascii_form target) (add target bucket)

  -- The bucket that a rule goes to.
  unfoldable pub add_rule : Text → Rules → Rules
  add_rule rule r =
      if starts_with (text "!") rule
      then record r { exceptions = add_both (drop 1 rule) r.exceptions }
      else if starts_with (text "*.") rule
      then record r { wildcards = add_both (drop 2 rule) r.wildcards }
      else record r { rules = add_both rule r.rules }

  abbrev parse_line : Rules → Text → Rules
  parse_line r [] = r
  parse_line r (c ∷ s) =
      if starts_with (text "//") (c ∷ s) then r else add_rule (lower (first_word (c ∷ s))) r

  unfoldable pub parse_from : Rules → List Text → Rules
  unfolding strip lower add_rule
  parse_from r [] = r
  parse_from r (line ∷ lines) = parse_from (parse_line r (strip line)) lines

  unfoldable pub parse : List Text → Rules
  unfolding parse_from
  parse lines = parse_from (record { rules = []; wildcards = []; exceptions = [] }) lines

unfoldable pub usable : List Text → Bool
usable rules = leb min_rules (length rules) && all (λ r. elem r rules) required_rules

-- (st_dev, st_ino, st_mtime_ns, st_size)
pub record Identity : Type 0 where
  pub device : ℕ
  pub inode : ℕ
  pub modified : ℕ
  pub size : ℕ

abbrev pub same_identity : Identity → Identity → Bool
same_identity a b =
    a.device == b.device && a.inode == b.inode && a.modified == b.modified && a.size == b.size

-- `_state`: its rules, wildcards and exceptions are None together.
pub record State : Type 0 where
  pub identity : Option Identity
  pub loaded : Option Rules

-- `forget()`, and the start
abbrev pub forgotten : State
forgotten = record { identity = none; loaded = none }

-- What the file system answers: `os.stat`, and the lines on `open`, `none` where it raises.
pub record Disk : Type 0 where
  pub stat : Option Identity
  pub lines : Option (List Text)

abbrev pub is_loaded : Option Rules → Bool
is_loaded none = false
is_loaded (some r) = true

abbrev pub is_current : Option Identity → Identity → Bool
is_current none now = false
is_current (some old) now = same_identity old now

module _ (punycode : Text → Option Text) where
  abbrev install : State → Identity → Rules → Bool × State
  install st now r =
      if usable r.rules
      then (true, record { identity = some now; loaded = some r })
      else (is_loaded st.loaded, st)

  abbrev reread : State → Identity → Option (List Text) → Bool × State
  reread st now none = (is_loaded st.loaded, st)
  reread st now (some lines) = install st now (parse punycode lines)

  abbrev load_at : State → Disk → Option Identity → Bool × State
  load_at st disk none = (false, forgotten)
  load_at st disk (some now) =
      if is_current st.identity now && is_loaded st.loaded
      then (true, st)
      else reread st now disk.lines

  unfoldable pub load : State → Disk → Bool × State
  unfolding usable
  load st disk = load_at st disk disk.stat

-- host.strip().strip('.').lower()
unfoldable pub trim_host : Text → Text
unfolding strip strip_dots lower
trim_host s = lower (strip_dots (strip s))

-- An exception rule wins, and its suffix is the rule without its leftmost label.
unfoldable pub exception_suffix : List Text → List Text → Option Text
unfolding join
exception_suffix exceptions [] = none
exception_suffix exceptions (label ∷ rest) =
    if elem (join b'.' (label ∷ rest)) exceptions
    then some (join b'.' rest)
    else exception_suffix exceptions rest

abbrev is_empty : Text → Bool
is_empty [] = true
is_empty (c ∷ s) = false

-- The test of the second loop, on the labels from the i-th on.
unfoldable pub is_rule : Rules → List Text → Bool
unfolding join
is_rule r [] = false
is_rule r (label ∷ rest) =
    elem (join b'.' (label ∷ rest)) r.rules
    || not (is_empty (join b'.' rest)) && elem (join b'.' rest) r.wildcards

-- Otherwise the longest match, which is the first one found.
unfoldable pub longest_rule : Rules → List Text → Option Text
unfolding is_rule
longest_rule r [] = none
longest_rule r (label ∷ rest) =
    if is_rule r (label ∷ rest) then some (join b'.' (label ∷ rest)) else longest_rule r rest

abbrev pub last_label : List Text → Text
last_label [] = []
last_label (label ∷ []) = label
last_label (label ∷ next ∷ rest) = last_label (next ∷ rest)

abbrev pub or_else {ℓ} : {A : Type ℓ} → Option A → A → A
or_else none d = d
or_else (some a) d = a

-- The two loops and the default, on the labels of a trimmed host.
unfoldable pub suffix_of : Rules → List Text → Text
unfolding exception_suffix longest_rule
suffix_of r labels = elim (exception_suffix r.exceptions labels) [
  | some suffix ↦ suffix
  | none ↦ or_else (longest_rule r labels) (last_label labels)
]

abbrev suffix_of_trimmed : Rules → Text → Option Text
suffix_of_trimmed r [] = none
suffix_of_trimmed r (c ∷ s) = some (suffix_of r (split b'.' (c ∷ s)))

-- `public_suffix`, after `_load` left these rules, if any.
unfoldable pub public_suffix : Option Rules → Json → Option Text
unfolding trim_host suffix_of split
public_suffix none host = none
public_suffix (some r) (str s) = suffix_of_trimmed r (trim_host s)
public_suffix (some r) _ = none

-- xs[-n:]
abbrev pub last_n : ℕ → List Text → List Text
last_n n xs = drop (length xs - n) xs

unfoldable pub naive_domain : Json → Option Text
unfolding trim_host split join
naive_domain (str s) =
    if has_char b'.' (trim_host s)
    then some (join b'.' (last_n 2 (split b'.' (trim_host s))))
    else none
naive_domain _ = none

-- The suffix and one more label, if there is one more.
unfoldable pub with_owner : Text → Text → Option Text
unfolding split join
with_owner suffix host =
    let labels = split b'.' host in
    let n = length (split b'.' suffix) in
    if leb (length labels) n then none else some (join b'.' (last_n (n + 1) labels))

abbrev owner_of : Option Text → Json → Option Text
owner_of none host = naive_domain host
owner_of (some suffix) (str s) = with_owner suffix (trim_host s)
owner_of (some suffix) _ = none

-- A host that is no string has no suffix, so the last case of `owner_of` does not arise.
unfoldable pub registrable_domain : Option Rules → Json → Option Text
unfolding public_suffix naive_domain with_owner
registrable_domain r host = owner_of (public_suffix r host) host
