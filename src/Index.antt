-- ===== src/Index.antt =====
-- src/libtb/index/__init__.py: the index of the host lists, as a worker reads it.
-- The decoding of the file's bytes is the tables that they hold: names with their labels reversed,
-- the number of each name's entry, and each entry's claims. Python compares names as UTF-8 bytes,
-- which is their order as lists of code points.
pub mod Search
pub mod Memo
pub mod Matching
mod Tests
use turkey_bite.Prelude.{
  ℕ, zero, suc, ◌+◌, ◌-◌, ◌/◌, Bool, true, false, ◌&&◌, ◌||◌, not, Option, none, some, List, [],
  ◌∷◌, ◌++◌, map, reverse, length, drop, ltb, leb, if◌then◌else◌, ◌==◌, nat_eq, list_eq, elem, keep,
}
use turkey_bite.Text.{Text, text, split, join, starts_with, sorted_set}
use turkey_bite.Evidence.{Source, Claim, negation}

-- What a list says of a name: a source and a category.
abbrev pub Pair : Type 0
Pair = Source × Text

-- The tables of an index file.
pub record File : Type 0 where
  pub names : List Text
  pub attr_index : List ℕ
  pub attr_table : List (List Pair)

abbrev pub claims_memo_max : ℕ
claims_memo_max = 20000

unfoldable pub reverse_labels : Text → Text
unfolding split join
reverse_labels host = join b'.' (reverse (split b'.' host))

unfoldable pub subtree_key : Text → Text
subtree_key host = if starts_with (text "*.") host then host else text "*." ++ host

unfoldable pub www_alias : Text → Text
www_alias host = if starts_with (text "www.") host then drop 4 host else text "www." ++ host

-- `<` on names
abbrev pub less : Text → Text → Bool
less [] [] = false
less [] (y ∷ ys) = true
less (x ∷ xs) [] = false
less (x ∷ xs) (y ∷ ys) = ltb x y || (x == y && less xs ys)

abbrev pub name_at : ℕ → List Text → Text
name_at i [] = []
name_at zero (x ∷ xs) = x
name_at (suc i) (x ∷ xs) = name_at i xs

unfoldable pub domain_at : File → ℕ → Text
domain_at file i = name_at i file.names

-- The loop of `_find`, on fuel; the number of names is enough.
unfoldable pub find_from : ℕ → File → Text → ℕ → ℕ → ℕ
unfolding domain_at
find_from zero file target lo hi = lo
find_from (suc k) file target lo hi = elim (ltb lo hi) [
  | false ↦ lo
  | true ↦ elim (less (domain_at file ((lo + hi) / 2)) target) [
    | true ↦ find_from k file target ((lo + hi) / 2 + 1) hi
    | false ↦ find_from k file target lo ((lo + hi) / 2)
  ]
]

-- lo if lo < self.n_domains and self._domain_at(lo) == target else None
abbrev pub exact : File → Text → ℕ → Option ℕ
exact file target lo =
    if ltb lo (length file.names) && domain_at file lo == target then some lo else none

unfoldable pub find : File → Text → Option ℕ
unfolding find_from
find file target =
    exact file target (find_from (length file.names) file target 0 (length file.names))

abbrev pub number_at : ℕ → List ℕ → ℕ
number_at i [] = 0
number_at zero (x ∷ xs) = x
number_at (suc i) (x ∷ xs) = number_at i xs

abbrev pub pairs_at : ℕ → List (List Pair) → List Pair
pairs_at i [] = []
pairs_at zero (x ∷ xs) = x
pairs_at (suc i) (x ∷ xs) = pairs_at i xs

-- What `_claims_for` reads from the file.
abbrev pub decode_found : File → Option ℕ → List Pair
decode_found file none = []
decode_found file (some i) = pairs_at (number_at i file.attr_index) file.attr_table

unfoldable pub read_claims : File → Text → List Pair
unfolding find reverse_labels
read_claims file key = decode_found file (find file (reverse_labels key))

abbrev pub Memo : Type 0
Memo = List (Text × List Pair)

abbrev pub remembered : Text → Memo → Option (List Pair)
remembered key [] = none
remembered key ((k, claims) ∷ memo) =
    let later = remembered key memo in if k == key then some claims else later

abbrev pub forget_full : Memo → Memo
forget_full memo = if leb claims_memo_max (length memo) then [] else memo

-- `_claims_for`, with the memo before and after.
unfoldable pub claims_for : File → Text → Memo → List Pair × Memo
unfolding read_claims
claims_for file key memo = elim (remembered key memo) [
  | some claims ↦ (claims, memo)
  | none ↦ (read_claims file key, (key, read_claims file key) ∷ forget_full memo)
]

-- host.count('.')
abbrev pub count_dots : Text → ℕ
count_dots [] = 0
count_dots (c ∷ s) = let rest = count_dots s in if c == b'.' then suc rest else rest

-- len(boundary.split('.')) if boundary else 1
unfoldable pub floor_of : Option Text → ℕ
unfolding split
floor_of none = 1
floor_of (some []) = 1
floor_of (some (c ∷ s)) = length (split b'.' (c ∷ s))

-- ('*.' + '.'.join(labels[i:]), len(labels) - i >= floor) for each i
unfoldable pub subtree_probes : ℕ → List Text → List (Text × Bool)
unfolding join
subtree_probes floor [] = []
subtree_probes floor (l ∷ ls) =
    (text "*." ++ join b'.' (l ∷ ls), leb floor (length (l ∷ ls))) ∷ subtree_probes floor ls

unfoldable pub probes : Text → Option Text → List (Text × Bool)
unfolding www_alias floor_of subtree_probes split
probes host boundary =
    (host, true)
    ∷ (www_alias host, leb (floor_of boundary) (count_dots (www_alias host) + 1))
    ∷ subtree_probes (floor_of boundary) (split b'.' host)

abbrev pub speaks : Bool → Pair → Bool
speaks owned (source, category) = owned || source.is_local

abbrev pub claim_of : Text → Pair → Claim
claim_of key (source, category) = record { key = some key; source = source; category = category }

-- The loop over the probes, with the memo.
unfoldable pub match_probes : File → List (Text × Bool) → Memo → List Claim × Memo
unfolding claims_for
match_probes file [] memo = ([], memo)
match_probes file ((key, owned) ∷ rest) memo =
    let (claims, memo') = claims_for file key memo in
    let (found, memo'') = match_probes file rest memo' in
    (map (claim_of key) (keep (speaks owned) claims) ++ found, memo'')

abbrev pub is_empty : Text → Bool
is_empty [] = true
is_empty (c ∷ s) = false

unfoldable pub match_host : File → Text → Option Text → Memo → List Claim × Memo
unfolding match_probes probes
match_host file host boundary memo =
    if is_empty host then ([], memo) else match_probes file (probes host boundary) memo

abbrev pub is_correction : Claim → Bool
is_correction c = starts_with negation c.category

abbrev note_key : Option Text → List Text → List Text
note_key none keys = keys
note_key (some k) keys = if elem k keys then keys else keys ++ k ∷ []

abbrev matched_from : List Text → List Claim → List Text
matched_from keys [] = keys
matched_from keys (c ∷ claims) = matched_from (note_key c.key keys) claims

-- The categories, the sources and the keys that `lookup` answers, from what `match` found.
unfoldable pub looked_up : List Claim → List Text × (List Text × List Text)
unfolding sorted_set
looked_up claims =
    let cancelled = map (λ c. drop 1 c.category) (keep is_correction claims) in
    let named = map (λ c. c.category) (keep (λ c. not (is_correction c)) claims) in
    (
      sorted_set (keep (λ t. not (elem t cancelled)) named),
      (sorted_set (map (λ c. c.source.name) claims), matched_from [] claims),
    )

unfoldable pub lookup :
    File → Text → Option Text → Memo → (List Text × (List Text × List Text)) × Memo
unfolding match_host looked_up
lookup file host boundary memo =
    let (claims, memo') = match_host file host boundary memo in (looked_up claims, memo')

-- `st_dev`, `st_ino`, `st_mtime_ns` and `st_size`
pub record Identity : Type 0 where
  pub dev : ℕ
  pub ino : ℕ
  pub mtime : ℕ
  pub size : ℕ

abbrev pub same_identity : Identity → Identity → Bool
same_identity a b =
    nat_eq.same a.dev b.dev
    && nat_eq.same a.ino b.ino
    && nat_eq.same a.mtime b.mtime
    && nat_eq.same a.size b.size

-- An open index: the identity of the file, its tables, and the memo of claims.
pub record DomainIndex : Type 0 where
  pub identity : Identity
  pub file : File
  pub memo : Memo

-- What `_open` reads at the path: no file of this format, or the tables of one.
unfoldable pub open_index : Identity × File → DomainIndex
open_index (identity, file) = record { identity = identity; file = file; memo = [] }

abbrev pub reopen : Option (Identity × File) → Option (Bool × DomainIndex)
reopen none = none
reopen (some found) = some (true, open_index found)

-- `reload_if_changed`; `stat` answers none where there is no file, and `reopened` is what `_open`
-- then finds at the path, none where it raises with the index closed.
unfoldable pub reload_if_changed :
    Option Identity → Option (Identity × File) → DomainIndex → Option (Bool × DomainIndex)
unfolding open_index
reload_if_changed none reopened index = some (false, index)
reload_if_changed (some now) reopened index =
    if same_identity now index.identity then some (false, index) else reopen reopened
