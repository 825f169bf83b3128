-- ===== src/Builder.antt =====
-- src/libtb/index/builder.py: what the librarian writes for the workers to read.
-- The bytes of the file are the tables that the reader decodes from them. `build` answers none
-- where it raises; a number that its field cannot hold, which `struct` refuses, is not modelled
-- where the code has no check of its own. The order of a set is that of a list.
pub mod Tables
pub mod Sorting
pub mod Interning
pub mod Collected
pub mod Rows
pub mod Reading
pub mod Collect
pub mod Ignore
mod Tests
use turkey_bite.Prelude.{
  ℕ, zero, suc, ◌+◌, Bool, true, false, ◌&&◌, ◌||◌, not, Option, none, some, List, [], ◌∷◌, ◌++◌,
  map, length, and-eq-true, HasEq, any, ltb, leb, if◌then◌else◌, ◌==◌, nat_eq, list_eq, elem, keep,
  ◌≡◌, refl, ap, ◌↔◌, arith,
}
use turkey_bite.Text.{Text, text}
use turkey_bite.Evidence.{Trust, low, medium, high, Source, negation}
use turkey_bite.Index.{Pair, File, reverse_labels, less, name_at}

abbrev pub local_publisher : Text
local_publisher = text "local"

abbrev pub local_names : List Text
local_names = text "turkeybite" ∷ text "custom" ∷ []

abbrev pub ignorelist_source : Text
ignorelist_source = text "ignorelist"

unfoldable pub local_source : Text → Source
local_source name = record {
  name = name;
  publisher = local_publisher;
  trust = high;
  is_local = true;
  derived_from = [];
}

-- The settings of a list file; `subtree` is whether its match is 'subtree'.
pub record Conf : Type 0 where
  pub categories : List Text
  pub publisher : Text
  pub derived_from : List Text
  pub trust : Trust
  pub subtree : Bool
  pub is_local : Bool

abbrev pub local_conf : Conf
local_conf = record {
  categories = [];
  publisher = local_publisher;
  derived_from = [];
  trust = high;
  subtree = true;
  is_local = true;
}

unfoldable pub unconfigured : Text → Conf
unconfigured name = if elem name local_names then local_conf else record {
  categories = [];
  publisher = name;
  derived_from = [];
  trust = low;
  subtree = false;
  is_local = false;
}

-- Source(name, conf['publisher'], conf['trust'], conf['local'], …)
abbrev pub conf_source : Text → Conf → Source
conf_source name conf = record {
  name = name;
  publisher = conf.publisher;
  trust = conf.trust;
  is_local = conf.is_local;
  derived_from = conf.derived_from;
}

unfoldable pub default_source : Text → Source
unfolding unconfigured local_source
default_source name =
    if name == ignorelist_source then local_source name else conf_source name (unconfigured name)

-- A dict of sources by name.
abbrev pub Sources : Type 0
Sources = List (Text × Source)

-- sources.get(name) or default_source(name), as its record is read back: under the name asked for
unfoldable pub source_of : Sources → Text → Source
unfolding default_source
source_of [] name = default_source name
source_of ((n, source) ∷ sources) name =
    let later = source_of sources name in if n == name then record source { name = name } else later

-- What the lists say of a key: source names with their categories.
abbrev pub Said : Type 0
Said = List (Text × List Text)

-- A dict from keys, hosts or '*.domain', to what the lists say of them.
abbrev pub Entries : Type 0
Entries = List (Text × Said)

-- A tuple of (source id, category ids)
abbrev pub Coded : Type 0
Coded = List (ℕ × List ℕ)

abbrev pub place {ℓ} : {A : Type ℓ} ⦃eq : HasEq A⦄ → A → List A → ℕ
place a [] = 0
place a (x ∷ xs) = let later = place a xs in if a == x then 0 else suc later

-- table.setdefault(a, len(table)), on the table's keys in the order of their numbers
abbrev pub intern {ℓ} : {A : Type ℓ} ⦃eq : HasEq A⦄ → A → List A → ℕ × List A
intern a table = (place a table, if elem a table then table else table ++ a ∷ [])

unfoldable pub intern_all : List Text → List Text → List ℕ × List Text
intern_all [] table = ([], table)
intern_all (a ∷ names) table =
    let (k, table') = intern a table in
    let (ks, table'') = intern_all names table' in (k ∷ ks, table'')

abbrev pub insert_id : ℕ → List ℕ → List ℕ
insert_id k [] = k ∷ []
insert_id k (i ∷ ids) =
    let later = i ∷ insert_id k ids in
    if k == i then i ∷ ids else if ltb k i then k ∷ i ∷ ids else later

-- sorted({…}), on numbers
unfoldable pub sorted_ids : List ℕ → List ℕ
sorted_ids [] = []
sorted_ids (k ∷ ks) = insert_id k (sorted_ids ks)

abbrev pub Claimed : Type 0
Claimed = ℕ × List ℕ

-- The order of tuples.
abbrev pub ids_leb : List ℕ → List ℕ → Bool
ids_leb [] js = true
ids_leb (i ∷ is) [] = false
ids_leb (i ∷ is) (j ∷ js) = ltb i j || (i == j && ids_leb is js)

abbrev pub claimed_leb : Claimed → Claimed → Bool
claimed_leb (i, ks) (j, ls) = ltb i j || (i == j && ids_leb ks ls)

abbrev pub insert_claimed : Claimed → Coded → Coded
insert_claimed c [] = c ∷ []
insert_claimed c (d ∷ coded) =
    let later = d ∷ insert_claimed c coded in if claimed_leb c d then c ∷ d ∷ coded else later

unfoldable pub sort_coded : Coded → Coded
sort_coded [] = []
sort_coded (c ∷ coded) = insert_claimed c (sort_coded coded)

-- The tables of names, in the order of their ids.
pub record Names : Type 0 where
  pub sources : List Text
  pub categories : List Text

-- The claims of one key, before they are sorted. A source that says nothing is left out.
unfoldable pub encode : Said → Names → Coded × Names
unfolding intern_all sorted_ids
encode [] n = ([], n)
encode ((source, []) ∷ said) n = encode said n
encode ((source, c ∷ cats) ∷ said) n =
    let (i, sources) = intern source n.sources in
    let (ks, categories) = intern_all (c ∷ cats) n.categories in
    let (coded, n') = encode said record { sources = sources; categories = categories } in
    ((i, sorted_ids ks) ∷ coded, n')

-- What `_intern` has made so far.
pub record Interned : Type 0 where
  pub names : Names
  pub attr_table : List Coded
  pub rows : List (Text × ℕ)

abbrev pub claimed_same : Claimed → Claimed → Bool
claimed_same (i, ks) (j, ls) = i == j && ks == ls

pub claimed_same_iff : (c d : Claimed) → (claimed_same c d ≡ true) ↔ (c ≡ d)
claimed_same_iff (i, ks) (j, ls) = (
  (λ h.
      let (a, b) = and-eq-true (i == j) (ks == ls) h in
      ap2 ((nat_eq.same_iff i j).0 a) ((list_eq.same_iff ks ls).0 b)),
  λ e.
      both ((nat_eq.same_iff i j).1 (ap (λ (c : Claimed). c.0) e))
        ((list_eq.same_iff ks ls).1 (ap (λ (c : Claimed). c.1) e)),
)
  where
    ap2 : {i j : ℕ} {ks ls : List ℕ} → i ≡ j → ks ≡ ls → ◌≡◌ {A = Claimed} (i, ks) (j, ls)
    ap2 a b = cc

    both : {a b : Bool} → a ≡ true → b ≡ true → (a && b) ≡ true
    both a b = ground arith

instance abbrev pub claimed_eq : HasEq Claimed
claimed_eq = record { same = claimed_same; same_iff = claimed_same_iff }

abbrev pub add_row : Text → Coded → Names → Interned → Interned
add_row domain [] names b = record b { names = names }
add_row domain (c ∷ coded) names b =
    let (j, table) = intern (c ∷ coded) b.attr_table in
    record { names = names; attr_table = table; rows = b.rows ++ (reverse_labels domain, j) ∷ [] }

-- The loop of `_intern`.
unfoldable pub intern_entries : Entries → Interned → Interned
unfolding encode sort_coded reverse_labels
intern_entries [] b = b
intern_entries ((domain, said) ∷ entries) b =
    let (coded, names) = encode said b.names in
    intern_entries entries (add_row domain (sort_coded coded) names b)

abbrev pub insert_row : Text × ℕ → List (Text × ℕ) → List (Text × ℕ)
insert_row r [] = r ∷ []
insert_row r (s ∷ rows) =
    let later = s ∷ insert_row r rows in if less s.0 r.0 then later else r ∷ s ∷ rows

-- rows.sort(key=lambda r: r[0])
unfoldable pub sort_rows : List (Text × ℕ) → List (Text × ℕ)
sort_rows [] = []
sort_rows (r ∷ rows) = insert_row r (sort_rows rows)

abbrev pub nothing_interned : Interned
nothing_interned = record {
  names = record { sources = []; categories = [] };
  attr_table = [];
  rows = [];
}

-- `_intern`, but for the sort of the rows
unfoldable pub interned : Entries → Interned
unfolding intern_entries
interned entries = intern_entries entries nothing_interned

-- One entry of the attribute table, as `_decode_attr` reads it back.
abbrev pub decode_attr : Sources → Names → Coded → List Pair
decode_attr sources n [] = []
decode_attr sources n ((i, ks) ∷ coded) =
    map (λ k. (source_of sources (name_at i n.sources), name_at k n.categories)) ks
    ++ decode_attr sources n coded

abbrev pub max_ids : ℕ
max_ids = 0xffff

abbrev pub max_offset : ℕ
max_offset = 0xffffffff

abbrev pub max_derived : ℕ
max_derived = 0xff

-- len(chr(c).encode('utf-8'))
abbrev pub char_size : ℕ → ℕ
char_size c = if ltb c 0x80 then 1 else if ltb c 0x800 then 2 else if ltb c 0x10000 then 3 else 4

abbrev pub utf8_size : Text → ℕ
utf8_size [] = 0
utf8_size (c ∷ s) = char_size c + utf8_size s

abbrev pub blob_size : List (Text × ℕ) → ℕ
blob_size [] = 0
blob_size ((name, attr) ∷ rows) = utf8_size name + blob_size rows

abbrev pub derives_too_much : Sources → Text → Bool
derives_too_much sources name = ltb max_derived (length (source_of sources name).derived_from)

-- Whether one of the checks of `build` raises.
unfoldable pub refuses : Sources → Interned → Bool
unfolding source_of
refuses sources b =
    ltb max_ids (length b.names.categories)
    || ltb max_ids (length b.names.sources)
    || any (derives_too_much sources) b.names.sources
    || ltb max_offset (blob_size b.rows)

unfoldable pub file_of : Sources → Interned → File
unfolding sort_rows source_of
file_of sources b =
    let rows = sort_rows b.rows in
    record {
      names = map (λ r. r.0) rows;
      attr_index = map (λ r. r.1) rows;
      attr_table = map (decode_attr sources b.names) b.attr_table;
    }

unfoldable pub build : Sources → Entries → Option File
unfolding interned refuses file_of
build sources entries =
    let b = interned entries in if refuses sources b then none else some (file_of sources b)
