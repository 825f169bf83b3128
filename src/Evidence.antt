-- ===== src/Evidence.antt =====
-- src/libtb/evidence/__init__.py: which of the categories the lists claim an event should assert.
-- A Python set or dictionary that a loop over the claims fills is the comprehension over the
-- claims that it comes to. A source that makes two claims stands twice among the backers, where
-- Python's set has it once: it is not independent of itself, so the repeat changes nothing.
pub mod Corroboration
pub mod Support
pub mod Partition
mod Branches
pub mod Disabled
pub mod Enabled
mod Tests
use turkey_bite.Prelude.{
  ℕ, zero, suc, Bool, true, false, ◌&&◌, ◌||◌, not, Option, none, some, List, [], ◌∷◌, ◌++◌, map,
  drop, leb, if◌then◌else◌, ◌==◌, nat_eq, list_eq, elem, any, all, keep,
}
use turkey_bite.Text.{Text, text, strip, lower, starts_with, split, join, sorted_set}
use turkey_bite.Taxonomy.{Facet, risk, Statement, statement_eq, Rows, taxonomy}

pub data Trust : Type 0 where
  low medium high : Trust

-- `Source` of src/libtb/index.
pub record Source : Type 0 where
  pub name : Text
  pub publisher : Text
  pub trust : Trust
  pub is_local : Bool
  pub derived_from : List Text

-- A (key, source, category) claim, as the index and the resolvers make them.
pub record Claim : Type 0 where
  pub key : Option Text
  pub source : Source
  pub category : Text

abbrev pub negation : Text
negation = text "!"

abbrev pub incidental_mark : Text
incidental_mark = text "incidental"

-- ['.'.join(labels[:i]) for i in range(len(labels), 0, -1)]
abbrev firsts : List Text → List (List Text)
firsts [] = []
firsts (l ∷ ls) = map (λ p. l ∷ p) (firsts ls) ++ (l ∷ []) ∷ []

unfoldable pub prefixes : Text → List Text
unfolding split join
prefixes path = map (λ ls. join b'.' ls) (firsts (split b'.' path))

-- A checked `min_publishers`: the default, and the counts of branches and paths.
pub record Bar : Type 0 where
  pub default : ℕ
  pub named : List (Text × ℕ)

abbrev pub lookup_count : Text → List (Text × ℕ) → Option ℕ
lookup_count key [] = none
lookup_count key ((k, n) ∷ rest) =
    let later = lookup_count key rest in if k == key then some n else later

-- The most specific key wins.
abbrev first_count : List Text → Bar → ℕ
first_count [] bar = bar.default
first_count (p ∷ ps) bar =
    let later = first_count ps bar in elim (lookup_count p bar.named) [ none ↦ later | some n ↦ n ]

abbrev needed_of : Option Facet → Text → Bar → ℕ
needed_of none path bar = bar.default
needed_of (some f) path bar = first_count (prefixes path) bar

unfoldable pub needed : Statement → Bar → ℕ
unfolding prefixes
needed s bar = needed_of s.facet s.path bar

abbrev pub rows_of : Text → Rows → List Statement
rows_of key [] = []
rows_of key ((k, r) ∷ rest) = let later = rows_of key rest in if k == key then r else later

-- TAXONOMY.get(key) or ((None, key),)
abbrev or_itself : Text → List Statement → List Statement
or_itself key [] = record { facet = none; path = key } ∷ []
or_itself key (s ∷ ss) = s ∷ ss

unfoldable pub statements : Text → List Statement
unfolding strip lower taxonomy
statements category = or_itself (lower (strip category)) (rows_of (lower (strip category)) taxonomy)

unfoldable pub dependent : Source → Source → Bool
dependent a b =
    a.publisher == b.publisher || elem a.publisher b.derived_from || elem b.publisher a.derived_from

-- itertools.combinations
unfoldable pub combinations : List Source → ℕ → List (List Source)
combinations sources zero = [] ∷ []
combinations [] (suc n) = []
combinations (a ∷ rest) (suc n) =
    map (λ group. a ∷ group) (combinations rest n) ++ combinations rest (suc n)

-- all(not dependent(a, b) for a, b in combinations(group, 2))
unfoldable pub pairwise_independent : List Source → Bool
pairwise_independent [] = true
pairwise_independent (a ∷ rest) = all (λ b. not (dependent a b)) rest && pairwise_independent rest

abbrev pub is_some_source : List Source → Bool
is_some_source [] = false
is_some_source (a ∷ rest) = true

unfoldable pub corroborated : List Source → ℕ → Bool
unfolding combinations pairwise_independent
corroborated sources n =
    if leb n 1 then is_some_source sources else any pairwise_independent (combinations sources n)

abbrev pub is_risk_facet : Option Facet → Bool
is_risk_facet (some risk) = true
is_risk_facet _ = false

unfoldable pub is_risk : Text → Bool
is_risk category = all (λ s. is_risk_facet s.facet) (statements category)

unfoldable pub demote_incidental : List Text → List Text × List Text
unfolding is_risk
demote_incidental categories = (keep is_risk categories, keep (λ c. not (is_risk c)) categories)

-- set(statements(corrected)) <= set(statements(category)), for one of the corrections
unfoldable pub cancels : List Text → Text → Bool
cancels corrections category =
    any (λ corrected. all (λ s. elem s (statements category)) (statements corrected)) corrections

abbrev pub is_negated : Claim → Bool
is_negated c = starts_with negation c.category

abbrev pub is_high : Trust → Bool
is_high high = true
is_high _ = false

abbrev pub is_medium : Trust → Bool
is_medium medium = true
is_medium _ = false

unfoldable pub corrections_of : List Claim → List Text
corrections_of claims = map (λ c. drop 1 c.category) (keep is_negated claims)

unfoldable pub claimed_of : List Claim → List Text
claimed_of claims = map (λ c. c.category) (keep (λ c. not (is_negated c)) claims)

-- The claims that the loop of `resolve` weighs: no correction, and not corrected.
unfoldable pub counted : List Claim → List Claim
unfolding corrections_of
counted claims =
    keep (λ c. not (is_negated c) && not (cancels (corrections_of claims) c.category)) claims

-- statement in trusted
unfoldable pub trusted : List Claim → Statement → Bool
trusted weighed s = any (λ c. is_high c.source.trust && elem s (statements c.category)) weighed

-- backers.get(statement, ())
unfoldable pub backers : List Claim → Statement → List Source
backers weighed s =
    map (λ c. c.source)
      (keep (λ c. is_medium c.source.trust && elem s (statements c.category)) weighed)

-- supported.get(statement)
unfoldable pub supported : Bar → List Claim → Statement → Bool
unfolding trusted backers corroborated needed
supported bar weighed s = trusted weighed s || corroborated (backers weighed s) (needed s bar)

-- all(supported.get(statement) for statement in statements(c))
unfoldable pub evident : Bar → List Claim → Text → Bool
unfolding supported counted
evident bar claims c = all (λ s. supported bar (counted claims) s) (statements c)

pub record Verdict : Type 0 where
  pub asserted : List Text
  pub candidate : List Text
  pub suppressed : List Text
  pub corrected : List Text
  pub incidental : Bool

-- INCIDENTAL in asserted and not navigation
unfoldable pub is_incidental : Bar → Bool → List Claim → Bool
unfolding evident claimed_of
is_incidental bar navigation claims =
    elem incidental_mark (claimed_of claims) && evident bar claims incidental_mark && not navigation

-- Whether a claimed category is in `asserted` at the end.
unfoldable pub is_asserted : Bar → Bool → List Claim → Text → Bool
unfolding is_incidental is_risk cancels
is_asserted bar navigation claims c =
    evident bar claims c
    && (not (is_incidental bar navigation claims) || is_risk c)
    && not (cancels (corrections_of claims) c)

-- The claimed categories without the mark.
unfoldable pub named_categories : List Claim → List Text
unfolding claimed_of
named_categories claims = keep (λ c. not (c == incidental_mark)) (claimed_of claims)

unfoldable pub resolve : Bar → Bool → List Claim → Verdict
unfolding is_asserted named_categories sorted_set
resolve bar navigation claims =
    let cancelled = λ (c : Text). cancels (corrections_of claims) c in
    let found = named_categories claims in
    record {
      asserted = sorted_set (keep (is_asserted bar navigation claims) found);
      candidate =
          sorted_set
            (keep (λ c. not (is_asserted bar navigation claims c) && not (cancelled c)) found);
      suppressed = sorted_set (keep cancelled found);
      corrected = sorted_set (corrections_of claims);
      incidental = is_incidental bar navigation claims;
    }

-- sorted({f'{category}:{source.name}' ...})
unfoldable pub describe : List Claim → List Text
unfolding sorted_set
describe claims = sorted_set (map (λ c. c.category ++ (text ":" ++ c.source.name)) claims)

unfoldable pub sources_of : List Claim → List Text
unfolding sorted_set
sources_of claims = sorted_set (map (λ c. c.source.name) claims)

abbrev add_key : Option Text → List Text → List Text
add_key none keys = keys
add_key (some key) keys = if elem key keys then keys else keys ++ key ∷ []

abbrev matched_from : List Text → List Claim → List Text
matched_from keys [] = keys
matched_from keys (c ∷ claims) = matched_from (add_key c.key keys) claims

unfoldable pub matched_keys : List Claim → List Text
matched_keys claims = matched_from [] claims

abbrev pub without_negation : Text → Text
without_negation category = if starts_with negation category then drop 1 category else category

abbrev has_facet : Option Facet → Bool
has_facet none = false
has_facet (some f) = true

-- Every category spelling that the disabled prefixes switch off.
abbrev pub switched_off : List Text → List Statement → Bool
switched_off disabled rows =
    any (λ s. has_facet s.facet && any (λ p. elem p disabled) (prefixes s.path)) rows

unfoldable pub disabled_spellings : List Text → Rows → List Text
unfolding prefixes
disabled_spellings disabled [] = []
disabled_spellings disabled ((category, rows) ∷ rest) =
    let others = disabled_spellings disabled rest in
    if switched_off disabled rows then category ∷ others else others

abbrev pub is_empty : List Text → Bool
is_empty [] = true
is_empty (d ∷ ds) = false

unfoldable pub is_disabled : Text → List Text → Bool
unfolding disabled_spellings strip lower taxonomy
is_disabled category disabled =
    if is_empty disabled
    then false
    else elem (lower (strip (without_negation category))) (disabled_spellings disabled taxonomy)

unfoldable pub drop_disabled : List Text → List Text → List Text
unfolding is_disabled
drop_disabled categories disabled = keep (λ c. not (is_disabled c disabled)) categories

-- What `claims_for` keeps of the claims that the index matched.
unfoldable pub enabled_claims : List Text → List Claim → List Claim
unfolding is_disabled
enabled_claims disabled claims =
    if is_empty disabled then claims else keep (λ c. not (is_disabled c.category disabled)) claims
