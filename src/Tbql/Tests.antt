-- ===== src/Tbql/Tests.antt =====
-- Queries parsed and compiled, and the theorems on them at concrete queries.
use turkey_bite.Prelude.{◌≡◌, refl, Bool, true, false, some, [], ◌∷◌, ◌==◌, nat_eq, list_eq}
use turkey_bite.Text.{Text, text, lower}
use turkey_bite.Tbql.{ok, failed, bad_range, tok, term}
use turkey_bite.Tbql.Parser.{Node, leaf, parse}
use turkey_bite.Tbql.Limits.{IsBounded, parse-IsBounded}
use turkey_bite.Tbql.Fields.{Field, keyword, resolve}
use turkey_bite.Tbql.Fields.Known.{InCatalogue}
use turkey_bite.Tbql.Naming.{Names}
use turkey_bite.Tbql.Catalogue.{compile_query-Names}
use turkey_bite.Tbql.Audit.{Told, names_someone-Told}
use turkey_bite.Tbql.Dsl.{
  Dsl, matches, exists, must_not, filter, dsl, no_dsls, term_dsl, compile_query, names_someone,
}
use turkey_bite.Tbql.Quoting.{term_for}
use turkey_bite.Tbql.Quoting.Exact.{compile_query-term_for}

-- An address by its dots, and no time at all.
abbrev dotted : Text → Bool
dotted v = v == text "10.0.0.1"

abbrev no_time : Text → Bool
no_time v = false

abbrev two_terms : Text
two_terms = text "user:ann -site:example.org"

abbrev two_dsl : Dsl
two_dsl = filter (
    dsl (matches (text "bite.client_user") (text "ann"))
      (dsl (must_not (matches (text "bite.registrable_domain") (text "example.org"))) no_dsls))

two_terms-compile : compile_query dotted no_time two_terms ≡ ok two_dsl
unfolding compile_query term_dsl
two_terms-compile = refl

-- A quoted * asks for presence on a field of addresses.
quoted_star_of_address :
    compile_query dotted no_time (term_for (text "client") (text "*"))
    ≡ ok (exists (text "bite.client"))
unfolding compile_query term_for term_dsl
quoted_star_of_address = refl

-- Asking for the presence of an identity field goes untold.
presence_untold : names_someone (text "has:user") ≡ false
unfolding names_someone resolve
presence_untold = refl

-- The position of a mistake in a group's text counts from the group's text.
mistake_in_group : parse (text "domain:(a:[1 2])") ≡ failed bad_range 2 5
unfolding parse
mistake_in_group = refl

abbrev one_leaf : Node
one_leaf = leaf (record (tok term 0 8) { field = some (text "user"); value = text "ann" })

parse-IsBounded_example : IsBounded one_leaf
unfolding parse
parse-IsBounded_example = parse-IsBounded (text "user:ann") one_leaf refl

compile_query-Names_example : Names InCatalogue InCatalogue two_dsl
compile_query-Names_example = compile_query-Names dotted no_time two_terms two_dsl two_terms-compile

names_someone-Told_example : Names (λ f. Unit) (Told (names_someone two_terms)) two_dsl
names_someone-Told_example = names_someone-Told dotted no_time two_terms two_dsl two_terms-compile

abbrev user_field : Field
user_field = record {
  name = text "bite.client_user";
  type = keyword;
  aliases = text "user" ∷ text "username" ∷ [];
  hierarchical = false;
  identity = true;
}

user-known : resolve (text "user") ≡ some user_field
unfolding resolve
user-known = refl

compile_query-term_for_example :
    compile_query dotted no_time (term_for (text "user") (text "a*\"?"))
    ≡ ok (matches (text "bite.client_user") (text "a*\"?"))
unfolding lower
compile_query-term_for_example =
    compile_query-term_for dotted no_time (text "user") (text "a*\"?") user_field refl refl refl
      user-known refl refl
