-- ===== src/Categorise.antt =====
-- The path of one host through the parts, of src/libtb/evidence/__init__.py: its claims, with the
-- registrable domain as the boundary, the verdict on them, and the resolvers' second opinion. The
-- resolvers are a service: `Checker` is what `corroborate` of a checker answers.
pub mod Claims
mod Tests
use turkey_bite.Prelude.{ℕ, Bool, true, false, Option, none, some, List, [], ◌∷◌}
use turkey_bite.Text.{Text}
use turkey_bite.Json.{Json, str}
use turkey_bite.Psl.{Rules, registrable_domain}
use turkey_bite.Evidence.{Bar, Claim, Verdict, enabled_claims, resolve}
use turkey_bite.Index.{File, Memo, match_host}

-- What each resolver said.
abbrev pub Statuses : Type 0
Statuses = List (Text × Text)

abbrev pub Checker : Type 0
Checker = Text → List Claim → Verdict → Bar → List Claim × Verdict × Statuses

-- The claims, and the verdict with its `resolvers`; an empty list is a key that is not there.
pub record Opinion : Type 0 where
  pub claims : List Claim
  pub verdict : Verdict
  pub resolvers : Statuses

-- registrable or host
abbrev or_host : Option Text → Text → Option Text
or_host none host = some host
or_host (some []) host = some host
or_host (some (c ∷ t)) host = some (c ∷ t)

unfoldable pub ownership_boundary : Option Rules → Text → Option Text
unfolding registrable_domain
ownership_boundary rules host = or_host (registrable_domain rules (str host)) host

unfoldable pub host_claims : Option Rules → File → List Text → Text → Memo → List Claim × Memo
unfolding ownership_boundary match_host enabled_claims
host_claims rules file disabled host memo =
    let (claims, memo') = match_host file host (ownership_boundary rules host) memo in
    (enabled_claims disabled claims, memo')

abbrev asked : List Claim × Verdict × Statuses → Opinion
asked (claims, verdict, statuses) = record {
  claims = claims;
  verdict = verdict;
  resolvers = statuses;
}

unfoldable pub second_opinion : Text → List Claim → Verdict → Bar → Option Checker → Bool → Opinion
second_opinion host claims verdict bar none navigation = record {
  claims = claims;
  verdict = verdict;
  resolvers = [];
}
second_opinion host claims verdict bar (some checker) true = record {
  claims = claims;
  verdict = verdict;
  resolvers = [];
}
second_opinion host claims verdict bar (some checker) false =
    asked (checker host claims verdict bar)

unfoldable pub categorise :
    Option Rules → File → Bar → List Text → Bool → Option Checker → Text → Memo → Opinion × Memo
unfolding host_claims second_opinion resolve
categorise rules file bar disabled navigation checker host memo =
    let (claims, memo') = host_claims rules file disabled host memo in
    (second_opinion host claims (resolve bar navigation claims) bar checker navigation, memo')
