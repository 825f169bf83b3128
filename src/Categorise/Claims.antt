-- ===== src/Categorise/Claims.antt =====
-- What stands behind a category that `categorise` of src/libtb/evidence asserts.
use turkey_bite.Prelude.{
  ◌≡◌, refl, Bool, true, false, not, Option, none, List, [], ◌∷◌, nat_eq, list_eq, elem,
  not-eq-true_iff,
}
use turkey_bite.Prelude.Members.{In, In-keep}
use turkey_bite.Text.{Text}
use turkey_bite.Taxonomy.{Statement, statement_eq}
use turkey_bite.Psl.{Rules}
use turkey_bite.Evidence.{Bar, Claim, is_disabled, enabled_claims, statements}
use turkey_bite.Evidence.Partition.{asserts}
use turkey_bite.Evidence.Support.{Believed, resolve-Believed}
use turkey_bite.Index.{File, Memo, is_empty}
use turkey_bite.Index.Memo.{IsGood}
use turkey_bite.Index.Matching.{Applies, match_host-Applies}
use turkey_bite.Categorise.{ownership_boundary, host_claims, second_opinion, categorise}

enabled_In :
    (disabled : List Text) (claims : List Claim) (c : Claim)
    → In c (enabled_claims disabled claims)
    → In c claims × (is_disabled c.category disabled ≡ false)
unfolding enabled_claims is_disabled
enabled_In [] claims c m = (m, refl)
enabled_In (d ∷ ds) claims c m =
    let (n, k) = In-keep (λ x. not (is_disabled x.category (d ∷ ds))) c claims m in
    (n, (not-eq-true_iff _).0 k)

-- When no resolver is asked, for a host that is not empty and with a good memo of the index: each
-- claim that `categorise` returns is one that the index has for the host, with the host's
-- registrable domain as the boundary, and is of no disabled category; and each statement of a
-- category that it asserts is believed on those claims.
pub categorise-Believed :
    (rules : Option Rules) (file : File) (bar : Bar) (disabled : List Text) (navigation : Bool)
    (host : Text) (memo : Memo)
    → is_empty host ≡ false
    → IsGood file memo
    → ((c : Claim)
        → In c (categorise rules file bar disabled navigation none host memo).0.claims
        → Applies file host (ownership_boundary rules host) c
          × (is_disabled c.category disabled ≡ false))
      × ((category : Text) (s : Statement)
          → asserts
              (categorise rules file bar disabled navigation none host memo).0.verdict
              category
            ≡ true
          → elem s (statements category) ≡ true
          → Believed bar (categorise rules file bar disabled navigation none host memo).0.claims s)
unfolding categorise host_claims second_opinion
categorise-Believed rules file bar disabled navigation host memo h g = (
  (λ c m.
      let (n, d) = enabled_In disabled _ c m in
      ((match_host-Applies file host (ownership_boundary rules host) memo c h g).0 n, d)),
  (λ category s a m. resolve-Believed bar navigation _ category s a m),
)
