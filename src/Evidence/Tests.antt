-- ===== src/Evidence/Tests.antt =====
-- Runs of the evidence rules on small lists of claims, and the theorems at them.
use turkey_bite.Prelude.{
  not, ◌&&◌, ◌≡◌, refl, true, false, none, some, List, [], ◌∷◌, length, elem, arith, nat_eq,
  list_eq,
}
use turkey_bite.Text.{Text, text, strip, lower, starts_with}
use turkey_bite.Taxonomy.{Statement, statement_eq, purpose, taxonomy}
use turkey_bite.Evidence.{
  Trust, medium, high, Source, Claim, Bar, resolve, statements, dependent, corroborated, claimed_of,
  is_disabled, enabled_claims, without_negation, negation,
}
use turkey_bite.Evidence.Corroboration.{Among, AllSeparate, corroborated_iff}
use turkey_bite.Evidence.Partition.{
  asserts, keeps_candidate, suppresses, Standing, resolve-Standing,
}
use turkey_bite.Evidence.Support.{Believed, resolve-Believed}
use turkey_bite.Evidence.Disabled.{HasDisabledRow, is_disabled-HasDisabledRow}
use turkey_bite.Evidence.Enabled.{corrects, resolve-enabled_claims}

abbrev source_of : Text → Text → Trust → List Text → Source
source_of name publisher trust copied = record {
  name = name;
  publisher = publisher;
  trust = trust;
  is_local = false;
  derived_from = copied;
}

abbrev first_source : Source
first_source = source_of (text "a") (text "acme") medium []

abbrev copying_source : Source
copying_source = source_of (text "b") (text "beta") medium (text "acme" ∷ [])

abbrev third_source : Source
third_source = source_of (text "c") (text "gamma") medium []

abbrev claim_of : Source → Text → Claim
claim_of source category = record { key = none; source = source; category = category }

abbrev two_publishers : Bar
two_publishers = record { default = 2; named = [] }

abbrev three_claims : List Claim
three_claims =
    claim_of first_source (text "news")
    ∷ claim_of third_source (text "news")
    ∷ claim_of copying_source (text "porn")
    ∷ claim_of first_source (text "!porn")
    ∷ claim_of first_source (text "malware")
    ∷ []

three_sources_corroborate :
    corroborated (first_source ∷ copying_source ∷ third_source ∷ []) 2 ≡ true
unfolding corroborated dependent
three_sources_corroborate = refl

copies_do_not : corroborated (first_source ∷ copying_source ∷ []) 2 ≡ false
unfolding corroborated dependent
copies_do_not = refl

abbrev SeparatePair : List Source → Type 0
SeparatePair sources =
    (group : List Source) × Among group sources × (length group ≡ 2) × AllSeparate group

corroborated_iff_example : SeparatePair (first_source ∷ copying_source ∷ third_source ∷ [])
corroborated_iff_example =
    (corroborated_iff (first_source ∷ copying_source ∷ third_source ∷ []) 2 (omega arith)).0
      three_sources_corroborate

news_asserted : asserts (resolve two_publishers false three_claims) (text "news") ≡ true
unfolding resolve statements dependent
news_asserted = refl

porn_suppressed : suppresses (resolve two_publishers false three_claims) (text "porn") ≡ true
unfolding resolve statements dependent
porn_suppressed = refl

malware_candidate :
    keeps_candidate (resolve two_publishers false three_claims) (text "malware") ≡ true
unfolding resolve statements dependent
malware_candidate = refl

porn_claimed : elem (text "porn") (claimed_of three_claims) ≡ true
unfolding claimed_of
porn_claimed = refl

resolve-Standing_example : Standing (resolve two_publishers false three_claims) (text "porn")
resolve-Standing_example =
    resolve-Standing two_publishers false three_claims (text "porn") porn_claimed (λ e. cc)

abbrev news_statement : Statement
news_statement = record { facet = some purpose; path = text "information.news" }

news_stated : elem news_statement (statements (text "news")) ≡ true
unfolding statements
news_stated = refl

resolve-Believed_example : Believed two_publishers three_claims news_statement
resolve-Believed_example =
    resolve-Believed two_publishers false three_claims (text "news") news_statement news_asserted
      news_stated

abbrev trusted_source : Source
trusted_source = source_of (text "own") (text "own") high []

abbrev incidental_claims : List Claim
incidental_claims =
    claim_of trusted_source (text "incidental")
    ∷ claim_of trusted_source (text "malware")
    ∷ claim_of trusted_source (text "news")
    ∷ []

host_incidental : (resolve two_publishers false incidental_claims).incidental ≡ true
unfolding resolve statements
host_incidental = refl

malware_asserted : asserts (resolve two_publishers false incidental_claims) (text "malware") ≡ true
unfolding resolve statements
malware_asserted = refl

abbrev editorial : List Text
editorial = text "editorial" ∷ []

fascist_disabled : is_disabled (text " Fascist") editorial ≡ true
unfolding is_disabled
fascist_disabled = refl

is_disabled-HasDisabledRow_example :
    HasDisabledRow (lower (strip (without_negation (text " Fascist")))) editorial taxonomy
is_disabled-HasDisabledRow_example =
    (is_disabled-HasDisabledRow (text " Fascist") editorial).0 fascist_disabled

abbrev editorial_claims : List Claim
editorial_claims =
    claim_of trusted_source (text " Fascist") ∷ claim_of trusted_source (text "news") ∷ []

resolve-enabled_claims_example :
    (asserts
        (resolve two_publishers false (enabled_claims editorial editorial_claims))
        (text " Fascist")
      ≡ false)
    × (keeps_candidate
          (resolve two_publishers false (enabled_claims editorial editorial_claims))
          (text " Fascist")
        ≡ false)
    × (suppresses
          (resolve two_publishers false (enabled_claims editorial editorial_claims))
          (text " Fascist")
        ≡ false)
    × ((corrects
            (resolve two_publishers false (enabled_claims editorial editorial_claims))
            (text " Fascist")
          && not (starts_with negation (text " Fascist")))
        ≡ false)
resolve-enabled_claims_example =
    resolve-enabled_claims two_publishers false editorial editorial_claims (text " Fascist")
      fascist_disabled

-- The mark of a correction twice keeps a correction of what is switched off.
marked_twice :
    (resolve two_publishers false
      (enabled_claims editorial (claim_of trusted_source (text "!!fascist") ∷ []))).corrected
    ≡ text "!fascist" ∷ []
unfolding resolve enabled_claims
marked_twice = refl
