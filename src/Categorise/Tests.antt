-- ===== src/Categorise/Tests.antt =====
-- A host's way through the parts, and the theorem at it.
use turkey_bite.Prelude.{◌≡◌, refl, true, false, none, [], ◌∷◌, nat_eq, list_eq, elem, arith}
use turkey_bite.Prelude.Members.{In}
use turkey_bite.Text.{Text, text}
use turkey_bite.Taxonomy.{Statement, statement_eq}
use turkey_bite.Evidence.{high, Source, Claim, Bar, is_disabled, statements}
use turkey_bite.Evidence.Partition.{asserts}
use turkey_bite.Evidence.Support.{Believed}
use turkey_bite.Index.{File, claims_for}
use turkey_bite.Index.Memo.{IsGood}
use turkey_bite.Index.Matching.{Applies}
use turkey_bite.Categorise.{ownership_boundary, categorise}
use turkey_bite.Categorise.Claims.{categorise-Believed}

abbrev vetted : Source
vetted = record {
  name = text "v";
  publisher = text "vet";
  trust = high;
  is_local = false;
  derived_from = [];
}

abbrev one_name : File
one_name = record {
  names = text "com.acme.*" ∷ [];
  attr_index = 0 ∷ [];
  attr_table = ((vetted, text "news") ∷ []) ∷ [];
}

abbrev site : Text
site = text "www.acme.com"

abbrev bar : Bar
bar = record { default = 2; named = [] }

no_memo-IsGood : IsGood one_name []
no_memo-IsGood = record { coherent = tt; small = omega arith }

categorise-Believed_example :
    ((c : Claim)
      → In c (categorise none one_name bar [] false none site []).0.claims
      → Applies one_name site (ownership_boundary none site) c
        × (is_disabled c.category [] ≡ false))
    × ((category : Text) (s : Statement)
        → asserts (categorise none one_name bar [] false none site []).0.verdict category ≡ true
        → elem s (statements category) ≡ true
        → Believed bar (categorise none one_name bar [] false none site []).0.claims s)
categorise-Believed_example =
    categorise-Believed none one_name bar [] false site [] refl no_memo-IsGood

news_asserted :
    asserts (categorise none one_name bar [] false none site []).0.verdict (text "news") ≡ true
unfolding categorise statements claims_for
news_asserted = refl
