-- ===== src/Evidence/Enabled.antt =====
-- What `resolve` makes of the claims that `claims_for` of src/libtb/evidence keeps, of which
-- `drop_disabled` has taken those of disabled categories.
use turkey_bite.Prelude.{
  or_false, ne_test, not_both, drop, ◌&&◌, ◌≡◌, refl, sym, ap, ◌∙◌, inl, inr, Bool, true, false,
  ◌||◌, not, List, [], ◌∷◌, arith, Bool-cases, ◌==◌, nat_eq, list_eq, list_beq_iff, elem, elem-keep,
  keep,
}
use turkey_bite.Text.{Text, strip, lower, starts_with}
use turkey_bite.Text.Sorting.{elem-sorted_set}
use turkey_bite.Taxonomy.{taxonomy}
use turkey_bite.Evidence.Partition.{asserts, keeps_candidate, suppresses, resolve_unclaimed}
use turkey_bite.Evidence.{
  Claim, Bar, Verdict, negation, corrections_of, resolve, is_negated, claimed_of, named_categories,
  disabled_spellings, is_disabled, enabled_claims, without_negation,
}

not_claimed :
    (drops : Text → Bool) (c : Text) (claims : List Claim)
    → drops c ≡ true
    → elem c (claimed_of (keep (λ x. not (drops x.category)) claims)) ≡ false
unfolding claimed_of
not_claimed drops c [] h = refl
not_claimed drops c (x ∷ xs) h = elim (Bool-cases (drops x.category)) [
  | inl d ↦ rw d (not_claimed drops c xs h)
  | inr k ↦ rw k (elim (Bool-cases (is_negated x)) [
    | inl n ↦ rw n (not_claimed drops c xs h)
    | inr m ↦ rw m (both_false _ _ (differ k) (not_claimed drops c xs h))
  ])
]
  where
    both_false : (a b : Bool) → a ≡ false → b ≡ false → (a || b) ≡ false
    both_false a b u v = ground arith

    clash : (b : Bool) → b ≡ true → b ≡ false → ⊥
    clash b u v = cc

    differ : drops x.category ≡ false → (c == x.category) ≡ false
    differ k = elim (Bool-cases (c == x.category)) [
      | inl e ↦ absurd (clash (drops c) h (ap drops ((list_beq_iff c x.category).0 e) ∙ k))
      | inr f ↦ f
    ]

not_named :
    (c : Text) (claims : List Claim)
    → elem c (claimed_of claims) ≡ false
    → elem c (named_categories claims) ≡ false
unfolding named_categories
not_named c claims h = elim (Bool-cases (elem c (named_categories claims))) [
  | inl t ↦ let (_, m) = elem-keep _ c (claimed_of claims) t in absurd (clash _ m h)
  | inr f ↦ f
]
  where
    clash : (b : Bool) → b ≡ true → b ≡ false → ⊥
    clash b u v = cc

neither : (b : Bool) → (b && false) ≡ false
neither b = ground arith

unmarked : (c : Text) → starts_with negation c ≡ false → without_negation c ≡ c
unmarked c h = rw h refl

not_corrected :
    (drops : Text → Bool) (c : Text) (claims : List Claim)
    → ((t : Text) → without_negation t ≡ c → drops t ≡ true)
    → elem c (corrections_of (keep (λ x. not (drops x.category)) claims)) ≡ false
unfolding corrections_of
not_corrected drops c [] h = refl
not_corrected drops c (x ∷ xs) h = elim (Bool-cases (drops x.category)) [
  | inl d ↦ rw d (not_corrected drops c xs h)
  | inr k ↦ rw k (elim (Bool-cases (is_negated x)) [
    | inl n ↦ rw n (or_false _ _ (differ k n) (not_corrected drops c xs h))
    | inr m ↦ rw m (not_corrected drops c xs h)
  ])
]
  where
    differ : drops x.category ≡ false → is_negated x ≡ true → (c == drop 1 x.category) ≡ false
    differ k n = ne_test c (drop 1 x.category) λ e.
        let bare : without_negation x.category ≡ c = rw n (sym e) in not_both (h x.category bare) k

abbrev pub corrects : Verdict → Text → Bool
corrects v c = elem c v.corrected

-- A disabled category is in none of the lists of asserted, candidate and suppressed categories that
-- `resolve` makes of the claims that `claims_for` keeps, and in its list of corrected ones only if
-- its spelling starts with the mark of a correction.
pub resolve-enabled_claims :
    (bar : Bar) (navigation : Bool) (disabled : List Text) (claims : List Claim) (c : Text)
    → is_disabled c disabled ≡ true
    → (asserts (resolve bar navigation (enabled_claims disabled claims)) c ≡ false)
      × (keeps_candidate (resolve bar navigation (enabled_claims disabled claims)) c ≡ false)
      × (suppresses (resolve bar navigation (enabled_claims disabled claims)) c ≡ false)
      × ((corrects (resolve bar navigation (enabled_claims disabled claims)) c
            && not (starts_with negation c))
          ≡ false)
unfolding enabled_claims is_disabled resolve
resolve-enabled_claims bar navigation disabled claims c h =
    let (a, k, u) =
      resolve_unclaimed bar navigation (enabled_claims disabled claims) c
        (not_named c (enabled_claims disabled claims) (gone disabled h)) in
    (
      a,
      k,
      u,
      elim (Bool-cases (starts_with negation c)) [
        | inl t ↦ rw t (neither _)
        | inr f ↦ rw (elem-sorted_set, uncorrected disabled h f) refl
      ],
    )
  where
    gone :
        (ds : List Text)
        → is_disabled c ds ≡ true
        → elem c (claimed_of (enabled_claims ds claims)) ≡ false
    gone [] k = absurd (let z : ⊥ = cc in z)
    gone (d ∷ ds) k = not_claimed (λ t. is_disabled t (d ∷ ds)) c claims k

    same_spelling :
        (d : Text) (ds : List Text) (t : Text)
        → without_negation t ≡ without_negation c
        → is_disabled t (d ∷ ds) ≡ is_disabled c (d ∷ ds)
    same_spelling d ds t e =
        ap (λ (x : Text). elem (lower (strip x)) (disabled_spellings (d ∷ ds) taxonomy)) e

    uncorrected :
        (ds : List Text)
        → is_disabled c ds ≡ true
        → starts_with negation c ≡ false
        → elem c (corrections_of (enabled_claims ds claims)) ≡ false
    uncorrected [] k f = absurd (let z : ⊥ = cc in z)
    uncorrected (d ∷ ds) k f =
        not_corrected (λ t. is_disabled t (d ∷ ds)) c claims
          (λ t e. same_spelling d ds t (e ∙ sym (unmarked c f)) ∙ k)
