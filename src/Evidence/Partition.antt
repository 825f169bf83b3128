-- ===== src/Evidence/Partition.antt =====
-- What becomes of each claimed category, for `resolve` of src/libtb/evidence.
use turkey_bite.Prelude.{
  not_both, ne_test, ap, ◌==◌, ◌≢◌, ◌≡◌, refl, sym, ◌∙◌, inl, inr, Bool, true, false, ◌&&◌, ◌||◌,
  not, List, arith, Bool-cases, and-eq-true, nat_eq, list_eq, elem, elem-keep, keep-elem, keep,
}
use turkey_bite.Text.{Text, sorted_set}
use turkey_bite.Text.Sorting.{elem-sorted_set}
use turkey_bite.Evidence.{
  Claim, Bar, Verdict, corrections_of, cancels, is_risk, is_incidental, is_asserted,
  named_categories, claimed_of, incidental_mark, resolve,
}

-- The three lists that a category can be in, as tests.
abbrev pub asserts : Verdict → Text → Bool
asserts v c = elem c v.asserted

abbrev pub keeps_candidate : Verdict → Text → Bool
keeps_candidate v c = elem c v.candidate

abbrev pub suppresses : Verdict → Text → Bool
suppresses v c = elem c v.suppressed

-- Membership of a sorted comprehension.
in_sorted_keep :
    (p : Text → Bool) (c : Text) (xs : List Text)
    → elem c (sorted_set (keep p xs)) ≡ (p c && elem c xs)
in_sorted_keep p c xs = elem-sorted_set c (keep p xs) ∙ both
  where
    both : elem c (keep p xs) ≡ (p c && elem c xs)
    both = elim (Bool-cases (elem c (keep p xs))) [
      | inl t ↦ let (k, m) = elem-keep p c xs t in t ∙ rw (k, m)
      | inr f ↦ elim (Bool-cases (p c && elem c xs)) [
        | inl t ↦ let (k, m) = and-eq-true _ _ t in absurd (not_both (keep-elem p c xs k m) f)
        | inr g ↦ f ∙ sym g
      ]
    ]

module _ (bar : Bar) (navigation : Bool) (claims : List Claim) (c : Text) where
  pub resolve-asserted :
      asserts (resolve bar navigation claims) c
      ≡ (is_asserted bar navigation claims c && elem c (named_categories claims))
  unfolding resolve
  resolve-asserted = in_sorted_keep _ c (named_categories claims)

  pub resolve-candidate : keeps_candidate (resolve bar navigation claims) c ≡ (
      (not (is_asserted bar navigation claims c) && not (cancels (corrections_of claims) c))
      && elem c (named_categories claims))
  unfolding resolve
  resolve-candidate = in_sorted_keep _ c (named_categories claims)

  pub resolve-suppressed :
      suppresses (resolve bar navigation claims) c
      ≡ (cancels (corrections_of claims) c && elem c (named_categories claims))
  unfolding resolve
  resolve-suppressed = in_sorted_keep _ c (named_categories claims)

-- What a verdict makes of a category: it is in one of the three lists, and in no other.
pub data Standing (v : Verdict) (c : Text) : Type 0 where
  is_asserted_only :
      asserts v c ≡ true → keeps_candidate v c ≡ false → suppresses v c ≡ false → Standing v c
  is_candidate_only :
      asserts v c ≡ false → keeps_candidate v c ≡ true → suppresses v c ≡ false → Standing v c
  is_suppressed_only :
      asserts v c ≡ false → keeps_candidate v c ≡ false → suppresses v c ≡ true → Standing v c

standing :
    (v : Verdict) (c : Text) (a k : Bool)
    → (k ≡ true → a ≡ false)
    → asserts v c ≡ (a && true)
    → keeps_candidate v c ≡ ((not a && not k) && true)
    → suppresses v c ≡ (k && true)
    → Standing v c
standing v c true true w p q r = absurd (clash (w refl))
  where
    clash : true ≡ false → ⊥
    clash h = cc
standing v c true false w p q r = is_asserted_only p q r
standing v c false true w p q r = is_suppressed_only p q r
standing v c false false w p q r = is_candidate_only p q r

nowhere : (b : Bool) → (b && false) ≡ false
nowhere b = ground arith

named-Standing :
    (bar : Bar) (navigation : Bool) (claims : List Claim) (c : Text)
    → elem c (named_categories claims) ≡ true
    → Standing (resolve bar navigation claims) c
unfolding is_asserted
named-Standing bar navigation claims c h =
    standing (resolve bar navigation claims) c (is_asserted bar navigation claims c)
      (cancels (corrections_of claims) c) exclusive
      (rw h at (resolve-asserted bar navigation claims c))
      (rw h at (resolve-candidate bar navigation claims c))
      (rw h at (resolve-suppressed bar navigation claims c))
  where
    exclusive :
        cancels (corrections_of claims) c ≡ true → is_asserted bar navigation claims c ≡ false
    exclusive k = rw k (nowhere _)

-- A claimed category other than the mark for incidental hosts is, after `resolve`, in exactly one of
-- the lists of asserted, candidate and suppressed categories.
pub resolve-Standing :
    (bar : Bar) (navigation : Bool) (claims : List Claim) (c : Text)
    → elem c (claimed_of claims) ≡ true
    → c ≢ incidental_mark
    → Standing (resolve bar navigation claims) c
unfolding named_categories
resolve-Standing bar navigation claims c claimed unmarked = named-Standing bar navigation claims c (
    keep-elem (λ t. not (t == incidental_mark)) c (claimed_of claims)
      (ap not (ne_test c incidental_mark unmarked)) claimed)

-- A category that no claim names, or that is the mark for incidental hosts, is in none of the
-- three lists of `resolve`.
pub resolve_unclaimed :
    (bar : Bar) (navigation : Bool) (claims : List Claim) (c : Text)
    → elem c (named_categories claims) ≡ false
    → (asserts (resolve bar navigation claims) c ≡ false)
      × (keeps_candidate (resolve bar navigation claims) c ≡ false)
      × (suppresses (resolve bar navigation claims) c ≡ false)
resolve_unclaimed bar navigation claims c h = (
  resolve-asserted bar navigation claims c ∙ rw h (nowhere _),
  resolve-candidate bar navigation claims c ∙ rw h (nowhere _),
  resolve-suppressed bar navigation claims c ∙ rw h (nowhere _),
)

-- When `resolve` takes a host as incidental, a category that it asserts is of risk only.
pub resolve_incidental :
    (bar : Bar) (navigation : Bool) (claims : List Claim) (c : Text)
    → (resolve bar navigation claims).incidental ≡ true
    → asserts (resolve bar navigation claims) c ≡ true
    → is_risk c ≡ true
unfolding resolve is_asserted
resolve_incidental bar navigation claims c h a =
    let (t, _) = and-eq-true _ _ (sym (resolve-asserted bar navigation claims c) ∙ a) in
    let (u, _) = and-eq-true _ _ t in
    let (_, w) = and-eq-true _ _ u in
    risk_left (is_incidental bar navigation claims) (is_risk c) h w
  where
    risk_left : (i r : Bool) → i ≡ true → (not i || r) ≡ true → r ≡ true
    risk_left i r e k = ground arith
