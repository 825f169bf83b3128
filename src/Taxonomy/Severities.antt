-- ===== src/Taxonomy/Severities.antt =====
-- The severity that `classify` of src/libtb/taxonomy answers.
use turkey_bite.Prelude.{
  ℕ, ◌≤◌, ◌≡◌, sym, ◌∙◌, inl, inr, Bool, true, false, some, List, [], ◌∷◌, arith, Bool-cases,
  or-eq-true, or-eq-false, any, ◌==◌, nat_eq, list_eq, list_beq_iff, elem,
}
use turkey_bite.Text.{Text}
use turkey_bite.Text.Sorting.{elem-sorted_set}
use turkey_bite.Json.{Json}
use turkey_bite.Taxonomy.{
  risk, Severity, slight, moderate, severe, severity_of, has_level, worst, bucket, class_keys,
  classify,
}

abbrev pub level : Severity → ℕ
level slight = 1
level moderate = 2
level severe = 3

nobody :
    (p : Text → Bool) (path : Text) (paths : List Text)
    → any p paths ≡ false
    → elem path paths ≡ true
    → p path ≡ false
nobody p path [] h m = absurd (let z : ⊥ = cc in z)
nobody p path (x ∷ xs) h m =
    let (k, l) = or-eq-false (p x) _ h in
    elim (or-eq-true (path == x) (elem path xs) m) [
      | inl e ↦ rw ((list_beq_iff path x).0 e) k
      | inr n ↦ nobody p path xs l n
    ]

missed :
    (paths : List Text) (path : Text) (s t : Severity)
    → elem path paths ≡ true
    → severity_of path ≡ some s
    → any (λ p. has_level t (severity_of p)) paths ≡ false
    → has_level t (some s) ≡ false
missed paths path s t m e h = rw e at (nobody (λ p. has_level t (severity_of p)) path paths h m)

clash : {A : Type 0} → true ≡ false → A
clash h = absurd (let z : ⊥ = cc in z)

worst-level :
    (paths : List Text) (path : Text) (s : Severity)
    → elem path paths ≡ true
    → severity_of path ≡ some s
    → (t : Severity) × (worst paths ≡ some t) × (level s ≤ level t)
unfolding worst
worst-level paths path s m e =
    elim (Bool-cases (any (λ p. has_level severe (severity_of p)) paths)) [
      | inl high ↦ (severe, rw high, at_most s)
      | inr no_high ↦ elim (Bool-cases (any (λ p. has_level moderate (severity_of p)) paths)) [
        | inl mid ↦
            (moderate, rw (no_high, mid), not_severe s (missed paths path s severe m e no_high))
        | inr no_mid ↦ elim (Bool-cases (any (λ p. has_level slight (severity_of p)) paths)) [
          | inl low ↦ (
            slight,
            rw (no_high, no_mid, low),
            only_slight s (missed paths path s severe m e no_high)
                (missed paths path s moderate m e no_mid),
          )
          | inr no_low ↦
              nothing s (missed paths path s severe m e no_high)
                (missed paths path s moderate m e no_mid) (missed paths path s slight m e no_low)
        ]
      ]
    ]
  where
    at_most : (s : Severity) → level s ≤ 3
    at_most slight = omega arith
    at_most moderate = omega arith
    at_most severe = omega arith

    not_severe : (s : Severity) → has_level severe (some s) ≡ false → level s ≤ 2
    not_severe slight h = omega arith
    not_severe moderate h = omega arith
    not_severe severe h = clash h

    only_slight :
        (s : Severity)
        → has_level severe (some s) ≡ false
        → has_level moderate (some s) ≡ false
        → level s ≤ 1
    only_slight slight h k = omega arith
    only_slight moderate h k = clash k
    only_slight severe h k = clash h

    nothing :
        {A : Type 0} (s : Severity)
        → has_level severe (some s) ≡ false
        → has_level moderate (some s) ≡ false
        → has_level slight (some s) ≡ false
        → A
    nothing slight h k l = clash l
    nothing moderate h k l = clash k
    nothing severe h k l = clash h

-- When a risk that `classify` answers has a severity, the answer has one too, at least as severe.
pub classify-severity_of :
    (contexts : List Json) (path : Text) (s : Severity)
    → elem path (classify contexts).risks ≡ true
    → severity_of path ≡ some s
    → (t : Severity) × ((classify contexts).risk_severity ≡ some t) × (level s ≤ level t)
unfolding classify
classify-severity_of contexts path s m e =
    worst-level (bucket risk (class_keys contexts)) path s
      (sym (elem-sorted_set path (bucket risk (class_keys contexts))) ∙ m) e
