-- ===== src/Evidence/Corroboration.antt =====
-- When sources corroborate one another, for `corroborated` of src/libtb/evidence.
use turkey_bite.Prelude.{
  ne_test, or_true_right, ℕ, zero, suc, ◌≤◌, ◌≡◌, ◌≢◌, refl, sym, ap, ◌∙◌, ◌↔◌, inl, inr, Bool,
  true, false, ◌||◌, not, List, [], ◌∷◌, ◌++◌, map, arith, Bool-cases, not-eq-true_iff, or-eq-true,
  or-eq-false, and-eq-true, ◌==◌, nat_eq, list_eq, list_beq_iff, length, elem, any, all, All, leb,
  leb→le,
}
use turkey_bite.Text.{Text}
use turkey_bite.Evidence.{
  Source, dependent, combinations, pairwise_independent, is_some_source, corroborated,
}

-- Neither source's opinion is the other's: they have different publishers, and neither copies
-- the other's.
pub record Separate (a b : Source) : Type 0 where
  pub publishers : a.publisher ≢ b.publisher
  pub not_copied : elem a.publisher b.derived_from ≡ false
  pub not_copying : elem b.publisher a.derived_from ≡ false

abbrev pub AllSeparate : List Source → Type 0
AllSeparate [] = Unit
AllSeparate (a ∷ rest) = All (Separate a) rest × AllSeparate rest

-- Some of the sources, in their order.
pub data Among : List Source → List Source → Type 0 where
  done : {all : List Source} → Among [] all
  take : (a : Source) {group all : List Source} → Among group all → Among (a ∷ group) (a ∷ all)
  skip : (a : Source) {group all : List Source} → Among group all → Among group (a ∷ all)

any-map :
    (p : List Source → Bool) (a : Source) (groups : List (List Source))
    → any p (map (λ g. a ∷ g) groups) ≡ any (λ g. p (a ∷ g)) groups
any-map p a [] = refl
any-map p a (g ∷ groups) = ap (λ (b : Bool). p (a ∷ g) || b) (any-map p a groups)

any-append :
    (p : List Source → Bool) (xs ys : List (List Source))
    → any p (xs ++ ys) ≡ (any p xs || any p ys)
any-append p [] ys = refl
any-append p (x ∷ xs) ys = ground (arith, any-append p xs ys)

combinations_sound :
    (p : List Source → Bool) (sources : List Source) (n : ℕ)
    → any p (combinations sources n) ≡ true
    → (group : List Source) × Among group sources × (length group ≡ n) × (p group ≡ true)
unfolding combinations
combinations_sound p sources zero h = ([], done, refl, ground arith)
combinations_sound p [] (suc n) h = absurd (let z : ⊥ = cc in z)
combinations_sound p (a ∷ rest) (suc n) h =
    let h' =
      sym (any-append p (map (λ g. a ∷ g) (combinations rest n)) (combinations rest (suc n))) ∙ h in
    elim (or-eq-true _ _ h') [
      | inl with_a ↦
          let (group, among, size, good) =
            combinations_sound (λ g. p (a ∷ g)) rest n
              (sym (any-map p a (combinations rest n)) ∙ with_a) in
          (a ∷ group, take a among, ap suc size, good)
      | inr without ↦
          let (group, among, size, good) = combinations_sound p rest (suc n) without in
          (group, skip a among, size, good)
    ]

or_left : (a b : Bool) → a ≡ true → (a || b) ≡ true
or_left a b h = ground arith

combinations_complete :
    (p : List Source → Bool) {group sources : List Source} (n : ℕ)
    → Among group sources
    → length group ≡ n
    → p group ≡ true
    → any p (combinations sources n) ≡ true
unfolding combinations
combinations_complete p zero done size good = or_left _ _ good
combinations_complete p (suc n) done size good = absurd (omega (arith, size))
combinations_complete p zero (take a m) size good = absurd (omega (arith, size))
combinations_complete p (suc n) (take a {all = rest} m) size good =
    any-append p (map (λ g. a ∷ g) (combinations rest n)) (combinations rest (suc n))
    ∙ or_left _ _ (
        any-map p a (combinations rest n)
        ∙ combinations_complete (λ g. p (a ∷ g)) n m (omega (arith, size)) good)
combinations_complete p zero (skip a {group = []} m) size good = or_left _ _ good
combinations_complete p zero (skip a {group = b ∷ group} m) size good = absurd (omega (arith, size))
combinations_complete p (suc n) (skip a {all = rest} m) size good =
    any-append p (map (λ g. a ∷ g) (combinations rest n)) (combinations rest (suc n))
    ∙ or_true_right _ _ (combinations_complete p (suc n) m size good)

differs : {x y : Text} → (x == y) ≡ false → x ≢ y
differs {x} {y} h e = absurd (clash (x == y) ((list_beq_iff x y).1 e) h)
  where
    clash : (b : Bool) → b ≡ true → b ≡ false → ⊥
    clash b t f = cc

dependent_iff : (a b : Source) → (dependent a b ≡ false) ↔ Separate a b
unfolding dependent
dependent_iff a b = (
  (λ h.
      let (q, t) = or-eq-false _ _ h in
      let (p, r) = or-eq-false _ _ q in
      record { publishers = differs p; not_copied = r; not_copying = t }),
  (λ s. rw (ne_test _ _ s.publishers, s.not_copied, s.not_copying)),
)

all_iff_Separate :
    (a : Source) (rest : List Source)
    → (all (λ b. not (dependent a b)) rest ≡ true) ↔ All (Separate a) rest
all_iff_Separate a [] = ((λ h. tt), (λ h. refl))
all_iff_Separate a (b ∷ rest) = (
  (λ h.
      let (here, later) = and-eq-true _ _ h in
      ((dependent_iff a b).0 ((not-eq-true_iff _).0 here), (all_iff_Separate a rest).0 later)),
  (λ (here, later). rw ((dependent_iff a b).1 here) ((all_iff_Separate a rest).1 later)),
)

pub pairwise_independent-AllSeparate :
    (group : List Source) → (pairwise_independent group ≡ true) ↔ AllSeparate group
unfolding pairwise_independent
pairwise_independent-AllSeparate [] = ((λ h. tt), (λ h. refl))
pairwise_independent-AllSeparate (a ∷ rest) = (
  (λ h.
      let (here, later) = and-eq-true _ _ h in
      ((all_iff_Separate a rest).0 here, (pairwise_independent-AllSeparate rest).0 later)),
  (λ (here, later).
      rw ((all_iff_Separate a rest).1 here) ((pairwise_independent-AllSeparate rest).1 later)),
)

one_iff :
    (sources : List Source) (n : ℕ)
    → n ≡ 1
    → (is_some_source sources ≡ true)
      ↔ ((group : List Source) × Among group sources × (length group ≡ n) × AllSeparate group)
one_iff [] n e =
    ((λ h. absurd (clash h)), (λ (group, among, size, apart). absurd (nobody among (size ∙ e))))
  where
    clash : false ≡ true → ⊥
    clash h = cc

    nobody : {group : List Source} → Among group [] → length group ≡ 1 → ⊥
    nobody done size = omega (arith, size)
one_iff (a ∷ rest) n e = ((λ h. (a ∷ [], take a done, sym e, (tt, tt))), (λ w. refl))

-- `corroborated` is true of the sources and a count of at least one exactly when that many of the
-- sources, in their order, are pairwise separate: no two have one publisher, and none copies the
-- publisher of another.
pub corroborated_iff :
    (sources : List Source) (n : ℕ)
    → 1 ≤ n
    → (corroborated sources n ≡ true)
      ↔ ((group : List Source) × Among group sources × (length group ≡ n) × AllSeparate group)
unfolding corroborated
corroborated_iff sources n pos = elim (Bool-cases (leb n 1)) [
  | inl one ↦ rw one (one_iff sources n (omega (arith, pos, leb→le n 1 one)))
  | inr more ↦ rw more (
    (λ h.
        let (group, among, size, good) = combinations_sound pairwise_independent sources n h in
        (group, among, size, (pairwise_independent-AllSeparate group).0 good)),
    (λ (group, among, size, apart).
        combinations_complete pairwise_independent n among size
          ((pairwise_independent-AllSeparate group).1 apart)),
  )
]
