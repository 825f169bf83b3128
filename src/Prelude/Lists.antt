-- ===== src/Prelude/Lists.antt =====
-- Lists measured by native numbers, membership as a test, and predicates on all members.
use Prim.Native.Nat.{ℕ, zero, suc, ◌+◌, ◌-◌}
use mathlib.Core.Path.{◌≡◌, refl, sym, ap, ◌∙◌}
use mathlib.Core.Logic.{◌≢◌, inl, inr}
use mathlib.Core.Bool.{Bool, true, false, ◌&&◌, ◌||◌}
use mathlib.Core.List.{List, [], ◌∷◌, ◌++◌, reverse, reverse-cons}
use native.Mathlib.Omega.{arith}
use turkey_bite.Prelude.Tests.{HasEq, ◌==◌, if◌then◌else◌, Bool-cases, or-eq-true, or-eq-false}

module _ {ℓ} {A : Type ℓ} where
  abbrev pub length : List A → ℕ
  length [] = 0
  length (x ∷ xs) = suc (length xs)

  abbrev pub take : ℕ → List A → List A
  take zero xs = []
  take (suc n) [] = []
  take (suc n) (x ∷ xs) = x ∷ take n xs

  abbrev pub drop : ℕ → List A → List A
  drop zero xs = xs
  drop (suc n) [] = []
  drop (suc n) (x ∷ xs) = drop n xs

  abbrev pub any : (A → Bool) → List A → Bool
  any p [] = false
  any p (x ∷ xs) = p x || any p xs

  abbrev pub all : (A → Bool) → List A → Bool
  all p [] = true
  all p (x ∷ xs) = p x && all p xs

  -- A comprehension's `if`.
  abbrev pub keep : (A → Bool) → List A → List A
  keep p [] = []
  keep p (x ∷ xs) = let rest = keep p xs in if p x then x ∷ rest else rest

  pub length-append : (xs ys : List A) → length (xs ++ ys) ≡ length xs + length ys
  length-append [] ys = omega arith
  length-append (x ∷ xs) ys = omega (arith, length-append xs ys)

  pub take-append-drop : (n : ℕ) (xs : List A) → take n xs ++ drop n xs ≡ xs
  take-append-drop zero xs = refl
  take-append-drop (suc n) [] = refl
  take-append-drop (suc n) (x ∷ xs) = rw (take-append-drop n xs)

  pub drop-append : (xs ys : List A) → drop (length xs) (xs ++ ys) ≡ ys
  drop-append [] ys = refl
  drop-append (x ∷ xs) ys = drop-append xs ys

  pub length-drop : (n : ℕ) (xs : List A) → length (drop n xs) ≡ length xs - n
  length-drop zero xs = omega arith
  length-drop (suc n) [] = omega arith
  length-drop (suc n) (x ∷ xs) = omega (arith, length-drop n xs)

-- A list that is not empty, with its last item apart.
pub split_last {ℓ} :
    {A : Type ℓ} (x : A) (xs : List A) → (ys : List A) × (y : A) × (ys ++ y ∷ [] ≡ x ∷ xs)
split_last x [] = ([], x, refl)
split_last {A} x (x' ∷ xs) =
    let (ys, y, e) = split_last x' xs in (x ∷ ys, y, ap (λ (l : List A). x ∷ l) e)

-- The items of a list satisfy a predicate.
abbrev pub All {ℓ κ} : {A : Type ℓ} → (A → Type κ) → List A → Type κ
All P [] = Unit
All P (x ∷ xs) = P x × All P xs

module _ {ℓ κ} {A : Type ℓ} (P : A → Type κ) where
  pub All-append : (xs ys : List A) → All P xs → All P ys → All P (xs ++ ys)
  All-append [] ys h k = k
  All-append (x ∷ xs) ys (p, h) k = (p, All-append xs ys h k)

  pub All-append_left : (xs ys : List A) → All P (xs ++ ys) → All P xs
  All-append_left [] ys h = tt
  All-append_left (x ∷ xs) ys (p, h) = (p, All-append_left xs ys h)

  pub All-append_right : (xs ys : List A) → All P (xs ++ ys) → All P ys
  All-append_right [] ys h = h
  All-append_right (x ∷ xs) ys (p, h) = All-append_right xs ys h

  pub All-reverse : (xs : List A) → All P xs → All P (reverse xs)
  All-reverse [] h = tt
  All-reverse (x ∷ xs) (p, h) =
      rw reverse-cons (All-append (reverse xs) (x ∷ []) (All-reverse xs h) (p, tt))

module _ {ℓ} {A : Type ℓ} where
  -- A test that fails on every item.
  pub any-eq-false : (p : A → Bool) (xs : List A) → any p xs ≡ false → All (λ x. p x ≡ false) xs
  any-eq-false p [] h = tt
  any-eq-false p (x ∷ xs) h =
      let (here, later) = or-eq-false (p x) (any p xs) h in (here, any-eq-false p xs later)

  pub any_none : (p : A → Bool) (xs : List A) → All (λ x. p x ≡ false) xs → any p xs ≡ false
  any_none p [] h = refl
  any_none p (x ∷ xs) (here, later) = rw here (any_none p xs later)

pub All-map {ℓ κ μ} :
    {A : Type ℓ} {P : A → Type κ} {Q : A → Type μ} (f : (a : A) → P a → Q a) (xs : List A)
    → All P xs
    → All Q xs
All-map f [] h = tt
All-map f (x ∷ xs) (p, h) = (f x p, All-map f xs h)

module _ {ℓ} {A : Type ℓ} ⦃e : HasEq A⦄ where
  -- `a in xs`
  abbrev pub elem : A → List A → Bool
  elem a [] = false
  elem a (x ∷ xs) = a == x || elem a xs

  pub elem-append : (a : A) (xs ys : List A) → elem a (xs ++ ys) ≡ (elem a xs || elem a ys)
  elem-append a [] ys = refl
  elem-append a (x ∷ xs) ys = ground (arith, elem-append a xs ys)

  pub elem_cons_false :
      (a x : A) (xs : List A) → elem a (x ∷ xs) ≡ false → (a ≢ x) × (elem a xs ≡ false)
  elem_cons_false a x xs h =
      let (here, later) = or-eq-false (a == x) (elem a xs) h in
      ((λ p. let t = (e.same_iff a x).1 p in absurd (clash (a == x) t here)), later)
    where
      clash : (b : Bool) → b ≡ true → b ≡ false → ⊥
      clash b t f = cc

  pub elem_All {κ} : (P : A → Type κ) (a : A) (xs : List A) → elem a xs ≡ true → All P xs → P a
  elem_All P a [] h w = elim (bad h) [ ]
    where
      bad : false ≡ true → ⊥
      bad p = cc
  elem_All P a (x ∷ xs) h w = elim (or-eq-true (a == x) (elem a xs) h) [
    | inl here ↦ rw ((e.same_iff a x).0 here) w.0
    | inr later ↦ elem_All P a xs later w.1
  ]

  pub elem-keep :
      (p : A → Bool) (a : A) (xs : List A)
      → elem a (keep p xs) ≡ true
      → (p a ≡ true) × (elem a xs ≡ true)
  elem-keep p a [] h = absurd (let z : ⊥ = cc in z)
  elem-keep p a (x ∷ xs) h = elim (Bool-cases (p x)) [
    | inl t ↦ elim (Bool-cases (a == x)) [
      | inl same ↦ (rw ((e.same_iff a x).0 same) t, rw same)
      | inr other ↦ let (k, m) = elem-keep p a xs (rw (t, other) at h) in (k, rw other m)
    ]
    | inr f ↦ let (k, m) = elem-keep p a xs (rw f at h) in (k, or_right (a == x) _ m)
  ]
    where
      or_right : (b c : Bool) → c ≡ true → (b || c) ≡ true
      or_right b c r = ground arith

  pub keep-elem :
      (p : A → Bool) (a : A) (xs : List A)
      → p a ≡ true
      → elem a xs ≡ true
      → elem a (keep p xs) ≡ true
  keep-elem p a [] k h = absurd (let z : ⊥ = cc in z)
  keep-elem p a (x ∷ xs) k h = elim (Bool-cases (a == x)) [
    | inl same ↦ let t = sym (ap p ((e.same_iff a x).0 same)) ∙ k in rw t (rw same)
    | inr other ↦
        let m = keep-elem p a xs k (rw other at h) in
        elim (Bool-cases (p x)) [ inl t ↦ rw t (rw other m) | inr f ↦ rw f m ]
  ]
