-- ===== src/Prelude/Members.antt =====
-- Membership by place in the list, as a proposition with its witness.
use mathlib.Core.Path.{◌≡◌, refl, sym, ap, ◌∙◌}
use mathlib.Core.Logic.{◌⊎◌, inl, inr}
use mathlib.Core.Bool.{Bool, true}
use mathlib.Core.List.{List, [], ◌∷◌, ◌++◌, map}
use turkey_bite.Prelude.Tests.{Bool-cases, or-eq-true}
use turkey_bite.Prelude.Lists.{any, keep}

-- A member of the list, by its place there.
pub data In {ℓ} {A : Type ℓ} (a : A) : List A → Type ℓ where
  here : {x : A} {xs : List A} → a ≡ x → In a (x ∷ xs)
  there : {x : A} {xs : List A} → In a xs → In a (x ∷ xs)

pub any-In {ℓ} :
    {A : Type ℓ} (p : A → Bool) (xs : List A) → any p xs ≡ true → (a : A) × In a xs × (p a ≡ true)
any-In p [] h = absurd (let z : ⊥ = cc in z)
any-In p (x ∷ xs) h = elim (or-eq-true _ _ h) [
  | inl k ↦ (x, here refl, k)
  | inr k ↦ let (a, m, t) = any-In p xs k in (a, there m, t)
]

pub In-keep {ℓ} :
    {A : Type ℓ} (p : A → Bool) (a : A) (xs : List A) → In a (keep p xs) → In a xs × (p a ≡ true)
In-keep p a [] m = elim m [ ]
In-keep p a (x ∷ xs) m = elim (Bool-cases (p x)) [
  | inl t ↦ elim (rw t at m) [
    | here e ↦ (here e, rw e t)
    | there n ↦ let (k, u) = In-keep p a xs n in (there k, u)
  ]
  | inr f ↦ let (k, u) = In-keep p a xs (rw f at m) in (there k, u)
]

pub In-map {ℓ} :
    {A B : Type ℓ} (f : A → B) (b : B) (xs : List A)
    → In b (map f xs)
    → (a : A) × In a xs × (b ≡ f a)
In-map f b [] m = elim m [ ]
In-map f b (x ∷ xs) (here e) = (x, here refl, e)
In-map f b (x ∷ xs) (there n) = let (a, m, e) = In-map f b xs n in (a, there m, e)

pub keep-In {ℓ} :
    {A : Type ℓ} (p : A → Bool) (a : A) (xs : List A) → In a xs → p a ≡ true → In a (keep p xs)
keep-In p a [] m k = elim m [ ]
keep-In p a (x ∷ xs) (here e) k = let t = sym (ap p e) ∙ k in rw t (here e)
keep-In p a (x ∷ xs) (there n) k =
    let m = keep-In p a xs n k in
    elim (Bool-cases (p x)) [ inl t ↦ rw t (there m) | inr f ↦ rw f m ]

pub map-In {ℓ} : {A B : Type ℓ} (f : A → B) (a : A) (xs : List A) → In a xs → In (f a) (map f xs)
map-In f a [] m = elim m [ ]
map-In f a (x ∷ xs) (here e) = here (ap f e)
map-In f a (x ∷ xs) (there n) = there (map-In f a xs n)

pub In-append {ℓ} : {A : Type ℓ} (a : A) (xs ys : List A) → In a (xs ++ ys) → In a xs ⊎ In a ys
In-append a [] ys m = inr m
In-append a (x ∷ xs) ys (here e) = inl (here e)
In-append a (x ∷ xs) ys (there n) = elim (In-append a xs ys n) [
  | inl l ↦ inl (there l)
  | inr r ↦ inr r
]

pub In-append_left {ℓ} : {A : Type ℓ} (a : A) (xs ys : List A) → In a xs → In a (xs ++ ys)
In-append_left a [] ys m = elim m [ ]
In-append_left a (x ∷ xs) ys (here e) = here e
In-append_left a (x ∷ xs) ys (there n) = there (In-append_left a xs ys n)

pub In-append_right {ℓ} : {A : Type ℓ} (a : A) (xs ys : List A) → In a ys → In a (xs ++ ys)
In-append_right a [] ys m = m
In-append_right a (x ∷ xs) ys m = there (In-append_right a xs ys m)
