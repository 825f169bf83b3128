-- ===== src/Builder/Tables.antt =====
-- Tables that give names their numbers, and only grow.
use turkey_bite.Prelude.{
  ℕ, zero, suc, ◌<◌, ◌≡◌, subst, refl, sym, ap, ◌∙◌, inl, inr, Bool, true, false, ◌||◌, List, [],
  ◌∷◌, ◌++◌, map, length, append_assoc, append-nil, arith, HasEq, Bool-cases, or-eq-false, ◌==◌,
  nat_eq, list_eq, elem,
}
use turkey_bite.Prelude.Members.{In, here, there}
use turkey_bite.Text.{Text}
use turkey_bite.Index.{Pair, name_at, number_at, pairs_at}
use turkey_bite.Builder.{place, intern}

-- The entry with a number; an empty table has none, nor members.
abbrev pub At {ℓ} : {A : Type ℓ} → List A → ℕ → A → Type ℓ
At [] i a = In a []
At (x ∷ xs) zero a = x ≡ a
At (x ∷ xs) (suc i) a = At xs i a

-- A table that grew into another.
abbrev pub Grew {ℓ} : {A : Type ℓ} → List A → List A → Type ℓ
Grew {A} xs ys = (more : List A) × (ys ≡ xs ++ more)

module _ {ℓ} {A : Type ℓ} where
  pub Grew-refl : (xs : List A) → Grew xs xs
  Grew-refl xs = ([], sym (append-nil xs))

  pub Grew-trans : (xs ys zs : List A) → Grew xs ys → Grew ys zs → Grew xs zs
  Grew-trans xs ys zs (m, e) (n, d) = (m ++ n, d ∙ ap (λ l. l ++ n) e ∙ append_assoc xs m n)

  At-append : (xs ys : List A) (i : ℕ) (a : A) → At xs i a → At (xs ++ ys) i a
  At-append [] ys i a h = elim h [ ]
  At-append (x ∷ xs) ys zero a h = h
  At-append (x ∷ xs) ys (suc i) a h = At-append xs ys i a h

  pub At-Grew : (xs ys : List A) (i : ℕ) (a : A) → Grew xs ys → At xs i a → At ys i a
  At-Grew xs ys i a (more, e) h = subst (λ l. At l i a) (sym e) (At-append xs more i a h)

  pub At-unique : (xs : List A) (i : ℕ) (a b : A) → At xs i a → At xs i b → a ≡ b
  At-unique [] i a b h k = elim h [ ]
  At-unique (x ∷ xs) zero a b h k = sym h ∙ k
  At-unique (x ∷ xs) (suc i) a b h k = At-unique xs i a b h k

  pub At-length : (xs : List A) (i : ℕ) (a : A) → At xs i a → i < length xs
  At-length [] i a h = elim h [ ]
  At-length (x ∷ xs) zero a h = omega arith
  At-length (x ∷ xs) (suc i) a h = omega (arith, At-length xs i a h)

  pub In-At : (xs : List A) (i : ℕ) (a : A) → At xs i a → In a xs
  In-At [] i a h = elim h [ ]
  In-At (x ∷ xs) zero a h = here (sym h)
  In-At (x ∷ xs) (suc i) a h = there (In-At xs i a h)

  pub At-In : (xs : List A) (a : A) → In a xs → (i : ℕ) × At xs i a
  At-In [] a m = elim m [ ]
  At-In (x ∷ xs) a (here e) = (0, sym e)
  At-In (x ∷ xs) a (there m) = let (i, h) = At-In xs a m in (suc i, h)

pub At-map {ℓ κ} :
    {A : Type ℓ} {B : Type κ} (f : A → B) (xs : List A) (i : ℕ) (a : A)
    → At xs i a
    → At (map f xs) i (f a)
At-map f [] i a h = elim h [ ]
At-map f (x ∷ xs) zero a h = ap f h
At-map f (x ∷ xs) (suc i) a h = At-map f xs i a h

pub name_at-At : (xs : List Text) (i : ℕ) (a : Text) → At xs i a → name_at i xs ≡ a
name_at-At [] i a h = elim h [ ]
name_at-At (x ∷ xs) zero a h = h
name_at-At (x ∷ xs) (suc i) a h = name_at-At xs i a h

pub number_at-At : (xs : List ℕ) (i : ℕ) (a : ℕ) → At xs i a → number_at i xs ≡ a
number_at-At [] i a h = elim h [ ]
number_at-At (x ∷ xs) zero a h = h
number_at-At (x ∷ xs) (suc i) a h = number_at-At xs i a h

pub pairs_at-At : (xs : List (List Pair)) (i : ℕ) (a : List Pair) → At xs i a → pairs_at i xs ≡ a
pairs_at-At [] i a h = elim h [ ]
pairs_at-At (x ∷ xs) zero a h = h
pairs_at-At (x ∷ xs) (suc i) a h = pairs_at-At xs i a h

module _ {ℓ} {A : Type ℓ} ⦃eq : HasEq A⦄ where
  place-At : (a : A) (xs : List A) → elem a xs ≡ true → At xs (place a xs) a
  place-At a [] h = absurd (let z : ⊥ = cc in z)
  place-At a (x ∷ xs) h = elim (Bool-cases (a == x)) [
    | inl e ↦ rw e (sym ((eq.same_iff a x).0 e))
    | inr n ↦ rw n (place-At a xs (later (a == x) (elem a xs) n h))
  ]
    where
      later : (p q : Bool) → p ≡ false → (p || q) ≡ true → q ≡ true
      later p q n h = ground arith

  place_new : (a : A) (xs : List A) → elem a xs ≡ false → At (xs ++ a ∷ []) (place a xs) a
  place_new a [] h = refl
  place_new a (x ∷ xs) h =
      let (n, k) = or-eq-false (a == x) (elem a xs) h in rw n (place_new a xs k)

  -- The number that a name gets is where it stands from then on.
  pub intern-At : (a : A) (xs : List A) → At (intern a xs).1 (intern a xs).0 a
  intern-At a xs = elim (Bool-cases (elem a xs)) [
    | inl old ↦ rw old (place-At a xs old)
    | inr new ↦ rw new (place_new a xs new)
  ]

  pub intern-Grew : (a : A) (xs : List A) → Grew xs (intern a xs).1
  intern-Grew a xs = elim (Bool-cases (elem a xs)) [
    | inl old ↦ rw old (Grew-refl xs)
    | inr new ↦ rw new (a ∷ [], refl)
  ]
