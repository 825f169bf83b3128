-- ===== src/Brake/Keys.antt =====
-- The dict of console/backend/tbconsole/security/limits.py: the times of failures by source and
-- name, in the order the keys came in.
use turkey_bite.Prelude.{
  not_both, ℕ, ◌≡◌, refl, sym, ap, ◌∙◌, ◌↔◌, inl, inr, Bool, true, false, ◌&&◌, not, Option, none,
  some, List, [], ◌∷◌, map, arith, Bool-cases, if◌then◌else◌, HasEq, ◌==◌, nat_eq, list_eq,
  list_beq_iff, keep,
}
use turkey_bite.Text.{Text}

abbrev pub Key : Type 0
Key = Text × Text

abbrev pub key_beq : Key → Key → Bool
key_beq (a, b) (c, d) = a == c && b == d

pub key_beq_iff : (k j : Key) → (key_beq k j ≡ true) ↔ (k ≡ j)
key_beq_iff (a, b) (c, d) = (
  λ h. ground (arith, list_beq_iff a c, list_beq_iff b d),
  λ e. ground (arith, list_beq_iff a c, list_beq_iff b d),
)

instance abbrev pub key_eq : HasEq Key
key_eq = record { same = key_beq; same_iff = key_beq_iff }

abbrev pub Dict : Type 0
Dict = List (Key × List ℕ)

-- d.get(key)
unfoldable pub find : Key → Dict → Option (List ℕ)
find k [] = none
find k ((j, ts) ∷ d) = if k == j then some ts else find k d

-- d[key] = ts
unfoldable pub put : Key → List ℕ → Dict → Dict
put k ts [] = (k, ts) ∷ []
put k ts ((j, us) ∷ d) = if k == j then (k, ts) ∷ d else (j, us) ∷ put k ts d

-- del d[key]
unfoldable pub remove : Key → Dict → Dict
remove k d = keep (λ e. not (k == e.0)) d

-- list(d)
unfoldable pub keys : Dict → List Key
keys d = map (λ e. e.0) d

shadowed :
    (b : Bool) (x y z : Option (List ℕ))
    → (if b then x else z) ≡ (if b then x else if b then y else z)
shadowed true x y z = refl
shadowed false x y z = refl

swapped :
    (p q : Bool) (x y z : Option (List ℕ))
    → (p ≡ true → q ≡ false)
    → (if p then y else if q then x else z) ≡ (if q then x else if p then y else z)
swapped true true x y z h = let e = h refl in cc
swapped true false x y z h = refl
swapped false q x y z h = refl

-- A key is not two keys that differ.
other_key : (k i j : Key) → (k == i) ≡ false → (j == i) ≡ true → (j == k) ≡ false
other_key k i j f t = elim (Bool-cases (j == k)) [
  | inl u ↦
      let same : i ≡ k = sym ((key_beq_iff j i).0 t) ∙ (key_beq_iff j k).0 u in
      let own : (k == i) ≡ true = (key_beq_iff k i).1 (sym same) in absurd (not_both own f)
  | inr g ↦ g
]

pub find-put :
    (k : Key) (ts : List ℕ) (d : Dict) (j : Key)
    → find j (put k ts d) ≡ (if j == k then some ts else find j d)
unfolding find put
find-put k ts [] j = refl
find-put k ts ((i, us) ∷ d) j = elim (Bool-cases (k == i)) [
  | inl t ↦ rw (t, (key_beq_iff k i).0 t) (shadowed (j == i) (some ts) (some us) (find j d))
  | inr f ↦
      rw (f, find-put k ts d j)
        (swapped (j == i) (j == k) (some ts) (some us) (find j d) (other_key k i j f))
]

pub find-remove :
    (k : Key) (d : Dict) (j : Key) → find j (remove k d) ≡ (if j == k then none else find j d)
unfolding find remove
find-remove k [] j = elim (Bool-cases (j == k)) [ inl t ↦ rw t refl | inr f ↦ rw f refl ]
find-remove k ((i, us) ∷ d) j = elim (Bool-cases (k == i)) [
  | inl t ↦ rw t (
      find-remove k d j
      ∙ shadowed (j == k) none (some us) (find j d)
      ∙ ap (λ (x : Key). if j == k then none else if j == x then some us else find j d)
          ((key_beq_iff k i).0 t))
  | inr f ↦
      rw (f, find-remove k d j)
        (swapped (j == i) (j == k) none (some us) (find j d) (other_key k i j f))
]
