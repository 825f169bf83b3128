-- ===== src/Tbql/Fields/Known.antt =====
-- What `resolve` of console/backend/tbconsole/search/fields.py answers.
use turkey_bite.Prelude.{
  ◌≡◌, subst, refl, ◌∙◌, Bool, true, false, ◌||◌, Option, none, some, List, [], ◌∷◌, map, arith,
  ◌==◌, nat_eq, list_eq, elem, eq_refl,
}
use turkey_bite.Text.{Text, lower, strip}
use turkey_bite.Tbql.Fields.{Field, fields, or_later, find_field, is_named, by_name, resolve}

-- A field's name that the catalogue has.
abbrev pub InCatalogue : Text → Type 0
InCatalogue name = elem name (map (λ f. f.name) fields) ≡ true

find_field-elem :
    (p : Field → Bool) (fs : List Field) (f : Field)
    → find_field p fs ≡ some f
    → (elem f.name (map (λ g. g.name) fs) ≡ true) × (p f ≡ true)
find_field-elem p [] f h = absurd (let z : ⊥ = cc in z)
find_field-elem p (g ∷ fs) f h = go (find_field p fs) (p g) refl refl h (find_field-elem p fs f)
  where
    or_right : (a b : Bool) → b ≡ true → (a || b) ≡ true
    or_right a b e = ground arith

    head : (a : Text) (b : Bool) → (a == a || b) ≡ true
    head a b = rw (eq_refl a) refl

    same : (x y : Field) → some x ≡ some y → x ≡ y
    same x y e = cc

    go :
        (o : Option Field) (b : Bool)
        → find_field p fs ≡ o
        → p g ≡ b
        → or_later o b g ≡ some f
        → (find_field p fs ≡ some f → (elem f.name (map (λ x. x.name) fs) ≡ true) × (p f ≡ true))
        → (elem f.name (g.name ∷ map (λ x. x.name) fs) ≡ true) × (p f ≡ true)
    go (some later) b e d k ih = let (m, q) = ih (e ∙ k) in (or_right (f.name == g.name) _ m, q)
    go none true e d k ih =
        subst (λ x. (elem x.name (g.name ∷ map (λ y. y.name) fs) ≡ true) × (p x ≡ true))
          (same g f k) (head g.name _, d)
    go none false e d k ih = absurd (let z : ⊥ = cc in z)

by_name-InCatalogue : (o : Option Field) (f : Field) → by_name o ≡ some f → InCatalogue f.name
by_name-InCatalogue none f h = absurd (let z : ⊥ = cc in z)
by_name-InCatalogue (some g) f h = (find_field-elem (λ x. x.name == g.name) fields f h).0

pub resolve-InCatalogue : (name : Text) (f : Field) → resolve name ≡ some f → InCatalogue f.name
unfolding resolve
resolve-InCatalogue name f h =
    by_name-InCatalogue (find_field (is_named (lower (strip name))) fields) f h
