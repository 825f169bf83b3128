-- ===== src/Evidence/Disabled.antt =====
-- The categories that are switched off, for `is_disabled` of src/libtb/evidence.
use turkey_bite.Prelude.{
  ◌&&◌, any, and-eq-true, and_true, or_true_right, Option, none, some, ◌≡◌, refl, sym, ap, ◌∙◌, ◌↔◌,
  inl, inr, Bool, true, List, [], ◌∷◌, Bool-cases, or-eq-true, ◌==◌, nat_eq, list_eq, list_beq_iff,
  elem,
}
use turkey_bite.Prelude.Members.{In, here, there, any-In}
use turkey_bite.Text.{Text, strip, lower}
use turkey_bite.Taxonomy.{Facet, Statement, Rows, taxonomy}
use turkey_bite.Evidence.{
  disabled_spellings, is_disabled, without_negation, switched_off, has_facet, prefixes,
}
use turkey_bite.Evidence.Branches.{IsUnder, prefixes-IsUnder, IsUnder-prefixes}

-- A row says, in some facet, a path that is a disabled branch or lies under one.
pub record IsOff (disabled : List Text) (rows : List Statement) : Type 0 where
  pub statement : Statement
  pub in_row : In statement rows
  pub facet : Facet
  pub says : statement.facet ≡ some facet
  pub branch : Text
  pub is_off : elem branch disabled ≡ true
  pub under : IsUnder statement.path branch

-- The table has such a row for this spelling.
pub record HasDisabledRow (t : Text) (disabled : List Text) (table : Rows) : Type 0 where
  pub rows : List Statement
  pub in_table : In (t, rows) table
  pub off : IsOff disabled rows

some_facet : (o : Option Facet) → has_facet o ≡ true → (f : Facet) × (o ≡ some f)
some_facet none h = absurd (let z : ⊥ = cc in z)
some_facet (some f) h = (f, refl)

In-any : {A : Type 0} (p : A → Bool) (a : A) (xs : List A) → In a xs → p a ≡ true → any p xs ≡ true
In-any p a [] m h = elim m [ ]
In-any p a (x ∷ xs) (here e) h = let k : p x ≡ true = sym (ap p e) ∙ h in rw k refl
In-any p a (x ∷ xs) (there n) h = or_true_right (p x) (any p xs) (In-any p a xs n h)

switched_off-IsOff :
    (disabled : List Text) (rows : List Statement)
    → switched_off disabled rows ≡ true
    → IsOff disabled rows
switched_off-IsOff disabled rows h =
    let (s, m, k) = any-In _ rows h in
    let (k', u) = and-eq-true _ _ k in
    let (f, e) = some_facet s.facet k' in
    let (p, n, off) = any-In (λ q. elem q disabled) (prefixes s.path) u in
    record {
      statement = s;
      in_row = m;
      facet = f;
      says = e;
      branch = p;
      is_off = off;
      under = prefixes-IsUnder p s.path n;
    }

IsOff-switched_off :
    (disabled : List Text) (rows : List Statement)
    → IsOff disabled rows
    → switched_off disabled rows ≡ true
IsOff-switched_off disabled rows w =
    In-any (λ s. has_facet s.facet && any (λ p. elem p disabled) (prefixes s.path)) w.statement rows
      w.in_row
      (and_true _ _ (rw w.says refl) (
        In-any (λ q. elem q disabled) w.branch (prefixes w.statement.path)
          (IsUnder-prefixes w.branch w.statement.path w.under) w.is_off))

further :
    (t : Text) (disabled : List Text) (row : Text × List Statement) (table : Rows)
    → HasDisabledRow t disabled table
    → HasDisabledRow t disabled (row ∷ table)
further t disabled row table w = record { rows = w.rows; in_table = there w.in_table; off = w.off }

spellings-HasDisabledRow :
    (t : Text) (disabled : List Text) (table : Rows)
    → elem t (disabled_spellings disabled table) ≡ true
    → HasDisabledRow t disabled table
unfolding disabled_spellings
spellings-HasDisabledRow t disabled [] h = let z : ⊥ = cc in absurd z
spellings-HasDisabledRow t disabled ((category, ss) ∷ rest) h =
    elim (Bool-cases (switched_off disabled ss)) [
      | inl on ↦ elim (or-eq-true (t == category) _ (rw on at h)) [
        | inl e ↦ record {
          rows = ss;
          in_table = here (ap (λ (c : Text). (c, ss)) ((list_beq_iff t category).0 e));
          off = switched_off-IsOff disabled ss on;
        }
        | inr l ↦
            further t disabled (category, ss) rest (spellings-HasDisabledRow t disabled rest l)
      ]
      | inr off ↦
          further t disabled (category, ss) rest
            (spellings-HasDisabledRow t disabled rest (rw off at h))
    ]

row-spelling :
    (t : Text) (disabled : List Text) (rows : List Statement) (table : Rows)
    → In (t, rows) table
    → switched_off disabled rows ≡ true
    → elem t (disabled_spellings disabled table) ≡ true
unfolding disabled_spellings
row-spelling t disabled rows [] m on = elim m [ ]
row-spelling t disabled rows ((category, ss) ∷ rest) (here e) on =
    let on' : switched_off disabled ss ≡ true =
      ap (λ (r : Text × List Statement). switched_off disabled r.1) (sym e) ∙ on in
    let same : (t == category) ≡ true =
      (list_beq_iff t category).1 (ap (λ (r : Text × List Statement). r.0) e) in
    rw (on', same) refl
row-spelling t disabled rows ((category, ss) ∷ rest) (there n) on =
    let later = row-spelling t disabled rows rest n on in
    elim (Bool-cases (switched_off disabled ss)) [
      | inl y ↦ rw y (or_true_right (t == category) _ later)
      | inr f ↦ rw f later
    ]

-- A category is disabled exactly when the table has a row of its spelling, without the mark of a
-- correction, trimmed and in lower case, that says in some facet a path which is a disabled branch
-- or begins with one and a dot.
pub is_disabled-HasDisabledRow :
    (category : Text) (disabled : List Text)
    → (is_disabled category disabled ≡ true)
      ↔ HasDisabledRow (lower (strip (without_negation category))) disabled taxonomy
unfolding is_disabled
is_disabled-HasDisabledRow category [] = (
  (λ h. absurd (let z : ⊥ = cc in z)),
  λ w. let none_off = w.off.is_off in absurd (let z : ⊥ = cc in z),
)
is_disabled-HasDisabledRow category (d ∷ ds) = (
  spellings-HasDisabledRow _ (d ∷ ds) taxonomy,
  λ w.
      row-spelling _ (d ∷ ds) w.rows taxonomy w.in_table (IsOff-switched_off (d ∷ ds) w.rows w.off),
)
