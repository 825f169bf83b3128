-- ===== src/Tbql/Quoting/Exact.antt =====
-- How a term that `term_for` writes compiles on a keyword field without paths.
use turkey_bite.Prelude.{
  ℕ, ◌≡◌, refl, sym, ap, ◌∙◌, inl, inr, Bool, true, false, ◌&&◌, not, some, [], ◌∷◌, length, all,
  ltb, Bool-cases, and-eq-true, if◌then◌else◌, ◌==◌, nat_eq, list_eq, nat_beq_iff, list_beq_iff,
}
use turkey_bite.Text.{Text, text, has_char}
use turkey_bite.Tbql.{ok, ◌>>=◌, Tok, max_value}
use turkey_bite.Tbql.Fields.{Field, keyword, resolve}
use turkey_bite.Tbql.Dsl.{
  matches, is_wild, value_dsl, known_dsl, is_has, exists_dsl, term_dsl, to_dsl, tree_dsl,
  compile_query,
}
use turkey_bite.Tbql.Quoting.{is_safe, is_plain, is_word, term_for}
use turkey_bite.Tbql.Quoting.Words.{is_name, read_back}
use turkey_bite.Tbql.Quoting.ReadBack.{parse-term_for}

not_in : (p : ℕ → Bool) (c : ℕ) (s : Text) → p c ≡ false → all p s ≡ true → has_char c s ≡ false
not_in p c [] h k = refl
not_in p c (d ∷ s) h k =
    let (a, b) = and-eq-true (p d) (all p s) k in
    elim (Bool-cases (c == d)) [
      | inl e ↦
          absurd
            (let z : p d ≡ false = ap p (sym ((nat_beq_iff c d).0 e)) ∙ h in let z : ⊥ = cc in z)
      | inr e ↦ rw e (not_in p c s h b)
    ]

-- A value written bare has no wildcard.
plain-is_wild : (v : Text) → is_plain v ≡ true → is_wild v ≡ false
unfolding is_wild
plain-is_wild [] h = refl
plain-is_wild (c ∷ s) h =
    let a = (and-eq-true (all is_safe (c ∷ s)) (not (is_word (c ∷ s))) h).0 in
    rw (not_in is_safe b'*' (c ∷ s) refl a, not_in is_safe b'?' (c ∷ s) refl a) refl

plain-star : (v : Text) → is_plain v ≡ true → (v == text "*") ≡ false
plain-star v h = elim (Bool-cases (v == text "*")) [
  | inl e ↦ absurd (
      let z : is_plain (text "*") ≡ true =
        ap is_plain (sym ((list_beq_iff v (text "*")).0 e)) ∙ h in
      let z : ⊥ = cc in z)
  | inr e ↦ e
]

bare_only : (a plain : Bool) → (plain ≡ true → a ≡ false) → (a && not (not plain)) ≡ false
bare_only true true h = h refl
bare_only true false h = refl
bare_only false plain h = refl

module _ (is_address is_time : Text → Bool) where
  keyword-exact :
      (f : Field) (t : Tok)
      → f.hierarchical ≡ false
      → (t.value == text "*" && not t.quoted) ≡ false
      → (is_wild t.value && not t.quoted) ≡ false
      → value_dsl is_address is_time keyword f t ≡ ok (matches f.name t.value)
  keyword-exact f t h a b = rw (a, b, h) refl

  -- A term that `term_for` writes of a value no longer than the limit, on a field by any name that
  -- `_FIELD_RE` matches whole, that is not one of the two that ask for presence and that resolves
  -- to a keyword field without paths, compiles to the comparison of that field with the whole
  -- value, whatever characters the value has: one with a * or a ? is no wildcard, and a lone * is
  -- no test for presence.
  pub compile_query-term_for :
      (name v : Text) (f : Field)
      → is_name name ≡ true
      → ltb max_value (length v) ≡ false
      → is_has is_address is_time name ≡ false
      → resolve name ≡ some f
      → f.type ≡ keyword
      → f.hierarchical ≡ false
      → compile_query is_address is_time (term_for name v) ≡ ok (matches f.name v)
  unfolding compile_query to_dsl term_dsl
  compile_query-term_for name v f h k n r ty flat =
      let t = read_back name v in
      ap (λ p. p >>= tree_dsl is_address is_time) (parse-term_for name v h k)
      ∙ ap
          (λ b.
            if b
            then exists_dsl is_address is_time (resolve t.value) t
            else known_dsl is_address is_time (resolve name) name t)
          n
      ∙ ap (λ o. known_dsl is_address is_time o name t) r
      ∙ ap (λ y. value_dsl is_address is_time y f t) ty
      ∙ keyword-exact f t flat (bare_only (v == text "*") (is_plain v) (plain-star v))
          (bare_only (is_wild v) (is_plain v) (plain-is_wild v))
