-- ===== src/Tbql/Audit.antt =====
-- `names_someone` against the DSL that the query compiles to.
use turkey_bite.Prelude.{
  ◌≡◌, refl, ap, ◌∙◌, Bool, true, ◌||◌, Option, none, some, List, [], ◌∷◌, ◌++◌, arith, any,
}
use turkey_bite.Text.{Text}
use turkey_bite.Tbql.{Result, ok, failed, ◌>>=◌, Tok}
use turkey_bite.Tbql.Ensures.{Ensures, holds, fails, bind-Ensures, ensured}
use turkey_bite.Tbql.Parser.{
  Node, leaf, negation, conjunction, disjunction, Nodes, no_nodes, node, parse,
}
use turkey_bite.Tbql.Fields.{Field, resolve}
use turkey_bite.Tbql.Naming.{
  Names, NamesAll, Names-mono, NamesAll-mono, TermNames, term_dsl-Names, or_left,
}
use turkey_bite.Tbql.Dsl.{
  Dsl, must_not, filter, should, Dsls, no_dsls, dsl, to_dsl, to_dsls, tree_dsl, compile_query,
  used_by, fields_used, fields_used_all, is_free, free_text_used, free_text_used_any, identifies,
  names_in, names_someone,
}

Anyone : Text → Type 0
Anyone f = Unit

-- The field is compared only where the audit is told.
abbrev pub Told : Bool → Text → Type 0
Told told f = identifies f ≡ true → told ≡ true

abbrev pub told_of : Node → Bool
told_of n = free_text_used n || any identifies (fields_used n)

abbrev told_of_any : Nodes → Bool
told_of_any ns = free_text_used_any ns || any identifies (fields_used_all ns)

any-append : (p : Text → Bool) (xs ys : List Text) → any p (xs ++ ys) ≡ (any p xs || any p ys)
any-append p [] ys = refl
any-append p (x ∷ xs) ys = rw (any-append p xs ys) (or_assoc (p x) (any p xs) (any p ys))
  where
    or_assoc : (a b c : Bool) → (a || (b || c)) ≡ ((a || b) || c)
    or_assoc a b c = ground arith

told_here : (n : Node) (ns : Nodes) → told_of n ≡ true → told_of_any (node n ns) ≡ true
unfolding free_text_used fields_used
told_here n ns h =
    rw (any-append identifies (fields_used n) (fields_used_all ns))
      (mix (free_text_used n) (free_text_used_any ns) (any identifies (fields_used n)) _ h)
  where
    mix : (a b c d : Bool) → (a || c) ≡ true → ((a || b) || (c || d)) ≡ true
    mix a b c d h = ground arith

told_later : (n : Node) (ns : Nodes) → told_of_any ns ≡ true → told_of_any (node n ns) ≡ true
unfolding free_text_used fields_used
told_later n ns h =
    rw (any-append identifies (fields_used n) (fields_used_all ns))
      (mix (free_text_used n) (free_text_used_any ns) (any identifies (fields_used n)) _ h)
  where
    mix : (a b c d : Bool) → (b || d) ≡ true → ((a || b) || (c || d)) ≡ true
    mix a b c d h = ground arith

told_used :
    (o : Option Text) (name : Text) (f : Field)
    → o ≡ some name
    → resolve name ≡ some f
    → identifies f.name ≡ true
    → (is_free o || any identifies (used_by o)) ≡ true
told_used none name f e r i = absurd (let z : ⊥ = cc in z)
told_used (some []) name f e r i = refl
told_used (some (c ∷ rest)) name f e r i =
    let at : resolve (c ∷ rest) ≡ some f = ap resolve (same (c ∷ rest) name e) ∙ r in
    rw (at, i) refl
  where
    same : (x y : Text) → some x ≡ some y → x ≡ y
    same x y h = cc

module _ (is_address is_time : Text → Bool) where
  term-Told : (t : Tok) → TermNames Anyone (Told (told_of (leaf t))) is_address is_time t
  unfolding Anyone free_text_used fields_used
  term-Told t = record {
    asked = λ _ _ _. tt;
    compared = λ name f e r i. told_used t.field name f e r i;
    free = λ h _ _ _. or_left (is_free t.field) (any identifies (used_by t.field)) h;
  }

  onward :
      (a b : Bool) (q : Dsl)
      → (a ≡ true → b ≡ true)
      → Names Anyone (Told a) q
      → Names Anyone (Told b) q
  onward a b q k h = Names-mono Anyone (Told a) Anyone (Told b) (λ _ u. u) (λ f g i. k (g i)) q h

  onward_all :
      (a b : Bool) (qs : Dsls)
      → (a ≡ true → b ≡ true)
      → NamesAll Anyone (Told a) qs
      → NamesAll Anyone (Told b) qs
  onward_all a b qs k h =
      NamesAll-mono Anyone (Told a) Anyone (Told b) (λ _ u. u) (λ f g i. k (g i)) qs h

  mutual
    unfolding to_dsl Names free_text_used fields_used

    to_dsl-Told :
        (n : Node) → Ensures (Names Anyone (Told (told_of n))) (to_dsl is_address is_time n)
    to_dsl-Told (leaf t) =
        term_dsl-Names Anyone (Told (told_of (leaf t))) is_address is_time t (term-Told t)
    to_dsl-Told (negation n) = bind-Ensures (to_dsl-Told n) λ q h. holds (must_not q) h
    to_dsl-Told (conjunction ns) = bind-Ensures (to_dsls-Told ns) λ qs h. holds (filter qs) h
    to_dsl-Told (disjunction ns) = bind-Ensures (to_dsls-Told ns) λ qs h. holds (should qs) h

    to_dsls-Told :
        (ns : Nodes)
        → Ensures (NamesAll Anyone (Told (told_of_any ns))) (to_dsls is_address is_time ns)
    to_dsls-Told no_nodes = holds no_dsls tt
    to_dsls-Told (node n ns) = bind-Ensures (to_dsl-Told n) λ q h.
        bind-Ensures (to_dsls-Told ns) λ qs hs. holds (dsl q qs) (
          onward (told_of n) (told_of_any (node n ns)) q (told_here n ns) h,
          onward_all (told_of_any ns) (told_of_any (node n ns)) qs (told_later n ns) hs,
        )

  -- Where the DSL that a query compiles to compares a field that identifies someone with a value,
  -- at any depth, `names_someone` is true of the query.
  pub names_someone-Told :
      (s : Text) (q : Dsl)
      → compile_query is_address is_time s ≡ ok q
      → Names (λ f. Unit) (Told (names_someone s)) q
  unfolding compile_query Names Anyone names_someone
  names_someone-Told s q e = ensured q (whole (parse s)) e
    where
      whole :
          (r : Result (Option Node))
          → Ensures (Names Anyone (Told (names_in r))) (r >>= tree_dsl is_address is_time)
      whole (ok none) = holds _ tt
      whole (ok (some n)) = to_dsl-Told n
      whole (failed m p k) = fails m p k
