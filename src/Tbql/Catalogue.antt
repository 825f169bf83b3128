-- ===== src/Tbql/Catalogue.antt =====
-- Which fields the DSL of a query names.
use turkey_bite.Prelude.{
  ◌≡◌, refl, inl, inr, Bool, true, Option, none, some, List, [], ◌∷◌, map, all, and-eq-true,
  or-eq-true, ◌==◌, nat_eq, list_eq, list_beq_iff, elem,
}
use turkey_bite.Text.{Text}
use turkey_bite.Tbql.{Result, ok, failed, ◌>>=◌, Tok}
use turkey_bite.Tbql.Ensures.{Ensures, holds, fails, bind-Ensures, ensured}
use turkey_bite.Tbql.Parser.{
  Node, leaf, negation, conjunction, disjunction, Nodes, no_nodes, node, parse,
}
use turkey_bite.Tbql.Fields.{fields}
use turkey_bite.Tbql.Fields.Known.{InCatalogue, resolve-InCatalogue}
use turkey_bite.Tbql.Naming.{Names, NamesAll, TermNames, term_dsl-Names, free_fields}
use turkey_bite.Tbql.Dsl.{
  Dsl, must_not, filter, should, no_dsls, dsl, to_dsl, to_dsls, tree_dsl, compile_query,
}

in_catalogue : Text → Bool
in_catalogue f = elem f (map (λ g. g.name) fields)

free_known : all in_catalogue free_fields ≡ true
unfolding in_catalogue fields
free_known = refl

among_all :
    (p : Text → Bool) (f : Text) (fs : List Text) → all p fs ≡ true → elem f fs ≡ true → p f ≡ true
among_all p f [] h m = absurd (let z : ⊥ = cc in z)
among_all p f (x ∷ xs) h m =
    let (k, l) = and-eq-true (p x) _ h in
    elim (or-eq-true (f == x) (elem f xs) m) [
      | inl e ↦ rw ((list_beq_iff f x).0 e) k
      | inr n ↦ among_all p f xs l n
    ]

module _ (is_address is_time : Text → Bool) where
  catalogue_term : (t : Tok) → TermNames InCatalogue InCatalogue is_address is_time t
  unfolding in_catalogue
  catalogue_term t = record {
    asked = λ name f e. resolve-InCatalogue name f e;
    compared = λ name f _ e. resolve-InCatalogue name f e;
    free = λ _ f m. among_all in_catalogue f free_fields free_known m;
  }

  mutual
    unfolding to_dsl Names

    to_dsl-Names :
        (n : Node) → Ensures (Names InCatalogue InCatalogue) (to_dsl is_address is_time n)
    to_dsl-Names (leaf t) =
        term_dsl-Names InCatalogue InCatalogue is_address is_time t (catalogue_term t)
    to_dsl-Names (negation n) = bind-Ensures (to_dsl-Names n) λ q h. holds (must_not q) h
    to_dsl-Names (conjunction ns) = bind-Ensures (to_dsls-Names ns) λ qs h. holds (filter qs) h
    to_dsl-Names (disjunction ns) = bind-Ensures (to_dsls-Names ns) λ qs h. holds (should qs) h

    to_dsls-Names :
        (ns : Nodes) → Ensures (NamesAll InCatalogue InCatalogue) (to_dsls is_address is_time ns)
    to_dsls-Names no_nodes = holds no_dsls tt
    to_dsls-Names (node n ns) =
        bind-Ensures (to_dsl-Names n)
          λ q h. bind-Ensures (to_dsls-Names ns) λ qs hs. holds (dsl q qs) (h, hs)

  -- The DSL that a query compiles to names no field that the catalogue does not have.
  pub compile_query-Names :
      (s : Text) (q : Dsl)
      → compile_query is_address is_time s ≡ ok q
      → Names InCatalogue InCatalogue q
  unfolding compile_query Names
  compile_query-Names s q e = ensured q (whole (parse s)) e
    where
      whole :
          (r : Result (Option Node))
          → Ensures (Names InCatalogue InCatalogue) (r >>= tree_dsl is_address is_time)
      whole (ok none) = holds _ tt
      whole (ok (some n)) = to_dsl-Names n
      whole (failed m p k) = fails m p k
