-- ===== src/Queue/Names.antt =====
-- What `recover_orphans` of src/libtb/queue sweeps, and what it leaves alone.
use turkey_bite.Prelude.{
  not_both, ne_test, ℕ, ◌<◌, ◌≡◌, ◌≢◌, refl, sym, ap, ◌∙◌, inl, inr, Bool, true, false, not, ◌&&◌,
  ◌||◌, Option, none, some, List, [], ◌∷◌, ◌++◌, map, append_assoc, arith, Bool-cases, ◌==◌, nat_eq,
  list_eq, list_beq_iff, length, length-append, elem, elem_cons_false, elem-keep, keep, All, drop,
}
use turkey_bite.Text.{Text, text}
use turkey_bite.Text.Sorting.{NoRepeats, sorted_set-NoRepeats, elem-sorted_set}
use turkey_bite.Queue.Commands.{Valkey}
use turkey_bite.Queue.{
  processing_prefix, is_truthy, is_empty, is_none, base_of, candidates, orphan_test, requeue_list,
  sweep, orphans, recover_orphans,
}
use turkey_bite.Queue.Moves.{MovedBack, requeue_list_lem}

not_elem-keep :
    (p : Text → Bool) (a : Text) (xs : List Text) → elem a xs ≡ false → elem a (keep p xs) ≡ false
not_elem-keep p a xs h = elim (Bool-cases (elem a (keep p xs))) [
  | inl t ↦ let (_, m) = elem-keep p a xs t in absurd (not_both m h)
  | inr f ↦ f
]

both_not : (a b : Bool) → (not a && not b) ≡ true → (a ≡ false) × (b ≡ false)
both_not a b h = ground arith

longer_ne : (key more : Text) → 0 < length more → key ≢ key ++ more
longer_ne key more h e =
    absurd (omega (arith, ap (λ (l : Text). length l) e, length-append key more))

key_no_given :
    (key : Text) (given : List Text) → elem key (map (λ c. base_of key ++ c) given) ≡ false
key_no_given key [] = refl
key_no_given key (c ∷ cs) =
    let ne : key ≢ base_of key ++ c = λ e.
      longer_ne key (text ":" ++ processing_prefix ++ c) (omega arith)
        (e ∙ append_assoc key (text ":" ++ processing_prefix) c) in
    rw (ne_test key (base_of key ++ c) ne) (key_no_given key cs)

key_no_candidate :
    (key prefix : Text) (consumers : Option (List Text)) (scanned : List Text)
    → elem key scanned ≡ false
    → elem key (candidates key prefix consumers scanned) ≡ false
key_no_candidate key prefix (some given) scanned h = key_no_given key given
key_no_candidate key prefix none scanned h = elim (Bool-cases (is_empty prefix)) [
  | inl all ↦ rw all h
  | inr chosen ↦ rw chosen (not_elem-keep _ key scanned h)
]

module _ (v : Valkey) where
  open v use {Store, items, value}

  -- All that stands in these lists, the last list first.
  unfoldable pub gathered : Store → List Text → List Text
  gathered s [] = []
  gathered s (name ∷ names) = gathered s names ++ items s name

  -- What a sweep of `names` does: their items go to the head of the queue in one block, in the
  -- order they had in their lists; those lists are empty; every other list and every value is as
  -- before; and the second count is the number of items.
  pub record Swept (key : Text) (names : List Text) (s s' : Store) (count : ℕ) : Type 0 where
    pub at_queue : items s' key ≡ gathered s names ++ items s key
    pub emptied : (j : Text) → elem j names ≡ true → items s' j ≡ []
    pub at_others : (j : Text) → elem j names ≡ false → j ≢ key → items s' j ≡ items s j
    pub values : (j : Text) → value s' j ≡ value s j
    pub counted : count ≡ length (gathered s names)

  gathered_same :
      (s s' : Store) (names : List Text)
      → All (λ j. items s' j ≡ items s j) names
      → gathered s' names ≡ gathered s names
  unfolding gathered
  gathered_same s s' [] w = refl
  gathered_same s s' (name ∷ names) (e, w) = rw (e, gathered_same s s' names w)

  module _ (key : Text) where
    others_same :
        (name : Text) (s s' : Store) (front moved : List Text) (names : List Text)
        → MovedBack v name key s s' front moved
        → elem name names ≡ false
        → elem key names ≡ false
        → All (λ j. items s' j ≡ items s j) names
    others_same name s s' front moved [] m a b = tt
    others_same name s s' front moved (n ∷ names) m a b =
        let (ne, a') = elem_cons_false name n names a in
        let (ne', b') = elem_cons_false key n names b in
        (
          m.at_others n (λ e. ne (sym e)) (λ e. ne' (sym e)),
          others_same name s s' front moved names m a' b',
        )

    later : (a b : Bool) → a ≡ false → (a || b) ≡ true → b ≡ true
    later a b h k = ground arith

    pub sweep-Swept :
        (every : Bool) (names : List Text) (s : Store)
        → NoRepeats names
        → elem key names ≡ false
        → Swept key names s (sweep v every key names s).1 (sweep v every key names s).0.1
    unfolding sweep gathered
    sweep-Swept every [] s w k = record {
      at_queue = refl;
      emptied = λ j e. cc;
      at_others = λ j e ne. refl;
      values = λ j. refl;
      counted = refl;
    }
    sweep-Swept every (name ∷ names) s (fresh, w) k =
        let (ne, k') = elem_cons_false key name names k in
        let s1 = (requeue_list v key name s).1 in
        let (count, m) = requeue_list_lem v name key (λ e. ne (sym e)) s in
        let r = sweep-Swept every names s1 w k' in
        let same =
          gathered_same s s1 names (others_same name s s1 [] (items s name) names m fresh k') in
        record {
          at_queue =
              r.at_queue
              ∙ ap (λ (l : List Text). l ++ items s1 key) same
              ∙ ap (λ (l : List Text). gathered s names ++ l) m.at_target
              ∙ sym (append_assoc (gathered s names) (items s name) (items s key));
          emptied = λ j e. elim (Bool-cases (j == name)) [
            | inl is_name ↦
                let at_name : items (sweep v every key names s1).1 name ≡ [] =
                  r.at_others name fresh (λ q. ne (sym q)) ∙ m.at_source in
                ap (λ (t : Text). items (sweep v every key names s1).1 t)
                  ((list_beq_iff j name).0 is_name)
                ∙ at_name
            | inr other ↦ r.emptied j (later (j == name) (elem j names) other e)
          ];
          at_others = λ j e ne_key.
              let (ne_name, e') = elem_cons_false j name names e in
              r.at_others j e' ne_key ∙ m.at_others j ne_name ne_key;
          values = λ j. r.values j ∙ m.values j;
          counted = omega (
            arith,
            count,
            r.counted,
            ap (λ (l : List Text). length l) same,
            length-append (gathered s names) (items s name),
          );
        }

  -- The names that `recover_orphans` found belong to no consumer that is kept or that holds its
  -- name.
  orphan_tests :
      (key : Text) (keep_consumers : List Text) (prefix : Text) (consumers : Option (List Text))
      (scanned : List Text) (s : Store) (name : Text)
      → elem name (orphans v key keep_consumers prefix consumers scanned s) ≡ true
      → (elem name (map (λ c. base_of key ++ c) keep_consumers) ≡ false)
        × (is_truthy (value s (key ++ (text ":owner:" ++ drop (length (base_of key)) name)))
            ≡ false)
  unfolding orphans
  orphan_tests key keep_consumers prefix consumers scanned s name h =
      let (passed, _) =
        elem-keep (orphan_test v key keep_consumers s) name
          (candidates key prefix consumers scanned)
          (sym (
              elem-sorted_set name (
                keep (orphan_test v key keep_consumers s)
                  (candidates key prefix consumers scanned)))
            ∙ h) in
      both_not _ _ passed

  -- The queue itself is no processing list.
  key_no_orphan :
      (key : Text) (keep_consumers : List Text) (prefix : Text) (consumers : Option (List Text))
      (scanned : List Text) (s : Store)
      → elem key scanned ≡ false
      → elem key (orphans v key keep_consumers prefix consumers scanned s) ≡ false
  unfolding orphans
  key_no_orphan key keep_consumers prefix consumers scanned s h =
      elem-sorted_set key _
      ∙ not_elem-keep (orphan_test v key keep_consumers s) key _
          (key_no_candidate key prefix consumers scanned h)

  -- Where SCAN did not answer the queue's own name, and without others changing the lists
  -- meanwhile, `recover_orphans` sweeps lists of consumers that are neither to be kept nor hold
  -- their name: it moves their items to the head of the queue, changes no other list and no value,
  -- and returns how many items it moved.
  pub recover_orphans-Swept :
      (key : Text) (keep_consumers : List Text) (prefix : Text) (consumers : Option (List Text))
      (scanned : List Text) (s : Store)
      → elem key scanned ≡ false
      → let names = orphans v key keep_consumers prefix consumers scanned s in
        let (counts, s') = recover_orphans v key keep_consumers prefix consumers scanned s in
        Swept key names s s' counts.1
        × ((name : Text)
            → elem name names ≡ true
            → (elem name (map (λ c. base_of key ++ c) keep_consumers) ≡ false)
              × (is_truthy (value s (key ++ (text ":owner:" ++ drop (length (base_of key)) name)))
                  ≡ false))
  unfolding recover_orphans
  recover_orphans-Swept key keep_consumers prefix consumers scanned s h = (
    sweep-Swept key (is_none consumers) (orphans v key keep_consumers prefix consumers scanned s) s
        (unfold orphans in sorted_set-NoRepeats _)
        (key_no_orphan key keep_consumers prefix consumers scanned s h),
    λ name m. orphan_tests key keep_consumers prefix consumers scanned s name m,
  )
