-- ===== src/Queue/Moves.antt =====
-- What the loops of src/libtb/queue that move items one at a time leave behind.
use turkey_bite.Prelude.{
  ne_test, ℕ, zero, suc, ◌+◌, ◌-◌, ◌<◌, ◌≡◌, ◌≢◌, refl, sym, ap, ◌∙◌, inl, inr, true, none, List,
  [], ◌∷◌, ◌++◌, append_assoc, append-nil, arith, Option-cases, ltb, nat_eq, list_eq, eq_refl,
  length, take, drop, length-append, split_last,
}
use Prim.Native.Nat.add
use mathlib.Core.Path.{subst}
use turkey_bite.Text.{Text}
use turkey_bite.Queue.Commands.{Valkey}
use turkey_bite.Queue.{ListQueue, requeue_slack, move_back, requeue_list, claim_script, claim}

module _ (v : Valkey) where
  open v use {
    Store, items, value, lmove_left, lmove_right, lmove_left_empty, lmove_left_answer,
    items-lmove_left, value-lmove_left, lmove_right_empty, lmove_right_answer, items-lmove_right,
    value-lmove_right,
  }

  -- From `s` to `s'` the items `moved` left the end of `source`, where `front` stays, and arrived
  -- before those of `target`, in their order. Nothing else changed.
  pub record MovedBack (source target : Text) (s s' : Store) (front moved : List Text)
      : Type 0 where
    pub at_source : items s' source ≡ front
    pub at_target : items s' target ≡ moved ++ items s target
    pub at_others : (j : Text) → j ≢ source → j ≢ target → items s' j ≡ items s j
    pub values : (j : Text) → value s' j ≡ value s j

  -- From `s` to `s'` the items `moved` left the head of `source`, where `rest` stays, and arrived
  -- behind those of `target`, in their order. Nothing else changed.
  pub record MovedOn (source target : Text) (s s' : Store) (rest moved : List Text) : Type 0 where
    pub at_source : items s' source ≡ rest
    pub at_target : items s' target ≡ items s target ++ moved
    pub at_others : (j : Text) → j ≢ source → j ≢ target → items s' j ≡ items s j
    pub values : (j : Text) → value s' j ≡ value s j

  module _ (a b : Text) (apart : a ≢ b) where
    still_back : (s : Store) (front : List Text) → items s a ≡ front → MovedBack a b s s front []
    still_back s front e = record {
      at_source = e;
      at_target = refl;
      at_others = λ j p q. refl;
      values = λ j. refl;
    }

    still_on : (s : Store) (rest : List Text) → items s a ≡ rest → MovedOn a b s s rest []
    still_on s rest e = record {
      at_source = e;
      at_target = sym (append-nil (items s b));
      at_others = λ j p q. refl;
      values = λ j. refl;
    }

    one_back :
        (s : Store) (front : List Text) (x : Text)
        → items s a ≡ front ++ x ∷ []
        → MovedBack a b s (lmove_right a b s).1 front (x ∷ [])
    one_back s front x e = record {
      at_source = items-lmove_right a b s front x a e apart ∙ rw (eq_refl a);
      at_target =
          items-lmove_right a b s front x b e apart
          ∙ rw (ne_test b a (λ q. apart (sym q)), eq_refl b);
      at_others =
          λ j p q. items-lmove_right a b s front x j e apart ∙ rw (ne_test j a p, ne_test j b q);
      values = λ j. value-lmove_right a b s j;
    }

    one_on :
        (s : Store) (x : Text) (rest : List Text)
        → items s a ≡ x ∷ rest
        → MovedOn a b s (lmove_left a b s).1 rest (x ∷ [])
    one_on s x rest e = record {
      at_source = items-lmove_left a b s x rest a e apart ∙ rw (eq_refl a);
      at_target =
          items-lmove_left a b s x rest b e apart
          ∙ rw (ne_test b a (λ q. apart (sym q)), eq_refl b);
      at_others =
          λ j p q. items-lmove_left a b s x rest j e apart ∙ rw (ne_test j a p, ne_test j b q);
      values = λ j. value-lmove_left a b s j;
    }

    back_then :
        (s s' s'' : Store) (front moved : List Text) (x : Text)
        → MovedBack a b s s' (front ++ moved) (x ∷ [])
        → MovedBack a b s' s'' front moved
        → MovedBack a b s s'' front (moved ++ x ∷ [])
    back_then s s' s'' front moved x m n = record {
      at_source = n.at_source;
      at_target =
          n.at_target
          ∙ ap (λ (l : List Text). moved ++ l) m.at_target
          ∙ sym (append_assoc moved (x ∷ []) (items s b));
      at_others = λ j p q. n.at_others j p q ∙ m.at_others j p q;
      values = λ j. n.values j ∙ m.values j;
    }

    on_then :
        (s s' s'' : Store) (x : Text) (middle rest moved : List Text)
        → MovedOn a b s s' middle (x ∷ [])
        → MovedOn a b s' s'' rest moved
        → MovedOn a b s s'' rest (x ∷ moved)
    on_then s s' s'' x middle rest moved m n = record {
      at_source = n.at_source;
      at_target =
          n.at_target
          ∙ ap (λ (l : List Text). l ++ moved) m.at_target
          ∙ append_assoc (items s b) (x ∷ []) moved;
      at_others = λ j p q. n.at_others j p q ∙ m.at_others j p q;
      values = λ j. n.values j ∙ m.values j;
    }

    move_back_step :
        (n : ℕ) (s : Store) (front : List Text) (x : Text)
        → items s a ≡ front ++ x ∷ []
        → move_back v (suc n) a b s ≡ (
          suc (move_back v n a b (lmove_right a b s).1).0,
          (move_back v n a b (lmove_right a b s).1).1,
        )
    unfolding move_back
    move_back_step n s front x e = rw (lmove_right_answer a b s front x e, move_back)

    move_back_empty : (n : ℕ) (s : Store) → items s a ≡ [] → move_back v n a b s ≡ (0, s)
    unfolding move_back
    move_back_empty zero s e = refl
    move_back_empty (suc n) s e =
        let answer : (lmove_right a b s).0 ≡ none = ap (λ r. r.0) (lmove_right_empty a b s e) in
        let same : (lmove_right a b s).1 ≡ s = ap (λ r. r.1) (lmove_right_empty a b s e) in
        rw (answer, same, move_back)

    -- Moving as many items as stand behind `front`.
    pub move_back_count :
        (n : ℕ) (s : Store) (front moved : List Text)
        → items s a ≡ front ++ moved
        → length moved ≡ n
        → ((move_back v n a b s).0 ≡ n) × MovedBack a b s (move_back v n a b s).1 front moved
    unfolding move_back
    move_back_count zero s front [] e len = (refl, still_back s front (e ∙ append-nil front))
    move_back_count zero s front (x ∷ xs) e len = absurd (omega arith)
    move_back_count (suc n) s front [] e len = absurd (omega arith)
    move_back_count (suc n) s front (x ∷ xs) e len =
        let (ys, y, split) = split_last x xs in
        let e' : items s a ≡ (front ++ ys) ++ y ∷ [] =
          e
          ∙ ap (λ (l : List Text). front ++ l) (sym split)
          ∙ sym (append_assoc front ys (y ∷ [])) in
        let size : length ys ≡ n =
          omega (arith, ap (λ (l : List Text). length l) split, length-append ys (y ∷ [])) in
        let one = one_back s (front ++ ys) y e' in
        let (count, rest) = move_back_count n (lmove_right a b s).1 front ys one.at_source size in
        rw (move_back_step n s (front ++ ys) y e') (
          ap suc count,
          subst
              (λ (l : List Text).
                MovedBack a b s (move_back v n a b (lmove_right a b s).1).1 front l)
              split (back_then s (lmove_right a b s).1 _ front ys y one rest),
        )

    -- Moving with room to spare empties the list.
    pub move_back_all :
        (spare n : ℕ) (s : Store) (moved : List Text)
        → items s a ≡ moved
        → length moved ≡ n
        → ((move_back v (n + spare) a b s).0 ≡ n)
          × MovedBack a b s (move_back v (n + spare) a b s).1 [] moved
    move_back_all spare zero s [] e len =
        rw (add.zero, move_back_empty spare s e) (refl, still_back s [] e)
    move_back_all spare zero s (x ∷ xs) e len = absurd (omega arith)
    move_back_all spare (suc n) s [] e len = absurd (omega arith)
    move_back_all spare (suc n) s (x ∷ xs) e len =
        let (ys, y, split) = split_last x xs in
        let e' : items s a ≡ ys ++ y ∷ [] = e ∙ sym split in
        let size : length ys ≡ n =
          omega (arith, ap (λ (l : List Text). length l) split, length-append ys (y ∷ [])) in
        let one = one_back s ys y e' in
        let (count, rest) = move_back_all spare n (lmove_right a b s).1 ys one.at_source size in
        rw (add.suc, move_back_step (n + spare) s ys y e')
          (
            ap suc count,
            subst
                (λ (l : List Text).
                  MovedBack a b s (move_back v (n + spare) a b (lmove_right a b s).1).1 [] l)
                split (back_then s (lmove_right a b s).1 _ [] ys y one rest),
          )

    -- Without others moving items meanwhile, `requeue_list` moves every item of the list to the
    -- head of the queue, in order, and counts them.
    pub requeue_list_lem :
        (s : Store)
        → ((requeue_list v b a s).0 ≡ length (items s a))
          × MovedBack a b s (requeue_list v b a s).1 [] (items s a)
    unfolding requeue_list
    requeue_list_lem s = move_back_all requeue_slack (length (items s a)) s (items s a) refl refl

  -- The two lists of a queue object are not one.
  abbrev pub IsApart : ListQueue → Type 0
  IsApart q = q.key ≢ q.processing_key

  module _ (q : ListQueue) (apart : IsApart q) where
    claim_script-MovedOn :
        (n : ℕ) (s : Store) (xs : List Text)
        → items s q.key ≡ xs
        → ((claim_script v n q s).0 ≡ take n xs)
          × MovedOn q.key q.processing_key s (claim_script v n q s).1 (drop n xs) (take n xs)
    unfolding claim_script
    claim_script-MovedOn zero s xs e = (refl, still_on q.key q.processing_key apart s xs e)
    claim_script-MovedOn (suc n) s [] e =
        let empty = lmove_left_empty q.key q.processing_key s e in
        let answer : (lmove_left q.key q.processing_key s).0 ≡ none = ap (λ r. r.0) empty in
        let same : (lmove_left q.key q.processing_key s).1 ≡ s = ap (λ r. r.1) empty in
        rw (answer, same, claim_script) (refl, still_on q.key q.processing_key apart s [] e)
    claim_script-MovedOn (suc n) s (x ∷ xs) e =
        let one = one_on q.key q.processing_key apart s x xs e in
        let (count, rest) =
          claim_script-MovedOn n (lmove_left q.key q.processing_key s).1 xs one.at_source in
        rw (lmove_left_answer q.key q.processing_key s x xs e, claim_script)
          (
            ap (λ (l : List Text). x ∷ l) count,
            on_then q.key q.processing_key apart s _ _ x xs (drop n xs) (take n xs) one rest,
          )

    claim-eq-script : (n : ℕ) (s : Store) → claim v q (suc n) s ≡ claim_script v (suc n) q s
    unfolding claim claim_script
    claim-eq-script zero s = elim (Option-cases (lmove_left q.key q.processing_key s).0) [
      | inl empty ↦ rw (empty, claim, claim_script)
      | inr (item, found) ↦ rw (found, claim, claim_script)
    ]
    claim-eq-script (suc n) s =
        let more : ltb 1 (suc (suc n)) ≡ true = ground arith in
        let fewer : suc (suc n) - 1 ≡ suc n = omega arith in
        elim (Option-cases (lmove_left q.key q.processing_key s).0) [
          | inl empty ↦ rw (empty, claim, claim_script)
          | inr (item, found) ↦ rw (found, claim, claim_script) (rw (more, fewer))
        ]

    -- A claim of at least one item takes that many from the head of the queue, or all there are,
    -- returns them, and appends them to the processing list. Nothing else changes.
    pub claim-MovedOn :
        (n : ℕ) (s : Store)
        → 0 < n
        → ((claim v q n s).0 ≡ take n (items s q.key))
          × MovedOn q.key q.processing_key s
              (claim v q n s).1
              (drop n (items s q.key))
              (take n (items s q.key))
    claim-MovedOn zero s h = absurd (omega arith)
    claim-MovedOn (suc n) s h =
        rw (claim-eq-script n s) (claim_script-MovedOn (suc n) s (items s q.key) refl)
