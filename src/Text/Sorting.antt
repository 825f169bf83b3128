-- ===== src/Text/Sorting.antt =====
-- What `sorted(set(texts))` holds: the same texts, each once.
use turkey_bite.Prelude.{
  or_false, ◌≡◌, refl, ap, ◌∙◌, inl, inr, Bool, true, false, ◌||◌, List, [], ◌∷◌, arith, Bool-cases,
  ◌==◌, nat_eq, list_eq, list_beq_iff, elem,
}
use turkey_bite.Text.{Text, text_leb, insert_sorted, insert_new, sorted_set}

-- No text stands twice in the list: its length is the size of the set.
abbrev pub NoRepeats : List Text → Type 0
NoRepeats [] = Unit
NoRepeats (t ∷ ts) = (elem t ts ≡ false) × NoRepeats ts

or_swap : (a b c d : Bool) → d ≡ (a || c) → (b || d) ≡ (a || (b || c))
or_swap a b c d h = ground arith

elem-insert_sorted :
    (a t : Text) (us : List Text) → elem a (insert_sorted t us) ≡ (a == t || elem a us)
elem-insert_sorted a t [] = refl
elem-insert_sorted a t (u ∷ us) = elim (Bool-cases (text_leb t u)) [
  | inl before ↦ rw before
  | inr after ↦ rw after (
      or_swap (a == t) (a == u) (elem a us) (elem a (insert_sorted t us))
        (elem-insert_sorted a t us))
]

eq_test_sym : (a b : Text) → (a == b) ≡ (b == a)
eq_test_sym a b = elim (Bool-cases (a == b)) [
  | inl t ↦ rw ((list_beq_iff a b).0 t)
  | inr f ↦ elim (Bool-cases (b == a)) [ inl t ↦ rw ((list_beq_iff b a).0 t) | inr g ↦ rw (f, g) ]
]

left_false : (a b : Bool) → (a || b) ≡ false → a ≡ false
left_false a b h = ground arith

right_false : (a b : Bool) → (a || b) ≡ false → b ≡ false
right_false a b h = ground arith

insert_sorted-NoRepeats :
    (t : Text) (us : List Text) → elem t us ≡ false → NoRepeats us → NoRepeats (insert_sorted t us)
insert_sorted-NoRepeats t [] h w = (refl, tt)
insert_sorted-NoRepeats t (u ∷ us) h w = elim (Bool-cases (text_leb t u)) [
  | inl before ↦ rw before (h, w)
  | inr after ↦ rw after (
    elem-insert_sorted u t us
        ∙ or_false (u == t) (elem u us) (eq_test_sym u t ∙ left_false (t == u) (elem t us) h) w.0,
    insert_sorted-NoRepeats t us (right_false (t == u) (elem t us) h) w.1,
  )
]

pub sorted_set-NoRepeats : (ts : List Text) → NoRepeats (sorted_set ts)
unfolding sorted_set
sorted_set-NoRepeats [] = tt
sorted_set-NoRepeats (t ∷ ts) = elim (Bool-cases (elem t (sorted_set ts))) [
  | inl old ↦ rw (old, sorted_set) (sorted_set-NoRepeats ts)
  | inr new ↦
      rw (new, sorted_set) (insert_sorted-NoRepeats t (sorted_set ts) new (sorted_set-NoRepeats ts))
]

absorb : (a b c : Bool) → (a ≡ true → c ≡ true) → c ≡ (a || c)
absorb true b c h = h refl
absorb false b c h = refl

elem-insert_new : (a t : Text) (us : List Text) → elem a (insert_new t us) ≡ (a == t || elem a us)
elem-insert_new a t us = elim (Bool-cases (elem t us)) [
  | inl old ↦ rw old (absorb (a == t) true (elem a us) (λ e. rw ((list_beq_iff a t).0 e) old))
  | inr new ↦ rw new (elem-insert_sorted a t us)
]

-- A text is in the sorted set exactly if it is in the list.
pub elem-sorted_set : (a : Text) (ts : List Text) → elem a (sorted_set ts) ≡ elem a ts
unfolding sorted_set
elem-sorted_set a [] = refl
elem-sorted_set a (t ∷ ts) =
    elem-insert_new a t (sorted_set ts) ∙ ap (λ (b : Bool). a == t || b) (elem-sorted_set a ts)
