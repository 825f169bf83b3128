-- ===== src/Builder/Rows.antt =====
-- The sorted rows of an index that `_intern` made: their names and the order of these.
use turkey_bite.Prelude.{
  ℕ, ◌≡◌, subst, refl, sym, ap, ◌∙◌, inl, inr, Bool, true, false, ◌&&◌, ◌≢◌, List, [], ◌∷◌, ◌++◌,
  map, reverse, reverse-reverse, append-nil, arith, Bool-cases, or-eq-false, ◌==◌, nat_eq, list_eq,
  nat_beq_iff, elem, elem_cons_false, ltb, All, All-map, All-reverse, All-append, All-append_left,
  All-append_right,
}
use turkey_bite.Prelude.Members.{In, here, there}
use turkey_bite.Text.{Text, split, join}
use turkey_bite.Text.Labels.{join-split, split-join, split-IsLabel, split-ne-nil, IsLabel}
use turkey_bite.Text.Sorting.{NoRepeats}
use turkey_bite.Index.{reverse_labels, less}
use turkey_bite.Index.Search.{IsSorted, less_trans}
use turkey_bite.Builder.{
  Entries, Coded, claimed_eq, sort_coded, Names, encode, Interned, add_row, intern_entries,
  interned, nothing_interned, insert_row, sort_rows,
}
use turkey_bite.Builder.Collected.{turn}

-- Reversing the labels of a name twice gives it back.
pub reverse_labels_twice : (s : Text) → reverse_labels (reverse_labels s) ≡ s
unfolding reverse_labels
reverse_labels_twice s =
    ap (λ ls. join b'.' (reverse ls))
      (halves (reverse (split b'.' s)) reversed-ne-nil
        (All-reverse (IsLabel b'.') (split b'.' s) (split-IsLabel b'.' s)))
    ∙ ap (join b'.') (reverse-reverse (split b'.' s))
    ∙ join-split b'.' s
  where
    reversed-ne-nil : reverse (split b'.' s) ≢ []
    reversed-ne-nil e = split-ne-nil b'.' s (sym (reverse-reverse (split b'.' s)) ∙ ap reverse e)

    halves : (ls : List Text) → ls ≢ [] → All (IsLabel b'.') ls → split b'.' (join b'.' ls) ≡ ls
    halves [] n h = absurd (n refl)
    halves (l ∷ ls) n h = split-join b'.' l ls h

pub reverse_labels_injective : (s t : Text) → reverse_labels s ≡ reverse_labels t → s ≡ t
reverse_labels_injective s t e =
    sym (reverse_labels_twice s) ∙ ap reverse_labels e ∙ reverse_labels_twice t

less_total : (a b : Text) → less a b ≡ false → a ≢ b → less b a ≡ true
less_total [] [] h n = absurd (n refl)
less_total [] (y ∷ ys) h n = absurd (let z : ⊥ = cc in z)
less_total (x ∷ xs) [] h n = refl
less_total (x ∷ xs) (y ∷ ys) h n =
    let (ge, k) = or-eq-false (ltb x y) _ h in
    elim (Bool-cases (ltb y x)) [
      | inl lt ↦ rw lt refl
      | inr le ↦
          let e : x ≡ y = middle x y ge le in
          let rest =
            less_total xs ys (either (x == y) (less xs ys) ((nat_beq_iff x y).1 e) k)
              (λ d. n (same x y xs ys e d)) in
          rw (le, (nat_beq_iff y x).1 (sym e), rest) refl
    ]
  where
    middle : (a b : ℕ) → ltb a b ≡ false → ltb b a ≡ false → a ≡ b
    middle a b h k = ground arith

    either : (a b : Bool) → a ≡ true → (a && b) ≡ false → b ≡ false
    either a b h k = ground arith

    same : (a b : ℕ) (s t : Text) → a ≡ b → s ≡ t → a ∷ s ≡ b ∷ t
    same a b s t h k = cc

abbrev pub row_names : List (Text × ℕ) → List Text
row_names rows = map (λ r. r.0) rows

module _ (q : Text × ℕ) where
  insert_row-In :
      (r : Text × ℕ) (rows : List (Text × ℕ)) → In q (insert_row r rows) → In q (r ∷ rows)
  insert_row-In r [] m = m
  insert_row-In r (s ∷ rows) m = elim (Bool-cases (less s.0 r.0)) [
    | inl later ↦ elim (rw later at m) [
      | here e ↦ there (here e)
      | there n ↦ elim (insert_row-In r rows n) [ here e ↦ here e | there k ↦ there (there k) ]
    ]
    | inr now ↦ rw now at m
  ]

  In-insert_row :
      (r : Text × ℕ) (rows : List (Text × ℕ)) → In q (r ∷ rows) → In q (insert_row r rows)
  In-insert_row r [] m = m
  In-insert_row r (s ∷ rows) m = elim (Bool-cases (less s.0 r.0)) [
    | inl later ↦ rw later (elim m [
      | here e ↦ there (In-insert_row r rows (here e))
      | there n ↦ elim n [ here e ↦ here e | there k ↦ there (In-insert_row r rows (there k)) ]
    ])
    | inr now ↦ rw now m
  ]

  pub sort_rows-In : (rows : List (Text × ℕ)) → In q (sort_rows rows) → In q rows
  unfolding sort_rows
  sort_rows-In [] m = m
  sort_rows-In (r ∷ rows) m = elim (insert_row-In r (sort_rows rows) m) [
    | here e ↦ here e
    | there n ↦ there (sort_rows-In rows n)
  ]

  pub In-sort_rows : (rows : List (Text × ℕ)) → In q rows → In q (sort_rows rows)
  unfolding sort_rows
  In-sort_rows [] m = m
  In-sort_rows (r ∷ rows) (here e) = In-insert_row r (sort_rows rows) (here e)
  In-sort_rows (r ∷ rows) (there m) = In-insert_row r (sort_rows rows) (there (In-sort_rows rows m))

insert_row-All :
    (P : Text → Type 0) (r : Text × ℕ) (rows : List (Text × ℕ))
    → P r.0
    → All P (row_names rows)
    → All P (row_names (insert_row r rows))
insert_row-All P r [] p h = (p, tt)
insert_row-All P r (s ∷ rows) p (h, k) = elim (Bool-cases (less s.0 r.0)) [
  | inl later ↦ rw later (h, insert_row-All P r rows p k)
  | inr now ↦ rw now (p, (h, k))
]

insert_row-IsSorted :
    (r : Text × ℕ) (rows : List (Text × ℕ))
    → All (λ t. r.0 ≢ t) (row_names rows)
    → IsSorted (row_names rows)
    → IsSorted (row_names (insert_row r rows))
insert_row-IsSorted r [] f s = (tt, tt)
insert_row-IsSorted r (q ∷ rows) (n, f) (h, s) = elim (Bool-cases (less q.0 r.0)) [
  | inl later ↦
      rw later
        (insert_row-All (λ t. less q.0 t ≡ true) r rows later h, insert_row-IsSorted r rows f s)
  | inr now ↦
      let lt = less_total q.0 r.0 now (λ e. n (sym e)) in
      rw now ((lt, All-map (λ t k. less_trans r.0 q.0 t lt k) (row_names rows) h), (h, s))
]

-- No name stands twice.
abbrev pub Distinct : List Text → Type 0
Distinct [] = Unit
Distinct (t ∷ ts) = All (λ u. t ≢ u) ts × Distinct ts

sort_rows-All :
    (P : Text → Type 0) (rows : List (Text × ℕ))
    → All P (row_names rows)
    → All P (row_names (sort_rows rows))
unfolding sort_rows
sort_rows-All P [] h = tt
sort_rows-All P (r ∷ rows) (p, h) = insert_row-All P r (sort_rows rows) p (sort_rows-All P rows h)

pub sort_rows-IsSorted :
    (rows : List (Text × ℕ)) → Distinct (row_names rows) → IsSorted (row_names (sort_rows rows))
unfolding sort_rows
sort_rows-IsSorted [] h = tt
sort_rows-IsSorted (r ∷ rows) (f, h) =
    insert_row-IsSorted r (sort_rows rows) (sort_rows-All (λ t. r.0 ≢ t) rows f)
      (sort_rows-IsSorted rows h)

Distinct-without :
    (xs : List Text) (y : Text) (ys : List Text) → Distinct (xs ++ y ∷ ys) → Distinct (xs ++ ys)
Distinct-without [] y ys (_, h) = h
Distinct-without (x ∷ xs) y ys (f, h) = (
  All-append (λ u. x ≢ u) xs ys (All-append_left (λ u. x ≢ u) xs (y ∷ ys) f)
      (All-append_right (λ u. x ≢ u) xs (y ∷ ys) f).1,
  Distinct-without xs y ys h,
)

row_names-append :
    (rows : List (Text × ℕ)) (r : Text × ℕ) (ts : List Text)
    → row_names (rows ++ r ∷ []) ++ ts ≡ row_names rows ++ r.0 ∷ ts
row_names-append [] r ts = refl
row_names-append (q ∷ rows) r ts = ap (λ l. q.0 ∷ l) (row_names-append rows r ts)

-- The names that the entries to come will have.
abbrev key_names : Entries → List Text
key_names entries = map (λ e. reverse_labels e.0) entries

add_row-Distinct :
    (domain : Text) (co : Coded) (n : Names) (b : Interned) (ts : List Text)
    → Distinct (row_names b.rows ++ reverse_labels domain ∷ ts)
    → Distinct (row_names (add_row domain co n b).rows ++ ts)
add_row-Distinct domain [] n b ts h =
    Distinct-without (row_names b.rows) (reverse_labels domain) ts h
add_row-Distinct domain (c ∷ co) n b ts h = subst Distinct (sym (row_names-append b.rows _ ts)) h

intern_entries-Distinct :
    (entries : Entries) (b : Interned)
    → Distinct (row_names b.rows ++ key_names entries)
    → Distinct (row_names (intern_entries entries b).rows)
unfolding intern_entries
intern_entries-Distinct [] b h = subst Distinct (append-nil (row_names b.rows)) h
intern_entries-Distinct ((domain, said) ∷ entries) b h =
    intern_entries-Distinct entries (turn domain said b) (
      add_row-Distinct domain (sort_coded (encode said b.names).0) (encode said b.names).1 b
        (key_names entries) h)

key_names-Distinct :
    (entries : Entries) → NoRepeats (map (λ e. e.0) entries) → Distinct (key_names entries)
key_names-Distinct [] h = tt
key_names-Distinct ((domain, said) ∷ entries) (f, h) =
    (apart entries f, key_names-Distinct entries h)
  where
    apart :
        (es : Entries)
        → elem domain (map (λ e. e.0) es) ≡ false
        → All (λ u. reverse_labels domain ≢ u) (key_names es)
    apart [] h = tt
    apart ((d, t) ∷ es) h =
        let (n, k) = elem_cons_false domain d (map (λ e. e.0) es) h in
        ((λ e. n (reverse_labels_injective domain d e)), apart es k)

pub interned-Distinct :
    (entries : Entries)
    → NoRepeats (map (λ e. e.0) entries)
    → Distinct (row_names (interned entries).rows)
unfolding interned
interned-Distinct entries h =
    intern_entries-Distinct entries nothing_interned (key_names-Distinct entries h)
