-- ===== src/Index/Search.antt =====
-- The binary search `_find` of src/libtb/index.
use turkey_bite.Prelude.{
  not_both, or_false, ℕ, zero, suc, ◌+◌, ◌/◌, ◌≤◌, ◌<◌, ◌≡◌, refl, sym, ap, ◌∙◌, ◌↔◌, ◌⊎◌, inl, inr,
  Bool, true, false, ◌&&◌, ◌||◌, none, some, List, [], ◌∷◌, arith, length, All, ltb, ltb→lt,
  ltb-eq-false, if◌then◌else◌, Bool-cases, and-eq-true, or-eq-true, ◌==◌, nat_eq, list_eq,
  nat_beq_iff, list_beq_iff,
}
use turkey_bite.Text.{Text}
use turkey_bite.Index.{File, less, name_at, domain_at, find_from, exact, find}

less_irrefl : (a : Text) → less a a ≡ false
less_irrefl [] = refl
less_irrefl (x ∷ xs) = or_false _ _ (same x) (and_false _ _ (less_irrefl xs))
  where
    same : (n : ℕ) → ltb n n ≡ false
    same n = ground arith

    and_false : (a b : Bool) → b ≡ false → (a && b) ≡ false
    and_false a b h = ground arith

less_cons :
    (x y : ℕ) (xs ys : Text)
    → less (x ∷ xs) (y ∷ ys) ≡ true
    → (x < y) ⊎ ((x ≡ y) × (less xs ys ≡ true))
less_cons x y xs ys h = elim (or-eq-true (ltb x y) _ h) [
  | inl lt ↦ inl (ltb→lt x y lt)
  | inr w ↦ let (e, l) = and-eq-true (x == y) _ w in inr ((nat_beq_iff x y).0 e, l)
]

cons_less :
    (x y : ℕ) (xs ys : Text)
    → (x < y) ⊎ ((x ≡ y) × (less xs ys ≡ true))
    → less (x ∷ xs) (y ∷ ys) ≡ true
cons_less x y xs ys (inl lt) = left (ltb x y) _ (below x y lt)
  where
    below : (a b : ℕ) → a < b → ltb a b ≡ true
    below a b h = ground arith

    left : (a b : Bool) → a ≡ true → (a || b) ≡ true
    left a b h = ground arith
cons_less x y xs ys (inr (e, l)) = right (ltb x y) _ _ ((nat_beq_iff x y).1 e) l
  where
    right : (a b c : Bool) → b ≡ true → c ≡ true → (a || (b && c)) ≡ true
    right a b c h k = ground arith

pub less_trans : (a b c : Text) → less a b ≡ true → less b c ≡ true → less a c ≡ true
less_trans [] [] c h k = k
less_trans [] (y ∷ ys) [] h k = absurd (let z : ⊥ = cc in z)
less_trans [] (y ∷ ys) (z ∷ zs) h k = refl
less_trans (x ∷ xs) [] c h k = absurd (let z : ⊥ = cc in z)
less_trans (x ∷ xs) (y ∷ ys) [] h k = absurd (let z : ⊥ = cc in z)
less_trans (x ∷ xs) (y ∷ ys) (z ∷ zs) h k = cons_less x z xs zs (elim (less_cons x y xs ys h) [
  | inl p ↦ elim (less_cons y z ys zs k) [
    | inl q ↦ inl (omega (arith, p, q))
    | inr (e, _) ↦ inl (omega (arith, p, e))
  ]
  | inr (d, l) ↦ elim (less_cons y z ys zs k) [
    | inl q ↦ inl (omega (arith, d, q))
    | inr (e, m) ↦ inr (d ∙ e, less_trans xs ys zs l m)
  ]
])

-- The names stand in order, and none stands twice.
abbrev pub IsSorted : List Text → Type 0
IsSorted [] = Unit
IsSorted (x ∷ xs) = All (λ y. less x y ≡ true) xs × IsSorted xs

All_name_at :
    (P : Text → Type 0) (xs : List Text) (i : ℕ) → All P xs → i < length xs → P (name_at i xs)
All_name_at P [] i h b = absurd (omega (arith, b))
All_name_at P (x ∷ xs) zero (h, _) b = h
All_name_at P (x ∷ xs) (suc i) (_, h) b = All_name_at P xs i h (omega (arith, b))

less_at :
    (xs : List Text) (i j : ℕ)
    → IsSorted xs
    → i < j
    → j < length xs
    → less (name_at i xs) (name_at j xs) ≡ true
less_at [] i j s lt b = absurd (omega (arith, b))
less_at (x ∷ xs) i zero s lt b = absurd (omega (arith, lt))
less_at (x ∷ xs) zero (suc j) (h, _) lt b = All_name_at _ xs j h (omega (arith, b))
less_at (x ∷ xs) (suc i) (suc j) (_, s) lt b =
    less_at xs i j s (omega (arith, lt)) (omega (arith, b))

module _ (file : File) (target : Text) where
  -- Where the loop's bounds stand: the names before `lo` are less, those from `hi` on are not.
  record Bounds (lo hi : ℕ) : Type 0 where
    ordered : lo ≤ hi
    inside : hi ≤ length file.names
    before : (j : ℕ) → j < lo → less (name_at j file.names) target ≡ true
    after : (j : ℕ) → hi ≤ j → j < length file.names → less (name_at j file.names) target ≡ false

  find_none : (lo hi : ℕ) → find_from 0 file target lo hi ≡ lo
  unfolding find_from
  find_none lo hi = refl

  find_done : (k lo hi : ℕ) → ltb lo hi ≡ false → find_from (suc k) file target lo hi ≡ lo
  unfolding find_from
  find_done k lo hi h = rw (find_from, h)

  find_right :
      (k lo hi : ℕ)
      → ltb lo hi ≡ true
      → less (name_at ((lo + hi) / 2) file.names) target ≡ true
      → find_from (suc k) file target lo hi ≡ find_from k file target ((lo + hi) / 2 + 1) hi
  unfolding find_from domain_at
  find_right k lo hi h l = rw (find_from, h, l)

  find_left :
      (k lo hi : ℕ)
      → ltb lo hi ≡ true
      → less (name_at ((lo + hi) / 2) file.names) target ≡ false
      → find_from (suc k) file target lo hi ≡ find_from k file target lo ((lo + hi) / 2)
  unfolding find_from domain_at
  find_left k lo hi h l = rw (find_from, h, l)

  closed : (lo hi : ℕ) → Bounds lo hi → hi ≤ lo → Bounds lo lo
  closed lo hi b le = record {
    ordered = omega arith;
    inside = omega (arith, b.ordered, b.inside);
    before = b.before;
    after = λ j above bound. b.after j (omega (arith, le, above)) bound;
  }

  module _ (sorted : IsSorted file.names) where
    raise_low :
        (lo hi mid : ℕ)
        → Bounds lo hi
        → mid < hi
        → less (name_at mid file.names) target ≡ true
        → Bounds (mid + 1) hi
    raise_low lo hi mid b under h = record {
      ordered = omega (arith, under);
      inside = b.inside;
      before = λ j lt. upto j (omega (arith, lt)) (Bool-cases (ltb j mid));
      after = b.after;
    }
      where
        upto :
            (j : ℕ)
            → j ≤ mid
            → (ltb j mid ≡ true) ⊎ (ltb j mid ≡ false)
            → less (name_at j file.names) target ≡ true
        upto j le (inl lt) =
            less_trans (name_at j file.names) (name_at mid file.names) target
              (less_at file.names j mid sorted (ltb→lt j mid lt) (omega (arith, under, b.inside))) h
        upto j le (inr ge) = let e : j ≡ mid = omega (arith, le, ltb-eq-false j mid ge) in rw e h

    lower_high :
        (lo hi mid : ℕ)
        → Bounds lo hi
        → lo ≤ mid
        → mid < hi
        → less (name_at mid file.names) target ≡ false
        → Bounds lo mid
    lower_high lo hi mid b above under h = record {
      ordered = above;
      inside = omega (arith, under, b.inside);
      before = b.before;
      after = λ j le bound. from j le bound (Bool-cases (ltb mid j));
    }
      where
        from :
            (j : ℕ)
            → mid ≤ j
            → j < length file.names
            → (ltb mid j ≡ true) ⊎ (ltb mid j ≡ false)
            → less (name_at j file.names) target ≡ false
        from j le bound (inl lt) = elim (Bool-cases (less (name_at j file.names) target)) [
          | inl t ↦ absurd (
              not_both
                (less_trans (name_at mid file.names) (name_at j file.names) target
                  (less_at file.names mid j sorted (ltb→lt mid j lt) bound) t)
                h)
          | inr f ↦ f
        ]
        from j le bound (inr ge) =
            let e : j ≡ mid = omega (arith, le, ltb-eq-false mid j ge) in rw e h

    find_from-Bounds :
        (k lo hi : ℕ)
        → Bounds lo hi
        → hi ≤ lo + k
        → Bounds (find_from k file target lo hi) (find_from k file target lo hi)
    find_from-Bounds zero lo hi b enough =
        rw (find_none lo hi) (closed lo hi b (omega (arith, enough)))
    find_from-Bounds (suc k) lo hi b enough = elim (Bool-cases (ltb lo hi)) [
      | inl more ↦
          let lt = ltb→lt lo hi more in
          let under : (lo + hi) / 2 < hi = omega (arith, lt) in
          let above : lo ≤ (lo + hi) / 2 = omega (arith, lt) in
          elim (Bool-cases (less (name_at ((lo + hi) / 2) file.names) target)) [
            | inl l ↦ rw (find_right k lo hi more l) (
                find_from-Bounds k ((lo + hi) / 2 + 1) hi
                  (raise_low lo hi ((lo + hi) / 2) b under l) (omega (arith, above, enough)))
            | inr g ↦ rw (find_left k lo hi more g) (
                find_from-Bounds k lo ((lo + hi) / 2)
                  (lower_high lo hi ((lo + hi) / 2) b above under g) (omega (arith, under, enough)))
          ]
      | inr done ↦ rw (find_done k lo hi done) (closed lo hi b (ltb-eq-false lo hi done))
    ]

    found-Bounds :
        Bounds
          (find_from (length file.names) file target 0 (length file.names))
          (find_from (length file.names) file target 0 (length file.names))
    found-Bounds =
        find_from-Bounds (length file.names) 0 (length file.names)
          record {
            ordered = omega arith;
            inside = omega arith;
            before = λ j lt. absurd (omega (arith, lt));
            after = λ j le bound. absurd (omega (arith, le, bound));
          }
          (omega arith)

    is_at : (r i : ℕ) → Bounds r r → i < length file.names → name_at i file.names ≡ target → r ≡ i
    is_at r i b bound e =
        let not_after : (r < i) → ⊥ = λ lt.
          not_both (rw e at (less_at file.names r i sorted lt bound))
            (b.after r (omega arith) (omega (arith, lt, bound))) in
        let not_before : (i < r) → ⊥ = λ lt.
          not_both (b.before i lt) (ap (λ (t : Text). less t target) e ∙ less_irrefl target) in
        same (Bool-cases (ltb r i)) (Bool-cases (ltb i r)) not_after not_before
      where
        same :
            (ltb r i ≡ true) ⊎ (ltb r i ≡ false)
            → (ltb i r ≡ true) ⊎ (ltb i r ≡ false)
            → ((r < i) → ⊥)
            → ((i < r) → ⊥)
            → r ≡ i
        same (inl lt) _ n m = absurd (n (ltb→lt r i lt))
        same (inr ge) (inl lt) n m = absurd (m (ltb→lt i r lt))
        same (inr ge) (inr le) n m = omega (arith, ltb-eq-false r i ge, ltb-eq-false i r le)

    exact_iff :
        (r i : ℕ)
        → Bounds r r
        → (exact file target r ≡ some i)
          ↔ ((i < length file.names) × (name_at i file.names ≡ target))
    unfolding domain_at
    exact_iff r i b = (to, from)
      where
        chosen : (q : Bool) → (if q then some r else none) ≡ some i → (q ≡ true) × (r ≡ i)
        chosen true h = (refl, ap (λ o. elim o [ none ↦ r | some n ↦ n ]) h)
        chosen false h = absurd (let z : ⊥ = cc in z)

        below : (a b : ℕ) → a < b → ltb a b ≡ true
        below a b h = ground arith

        to :
            exact file target r ≡ some i → (i < length file.names) × (name_at i file.names ≡ target)
        to h =
            let (q, e) = chosen _ h in
            let (lt, t) = and-eq-true (ltb r (length file.names)) _ q in
            (
              omega (arith, e, ltb→lt r (length file.names) lt),
              ap (λ n. name_at n file.names) (sym e) ∙ (list_beq_iff _ target).0 t,
            )

        from :
            (i < length file.names) × (name_at i file.names ≡ target) → exact file target r ≡ some i
        from (lt, e) = rw (
          is_at r i b lt e,
          below i (length file.names) lt,
          (list_beq_iff (name_at i file.names) target).1 e,
        )

-- On an index whose names stand in order, `_find` answers a number exactly when it is the place of
-- the name; so it answers none when the name is not there.
pub find_iff :
    (file : File) (target : Text) (i : ℕ)
    → IsSorted file.names
    → (find file target ≡ some i) ↔ ((i < length file.names) × (name_at i file.names ≡ target))
unfolding find
find_iff file target i sorted =
    exact_iff file target sorted (find_from (length file.names) file target 0 (length file.names)) i
      (found-Bounds file target sorted)
