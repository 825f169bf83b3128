-- ===== src/Builder/Sorting.antt =====
-- The sorts of `_intern` in src/libtb/index/builder.py.
use turkey_bite.Prelude.{
  ℕ, ◌≡◌, ◌∙◌, ◌⊎◌, inl, inr, List, [], ◌∷◌, Bool-cases, ◌==◌, nat_eq, list_eq, nat_beq_iff, ltb,
}
use turkey_bite.Prelude.Members.{In, here, there}
use turkey_bite.Builder.{
  Coded, Claimed, insert_id, sorted_ids, claimed_leb, insert_claimed, sort_coded, claimed_eq,
}

-- Sorting keeps the members.
module _ (k : ℕ) where
  insert_id-In : (i : ℕ) (ids : List ℕ) → In k (insert_id i ids) → (k ≡ i) ⊎ In k ids
  insert_id-In i [] (here e) = inl e
  insert_id-In i [] (there m) = elim m [ ]
  insert_id-In i (j ∷ ids) m = elim (Bool-cases (i == j)) [
    | inl e ↦ inr (rw e at m)
    | inr n ↦ elim (Bool-cases (ltb i j)) [
      | inl l ↦ elim (rw (n, l) at m) [ here e ↦ inl e | there m' ↦ inr m' ]
      | inr g ↦ elim (rw (n, g) at m) [
        | here e ↦ inr (here e)
        | there m' ↦ elim (insert_id-In i ids m') [ inl e ↦ inl e | inr r ↦ inr (there r) ]
      ]
    ]
  ]

  In-insert_id : (i : ℕ) (ids : List ℕ) → (k ≡ i) ⊎ In k ids → In k (insert_id i ids)
  In-insert_id i [] (inl e) = here e
  In-insert_id i [] (inr m) = elim m [ ]
  In-insert_id i (j ∷ ids) m = elim (Bool-cases (i == j)) [
    | inl e ↦ rw e (elim m [ inl d ↦ here (d ∙ (nat_beq_iff i j).0 e) | inr r ↦ r ])
    | inr n ↦ elim (Bool-cases (ltb i j)) [
      | inl l ↦ rw (n, l) (elim m [ inl d ↦ here d | inr r ↦ there r ])
      | inr g ↦
          rw (n, g)
            (elim m [
              | inl d ↦ there (In-insert_id i ids (inl d))
              | inr r ↦ elim r [ here d ↦ here d | there r' ↦ there (In-insert_id i ids (inr r')) ]
            ])
    ]
  ]

  pub sorted_ids-In : (ks : List ℕ) → In k (sorted_ids ks) → In k ks
  unfolding sorted_ids
  sorted_ids-In [] m = m
  sorted_ids-In (i ∷ ks) m = elim (insert_id-In i (sorted_ids ks) m) [
    | inl e ↦ here e
    | inr r ↦ there (sorted_ids-In ks r)
  ]

  pub In-sorted_ids : (ks : List ℕ) → In k ks → In k (sorted_ids ks)
  unfolding sorted_ids
  In-sorted_ids [] m = m
  In-sorted_ids (i ∷ ks) (here e) = In-insert_id i (sorted_ids ks) (inl e)
  In-sorted_ids (i ∷ ks) (there m) = In-insert_id i (sorted_ids ks) (inr (In-sorted_ids ks m))

module _ (c : Claimed) where
  insert_claimed-In : (d : Claimed) (co : Coded) → In c (insert_claimed d co) → In c (d ∷ co)
  insert_claimed-In d [] m = m
  insert_claimed-In d (e ∷ co) m = elim (Bool-cases (claimed_leb d e)) [
    | inl b ↦ rw b at m
    | inr a ↦ elim (rw a at m) [
      | here h ↦ there (here h)
      | there m' ↦ elim (insert_claimed-In d co m') [ here h ↦ here h | there r ↦ there (there r) ]
    ]
  ]

  In-insert_claimed : (d : Claimed) (co : Coded) → In c (d ∷ co) → In c (insert_claimed d co)
  In-insert_claimed d [] m = m
  In-insert_claimed d (e ∷ co) m = elim (Bool-cases (claimed_leb d e)) [
    | inl b ↦ rw b m
    | inr a ↦ rw a (elim m [
      | here h ↦ there (In-insert_claimed d co (here h))
      | there r ↦ elim r [ here h ↦ here h | there q ↦ there (In-insert_claimed d co (there q)) ]
    ])
  ]

  pub sort_coded-In : (co : Coded) → In c (sort_coded co) → In c co
  unfolding sort_coded
  sort_coded-In [] m = m
  sort_coded-In (d ∷ co) m = elim (insert_claimed-In d (sort_coded co) m) [
    | here h ↦ here h
    | there r ↦ there (sort_coded-In co r)
  ]

  pub In-sort_coded : (co : Coded) → In c co → In c (sort_coded co)
  unfolding sort_coded
  In-sort_coded [] m = m
  In-sort_coded (d ∷ co) (here h) = In-insert_claimed d (sort_coded co) (here h)
  In-sort_coded (d ∷ co) (there m) =
      In-insert_claimed d (sort_coded co) (there (In-sort_coded co m))
