-- ===== src/Index/Memo.antt =====
-- The memo of `_claims_for` of src/libtb/index, against the file.
use turkey_bite.Prelude.{
  ◌≤◌, ◌<◌, ◌≡◌, subst, refl, sym, ap, ◌∙◌, inl, inr, Bool, true, false, Option, none, some, List,
  [], ◌∷◌, ◌++◌, map, arith, length, keep, All, leb, leb-eq-false, Bool-cases, Option-cases, ◌==◌,
  nat_eq, list_eq, list_beq_iff,
}
use turkey_bite.Text.{Text}
use turkey_bite.Evidence.{Claim}
use turkey_bite.Index.{
  File, Pair, Memo, claims_memo_max, read_claims, remembered, forget_full, claims_for, speaks,
  claim_of, match_probes, Identity, DomainIndex, same_identity, open_index, reopen,
  reload_if_changed,
}

-- What the memo remembers is what the file says.
abbrev pub IsCoherent : File → Memo → Type 0
IsCoherent file memo = All (λ (entry : Text × List Pair). entry.1 ≡ read_claims file entry.0) memo

-- The same answers, with no memo.
unfoldable pub said : File → List (Text × Bool) → List Claim
said file [] = []
said file ((key, owned) ∷ rest) =
    map (claim_of key) (keep (speaks owned) (read_claims file key)) ++ said file rest

module _ (file : File) where
  remembered_coherent :
      (key : Text) (memo : Memo) (claims : List Pair)
      → IsCoherent file memo
      → remembered key memo ≡ some claims
      → claims ≡ read_claims file key
  remembered_coherent key [] claims c h = absurd (let z : ⊥ = cc in z)
  remembered_coherent key ((k, kept) ∷ memo) claims (e, c) h = elim (Bool-cases (k == key)) [
    | inl same ↦
        let t : some kept ≡ some claims = rw same at h in
        sym (ap (λ o. elim o [ none ↦ kept | some x ↦ x ]) t)
        ∙ e
        ∙ ap (read_claims file) ((list_beq_iff k key).0 same)
    | inr other ↦ remembered_coherent key memo claims c (rw other at h)
  ]

  forget_full-IsCoherent : (memo : Memo) → IsCoherent file memo → IsCoherent file (forget_full memo)
  forget_full-IsCoherent memo c = elim (Bool-cases (leb claims_memo_max (length memo))) [
    | inl t ↦ rw t tt
    | inr f ↦ rw f c
  ]

  length-forget_full : (memo : Memo) → length (forget_full memo) < claims_memo_max
  length-forget_full memo = elim (Bool-cases (leb claims_memo_max (length memo))) [
    | inl t ↦ rw t (omega arith)
    | inr f ↦ rw f (leb-eq-false _ _ f)
  ]

  -- A memo that is coherent and within its size.
  pub record IsGood (memo : Memo) : Type 0 where
    pub coherent : IsCoherent file memo
    pub small : length memo ≤ claims_memo_max

  claims_for-answer :
      (key : Text) (memo : Memo)
      → IsGood memo
      → ((claims_for file key memo).0 ≡ read_claims file key) × IsGood (claims_for file key memo).1
  unfolding claims_for
  claims_for-answer key memo g = elim (Option-cases (remembered key memo)) [
    | inl absent ↦
        rw (claims_for, absent)
          (
            refl,
            record {
              coherent = (refl, forget_full-IsCoherent memo g.coherent);
              small = omega (arith, length-forget_full memo);
            },
          )
    | inr (claims, there) ↦
        rw (claims_for, there) (remembered_coherent key memo claims g.coherent there, g)
  ]

  -- Whatever the memo holds, as long as that is what the file says, the loop of `match` finds what
  -- it would find without a memo; and the memo stays so, with at most its 20000 keys.
  pub match_probes-said :
      (ps : List (Text × Bool)) (memo : Memo)
      → IsGood memo
      → ((match_probes file ps memo).0 ≡ said file ps) × IsGood (match_probes file ps memo).1
  unfolding match_probes said
  match_probes-said [] memo g = (refl, g)
  match_probes-said ((key, owned) ∷ rest) memo g =
      let (e, g') = claims_for-answer key memo g in
      let (e', g'') = match_probes-said rest (claims_for file key memo).1 g' in
      (rw (e, e') refl, g'')

same_index :
    {changed : Bool} {index' : DomainIndex} (answer : Bool × DomainIndex)
    → IsGood answer.1.file answer.1.memo
    → some answer ≡ some (changed, index')
    → IsGood index'.file index'.memo
same_index answer g e =
    subst (λ (i : DomainIndex). IsGood i.file i.memo)
      (ap (λ (o : Option (Bool × DomainIndex)). elim o [ none ↦ answer.1 | some p ↦ p.1 ]) e) g

-- What `reload_if_changed` leaves open, whether or not it reopened the file, has a good memo.
pub reload_if_changed-IsGood :
    (now : Option Identity) (reopened : Option (Identity × File)) (index : DomainIndex)
    (changed : Bool) (index' : DomainIndex)
    → IsGood index.file index.memo
    → reload_if_changed now reopened index ≡ some (changed, index')
    → IsGood index'.file index'.memo
unfolding reload_if_changed open_index
reload_if_changed-IsGood none reopened index changed index' g h = same_index (false, index) g h
reload_if_changed-IsGood (some now) reopened index changed index' g h =
    elim (Bool-cases (same_identity now index.identity)) [
      | inl same ↦ same_index (false, index) g (rw same at h)
      | inr differs ↦ fresh reopened (rw differs at h)
    ]
  where
    fresh :
        (r : Option (Identity × File))
        → reopen r ≡ some (changed, index')
        → IsGood index'.file index'.memo
    fresh none e = absurd (let z : ⊥ = cc in z)
    fresh (some (identity, file)) e =
        same_index (true, open_index (identity, file)) record { coherent = tt; small = omega arith }
          e
