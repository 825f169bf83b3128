-- ===== src/Queue/Settling.antt =====
-- Claims, acknowledgements and requeues of src/libtb/queue together, and the consumer's name.
use turkey_bite.Prelude.{
  ne_test, ℕ, suc, ◌<◌, ◌≡◌, ◌≢◌, refl, sym, ap, ◌∙◌, ◌↔◌, inl, inr, true, false, Option, none,
  some, List, [], ◌∷◌, ◌++◌, append-nil, take-append-drop, Bool-cases, Option-cases, nat_eq,
  list_eq, list_beq_iff, eq_refl, length, take, drop, drop-append,
}
use turkey_bite.Text.{Text}
use turkey_bite.Queue.Commands.{Valkey}
use turkey_bite.Queue.{
  ListQueue, settled, not_owner, holds, owner_ttl, move_back, claim, ack_script, ack,
  requeue_script, requeue, reserve, renew_script, renew,
}
use turkey_bite.Queue.Moves.{IsApart, move_back_count, claim-MovedOn}

holds_iff : (q : ListQueue) (o : Option Text) → (holds q o ≡ true) ↔ (o ≡ some q.owner)
holds_iff q none = ((λ h. absurd (let z : ⊥ = cc in z)), (λ h. absurd (let z : ⊥ = cc in z)))
holds_iff q (some held) =
    ((λ h. ap some ((list_beq_iff held q.owner).0 h)), (λ h. (list_beq_iff held q.owner).1 cc))

module _ (v : Valkey) where
  open v use {
    Store, items, value, ltrim, items-ltrim, value-ltrim, set_nx, set_ex, expire, set_nx_free,
    set_nx_taken, value-set_ex, items-set_ex,
  }

  -- The consumer may settle: it holds its name, if it reserved it.
  abbrev pub MaySettle : ListQueue → Store → Type 0
  MaySettle q s = q.reserved ≡ true → value s q.owner_key ≡ some q.owner

  ack_allowed :
      (q : ListQueue) (s : Store) (n : ℕ)
      → MaySettle q s
      → ack v q (suc n) s ≡ (settled tt, ltrim q.processing_key (suc n) s)
  unfolding ack
  ack_allowed q s n may = elim (Bool-cases q.reserved) [
    | inl yes' ↦ rw (yes', ack) (rw ((holds_iff q (value s q.owner_key)).1 (may yes'), ack_script))
    | inr not' ↦ rw (not', ack)
  ]

  requeue_allowed :
      (q : ListQueue) (s : Store) (batch : List Text)
      → MaySettle q s
      → requeue v q batch s ≡ (
        settled (move_back v (length batch) q.processing_key q.key s).0,
        (move_back v (length batch) q.processing_key q.key s).1,
      )
  unfolding requeue
  requeue_allowed q s batch may = elim (Bool-cases q.reserved) [
    | inl yes' ↦
        rw (yes', requeue) (rw ((holds_iff q (value s q.owner_key)).1 (may yes'), requeue_script))
    | inr not' ↦ rw (not', requeue)
  ]

  -- A process that reserved its name and no longer holds it settles nothing: an acknowledgement
  -- of at least one item and a requeue raise NotOwner and leave the store as it is.
  settle_without_name :
      (q : ListQueue) (s : Store) (n : ℕ) (batch : List Text)
      → q.reserved ≡ true
      → value s q.owner_key ≢ some q.owner
      → (ack v q (suc n) s ≡ (not_owner, s)) × (requeue v q batch s ≡ (not_owner, s))
  unfolding ack requeue
  settle_without_name q s n batch on lost =
      let gone : holds q (value s q.owner_key) ≡ false =
        elim (Bool-cases (holds q (value s q.owner_key))) [
          | inl t ↦ absurd (lost ((holds_iff q (value s q.owner_key)).0 t))
          | inr f ↦ f
        ] in
      (rw (on, ack) (rw (gone, ack_script)), rw (on, requeue) (rw (gone, requeue_script)))

  may_after :
      (q : ListQueue) (s s' : Store)
      → value s' q.owner_key ≡ value s q.owner_key
      → MaySettle q s
      → MaySettle q s'
  may_after q s s' e may on = e ∙ may on

  -- Acknowledging the whole processing list empties it.
  ack_batch :
      (q : ListQueue) (s : Store) (batch : List Text)
      → MaySettle q s
      → items s q.processing_key ≡ batch
      → ((ack v q (length batch) s).0 ≡ settled tt)
        × (items (ack v q (length batch) s).1 q.processing_key ≡ [])
        × ((j : Text) → j ≢ q.processing_key → items (ack v q (length batch) s).1 j ≡ items s j)
  ack_batch q s [] may e = unfold ack in (refl, e, λ j ne. refl)
  ack_batch q s (x ∷ xs) may e = rw (ack_allowed q s (length xs) may) (
    refl,
    items-ltrim q.processing_key (suc (length xs)) s q.processing_key
        ∙ rw (eq_refl q.processing_key, e)
            (ap (drop (length xs)) (sym (append-nil xs)) ∙ drop-append xs []),
    λ j ne. items-ltrim q.processing_key (suc (length xs)) s j ∙ rw (ne_test j q.processing_key ne),
  )

  module _ (q : ListQueue) (apart : IsApart v q) (n : ℕ) (s : Store) (some_items : 0 < n)
      (empty : items s q.processing_key ≡ []) (may : MaySettle q s) where
    claimed_in_flight : items (claim v q n s).1 q.processing_key ≡ (claim v q n s).0
    claimed_in_flight =
        let (taken, m) = claim-MovedOn v q apart n s some_items in
        m.at_target ∙ ap (λ (l : List Text). l ++ take n (items s q.key)) empty ∙ sym taken

    claimed_may : MaySettle q (claim v q n s).1
    claimed_may =
        let (taken, m) = claim-MovedOn v q apart n s some_items in
        may_after q s (claim v q n s).1 (m.values q.owner_key) may

    -- From an empty processing list, a claim of at least one item and then a requeue of what was
    -- claimed, by a consumer that may settle, moves as many items back as were claimed, and leaves
    -- the queue as it was before the claim and the processing list empty.
    pub requeue-claim :
        ((requeue v q (claim v q n s).0 (claim v q n s).1).0 ≡ settled (length (claim v q n s).0))
        × (items (requeue v q (claim v q n s).0 (claim v q n s).1).1 q.key ≡ items s q.key)
        × (items (requeue v q (claim v q n s).0 (claim v q n s).1).1 q.processing_key ≡ [])
    requeue-claim =
        let (taken, m) = claim-MovedOn v q apart n s some_items in
        let (count, back) =
          move_back_count v q.processing_key q.key (λ e. apart (sym e)) (length (claim v q n s).0)
            (claim v q n s).1 [] (claim v q n s).0 claimed_in_flight refl in
        rw (requeue_allowed q (claim v q n s).1 (claim v q n s).0 claimed_may) (
          ap settled count,
          back.at_target
              ∙ ap (λ (l : List Text). (claim v q n s).0 ++ l) m.at_source
              ∙ ap (λ (l : List Text). l ++ drop n (items s q.key)) taken
              ∙ take-append-drop n (items s q.key),
          back.at_source,
        )

    -- From an empty processing list, a claim of at least one item and then an acknowledgement of as
    -- many as were claimed, by a consumer that may settle, leaves the processing list empty and
    -- the queue without the items that the claim returned at its head.
    pub ack-claim :
        ((ack v q (length (claim v q n s).0) (claim v q n s).1).0 ≡ settled tt)
        × (items (ack v q (length (claim v q n s).0) (claim v q n s).1).1 q.processing_key ≡ [])
        × ((claim v q n s).0 ++ items (ack v q (length (claim v q n s).0) (claim v q n s).1).1 q.key
            ≡ items s q.key)
    ack-claim =
        let (taken, m) = claim-MovedOn v q apart n s some_items in
        let (done, gone, others) =
          ack_batch q (claim v q n s).1 (claim v q n s).0 claimed_may claimed_in_flight in
        (
          done,
          gone,
          ap (λ (l : List Text). (claim v q n s).0 ++ l) (others q.key apart ∙ m.at_source)
              ∙ ap (λ (l : List Text). l ++ drop n (items s q.key)) taken
              ∙ take-append-drop n (items s q.key),
        )

  reserve_free :
      (q : ListQueue) (s : Store)
      → value s q.owner_key ≡ none
      → reserve v q s ≡ (true, record q { reserved = true }, set_ex q.owner_key q.owner owner_ttl s)
  unfolding reserve
  reserve_free q s free = rw (set_nx_free q.owner_key q.owner owner_ttl s free, reserve)

  reserve_taken :
      (q : ListQueue) (s : Store) (u : Text)
      → value s q.owner_key ≡ some u
      → reserve v q s ≡ (false, record q { reserved = false }, s)
  unfolding reserve
  reserve_taken q s u taken = rw (set_nx_taken q.owner_key q.owner owner_ttl s u taken, reserve)

  renew_holder :
      (q : ListQueue) (s : Store)
      → q.reserved ≡ true
      → value s q.owner_key ≡ some q.owner
      → (renew v q s).0 ≡ true
  unfolding renew
  renew_holder q s on held = rw (on, renew) (rw (held, renew_script) (rw (eq_refl q.owner)))

  renew_other :
      (q : ListQueue) (s : Store) (u : Text)
      → q.reserved ≡ true
      → value s q.owner_key ≡ some u
      → u ≢ q.owner
      → renew v q s ≡ (false, s)
  unfolding renew
  renew_other q s u on held ne =
      rw (on, renew) (rw (held, renew_script) (rw (ne_test u q.owner ne)))

  excluded :
      (q q' : ListQueue) (s : Store) (n : ℕ) (batch : List Text)
      → q'.owner_key ≡ q.owner_key
      → q.owner ≢ q'.owner
      → let s' = set_ex q.owner_key q.owner owner_ttl s in
        let stale = record q' { reserved = true } in
        ((renew v (record q { reserved = true }) s').0 ≡ true)
        × ((reserve v q' s').0 ≡ false)
        × (renew v stale s' ≡ (false, s'))
        × (ack v stale (suc n) s' ≡ (not_owner, s'))
        × (requeue v stale batch s' ≡ (not_owner, s'))
  excluded q q' s n batch same differ =
      let s' = set_ex q.owner_key q.owner owner_ttl s in
      let stale = record q' { reserved = true } in
      let held : value s' q.owner_key ≡ some q.owner =
        value-set_ex q.owner_key q.owner owner_ttl s q.owner_key ∙ rw (eq_refl q.owner_key) in
      let held' : value s' q'.owner_key ≡ some q.owner = ap (value s') same ∙ held in
      let lost : value s' q'.owner_key ≢ some q'.owner =
        λ e. let z = sym held' ∙ e in differ (cc) in
      let (acked, requeued) = settle_without_name stale s' n batch refl lost in
      (
        renew_holder (record q { reserved = true }) s' refl held,
        ap (λ r. r.0) (reserve_taken q' s' q.owner held'),
        renew_other stale s' q.owner refl held' differ,
        acked,
        requeued,
      )

  -- After a reservation that was granted, and as long as nothing changes the store, the holder
  -- renews it, and another process that wants the same name is not granted it, cannot renew an older
  -- reservation of it, and settles nothing under it.
  pub reserve_excludes :
      (q q' : ListQueue) (s : Store) (n : ℕ) (batch : List Text)
      → q'.owner_key ≡ q.owner_key
      → q.owner ≢ q'.owner
      → (reserve v q s).0 ≡ true
      → let s' = (reserve v q s).2 in
        let stale = record q' { reserved = true } in
        ((renew v (reserve v q s).1 s').0 ≡ true)
        × ((reserve v q' s').0 ≡ false)
        × (renew v stale s' ≡ (false, s'))
        × (ack v stale (suc n) s' ≡ (not_owner, s'))
        × (requeue v stale batch s' ≡ (not_owner, s'))
  reserve_excludes q q' s n batch same differ granted = elim (Option-cases (value s q.owner_key)) [
    | inl free ↦ rw (reserve_free q s free) (excluded q q' s n batch same differ)
    | inr (u, taken) ↦
        let refused = ap (λ r. r.0) (reserve_taken q s u taken) in absurd (let z : ⊥ = cc in z)
  ]
