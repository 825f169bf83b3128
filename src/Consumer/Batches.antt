-- ===== src/Consumer/Batches.antt =====
-- What `handle_batch` of src/libtb/consumer does with a batch.
use turkey_bite.Prelude.{
  ℕ, suc, ◌+◌, ◌≡◌, subst, refl, ap, ◌⊎◌, inl, inr, Bool, true, false, Option, none, some, List, [],
  ◌∷◌, length, arith, Bool-cases,
}
use turkey_bite.Text.{Text}
use turkey_bite.Consumer.Parts.{Processed, taken, undelivered, unreachable, unprocessed, Outside}
use turkey_bite.Consumer.{
  Stats, Ended, ended, name_lost, valkey_down, Step, item_kept, item_passed, batch_refused,
  step_name_lost, step_valkey_down, add_unreadable, add_dropped, after_process, after_sieve,
  after_decode, after_hold, handle_item, handle_items, after_flush, after_items, handle_batch,
}

-- The counts that the handling of a batch does not touch.
pub record SameOthers (a b : Stats) : Type 0 where
  pub claimed : b.claimed ≡ a.claimed
  pub requeued : b.requeued ≡ a.requeued
  pub batches : b.batches ≡ a.batches
  pub accounting : b.accounting ≡ a.accounting

module _ (p : Outside) where
  open p use {
    World, Json, flush_bulk, process_packet, should_process, decode, is_late, renewed_now,
    discard_bulk,
  }

  abbrev ItemCounted : Stats → Step × Stats × World → Type 0
  ItemCounted stats (item_kept, stats', w) = stats' ≡ stats
  ItemCounted stats (item_passed, stats', w) =
      (stats' ≡ add_unreadable stats) ⊎ (stats' ≡ add_dropped stats)
  ItemCounted stats (_, stats', w) = Unit

  process-ItemCounted :
      (r : Processed) (stats : Stats) (w : World) → ItemCounted stats (after_process p r stats w)
  process-ItemCounted taken stats w = refl
  process-ItemCounted undelivered stats w = tt
  process-ItemCounted unreachable stats w = tt
  process-ItemCounted unprocessed stats w = inl refl

  sieve-ItemCounted :
      (packet : Json) (o : Option Bool) (stats : Stats) (w : World)
      → ItemCounted stats (after_sieve p packet o stats w)
  sieve-ItemCounted packet none stats w = inl refl
  sieve-ItemCounted packet (some false) stats w = inr refl
  sieve-ItemCounted packet (some true) stats w = process-ItemCounted _ stats _

  decode-ItemCounted :
      (o : Option Json) (stats : Stats) (w : World) → ItemCounted stats (after_decode p o stats w)
  decode-ItemCounted none stats w = inl refl
  decode-ItemCounted (some packet) stats w = sieve-ItemCounted packet _ stats w

  hold-ItemCounted :
      (raw : Text) (h : Ended (Unit {0})) (stats : Stats) (w : World)
      → ItemCounted stats (after_hold p raw h stats w)
  hold-ItemCounted raw (ended u) stats w = decode-ItemCounted _ stats _
  hold-ItemCounted raw name_lost stats w = tt
  hold-ItemCounted raw valkey_down stats w = tt

  handle_item-ItemCounted :
      (raw : Text) (stats : Stats) (w : World) → ItemCounted stats (handle_item p raw stats w)
  unfolding handle_item
  handle_item-ItemCounted raw stats w = elim (Bool-cases (is_late w)) [
    | inl late ↦ rw (handle_item, late) (hold-ItemCounted raw _ stats _)
    | inr soon ↦ rw (handle_item, soon) (decode-ItemCounted _ stats w)
  ]

  record AllCounted (count kept : ℕ) (stats : Stats) (kept' : ℕ) (stats' : Stats) : Type 0 where
    sum :
        kept' + stats'.dropped + stats'.unreadable ≡ kept + stats.dropped + stats.unreadable + count
    not_kept : stats'.kept ≡ stats.kept
    not_indexed : stats'.indexed ≡ stats.indexed
    others : SameOthers stats stats'

  abbrev ItemsCounted : ℕ → ℕ → Stats → Ended (Option ℕ) × Stats × World → Type 0
  ItemsCounted count kept stats (ended (some kept'), stats', w) =
      AllCounted count kept stats kept' stats'
  ItemsCounted count kept stats (_, stats', w) = Unit

  one_kept :
      (count kept : ℕ) (stats stats' : Stats) (r : Ended (Option ℕ) × Stats × World)
      → stats' ≡ stats
      → ItemsCounted count (kept + 1) stats' r
      → ItemsCounted (suc count) kept stats r
  one_kept count kept stats stats' (ended (some k), t, w) e c =
      let d = rw e at c in
      record {
        sum = omega (arith, d.sum);
        not_kept = d.not_kept;
        not_indexed = d.not_indexed;
        others = d.others;
      }
  one_kept count kept stats stats' (ended none, t, w) e c = tt
  one_kept count kept stats stats' (name_lost, t, w) e c = tt
  one_kept count kept stats stats' (valkey_down, t, w) e c = tt

  one_passed :
      (count kept : ℕ) (stats stats' : Stats) (r : Ended (Option ℕ) × Stats × World)
      → (stats' ≡ add_unreadable stats) ⊎ (stats' ≡ add_dropped stats)
      → ItemsCounted count kept stats' r
      → ItemsCounted (suc count) kept stats r
  one_passed count kept stats stats' (ended (some k), t, w) (inl e) c =
      let d = rw e at c in
      record {
        sum = omega (arith, d.sum);
        not_kept = d.not_kept;
        not_indexed = d.not_indexed;
        others = record {
          claimed = d.others.claimed;
          requeued = d.others.requeued;
          batches = d.others.batches;
          accounting = d.others.accounting;
        };
      }
  one_passed count kept stats stats' (ended (some k), t, w) (inr e) c =
      let d = rw e at c in
      record {
        sum = omega (arith, d.sum);
        not_kept = d.not_kept;
        not_indexed = d.not_indexed;
        others = record {
          claimed = d.others.claimed;
          requeued = d.others.requeued;
          batches = d.others.batches;
          accounting = d.others.accounting;
        };
      }
  one_passed count kept stats stats' (ended none, t, w) e c = tt
  one_passed count kept stats stats' (name_lost, t, w) e c = tt
  one_passed count kept stats stats' (valkey_down, t, w) e c = tt

  after_one :
      (rest : List Text) (kept : ℕ) (stats : Stats) (x : Step × Stats × World)
      → ItemCounted stats x
      → ((k : ℕ) (t : Stats) (w : World)
          → ItemsCounted (length rest) k t (handle_items p rest k t w))
      → ItemsCounted (suc (length rest)) kept stats (elim x.0 [
        | item_kept ↦ handle_items p rest (kept + 1) x.1 x.2
        | item_passed ↦ handle_items p rest kept x.1 x.2
        | batch_refused ↦ (ended none, x.1, x.2)
        | step_name_lost ↦ (name_lost, x.1, x.2)
        | step_valkey_down ↦ (valkey_down, x.1, x.2)
      ])
  after_one rest kept stats (item_kept, stats', w') c ih =
      one_kept (length rest) kept stats stats' _ c (ih (kept + 1) stats' w')
  after_one rest kept stats (item_passed, stats', w') c ih =
      one_passed (length rest) kept stats stats' _ c (ih kept stats' w')
  after_one rest kept stats (batch_refused, stats', w') c ih = tt
  after_one rest kept stats (step_name_lost, stats', w') c ih = tt
  after_one rest kept stats (step_valkey_down, stats', w') c ih = tt

  handle_items-ItemsCounted :
      (items : List Text) (kept : ℕ) (stats : Stats) (w : World)
      → ItemsCounted (length items) kept stats (handle_items p items kept stats w)
  unfolding handle_items
  handle_items-ItemsCounted [] kept stats w = record {
    sum = omega arith;
    not_kept = refl;
    not_indexed = refl;
    others = record { claimed = refl; requeued = refl; batches = refl; accounting = refl };
  }
  handle_items-ItemsCounted (raw ∷ rest) kept stats w =
      after_one rest kept stats (handle_item p raw stats w) (handle_item-ItemCounted raw stats w)
        (handle_items-ItemsCounted rest)

  -- What stands behind an acknowledgement of the batch: the count is that of all the items; the
  -- last thing done was a flush that did not fail, whose count is added; each item is counted
  -- once, as kept, as dropped or as unreadable; and no other count has changed.
  pub record Accounted (items : List Text) (stats : Stats) (n : ℕ) (stats' : Stats) (w' : World)
      : Type 0 where
    pub all_items : n ≡ length items
    pub before_flush : World
    pub sent : ℕ
    pub flushed : flush_bulk before_flush ≡ (some sent, w')
    pub indexed : stats'.indexed ≡ stats.indexed + sent
    pub each_once :
        stats'.kept + stats'.dropped + stats'.unreadable
        ≡ stats.kept + stats.dropped + stats.unreadable + length items
    pub others : SameOthers stats stats'

  abbrev AccountedIf : List Text → Stats → Ended (Option ℕ) × Stats × World → Type 0
  AccountedIf items stats (ended (some n), stats', w') = Accounted items stats n stats' w'
  AccountedIf items stats (_, stats', w') = Unit

  flush-AccountedIf :
      (items : List Text) (stats : Stats) (kept : ℕ) (stats' : Stats) (w : World)
      → AllCounted (length items) 0 stats kept stats'
      → (r : Option ℕ) (w' : World) → flush_bulk w ≡ (r, w')
      → AccountedIf items stats (after_flush p (length items) kept stats' r w')
  flush-AccountedIf items stats kept stats' w c none w' e = tt
  flush-AccountedIf items stats kept stats' w c (some n) w' e = record {
    all_items = refl;
    before_flush = w;
    sent = n;
    flushed = e;
    indexed = ap (λ k. k + n) c.not_indexed;
    each_once = omega (arith, c.sum, c.not_kept);
    others = record {
      claimed = c.others.claimed;
      requeued = c.others.requeued;
      batches = c.others.batches;
      accounting = c.others.accounting;
    };
  }

  items-AccountedIf :
      (items : List Text) (stats : Stats) (r : Ended (Option ℕ) × Stats × World)
      → ItemsCounted (length items) 0 stats r
      → AccountedIf items stats (after_items p (length items) r)
  items-AccountedIf items stats (ended (some kept), stats', w) c =
      flush-AccountedIf items stats kept stats' w c (flush_bulk w).0 (flush_bulk w).1 refl
  items-AccountedIf items stats (ended none, stats', w) c = tt
  items-AccountedIf items stats (name_lost, stats', w) c = tt
  items-AccountedIf items stats (valkey_down, stats', w) c = tt

  -- When `handle_batch` returns a number to acknowledge, it is that of all the items, the last
  -- thing done is a flush that did not fail and whose count is added to those indexed, each item
  -- is counted once more as kept, dropped or unreadable, and no other count changes.
  pub handle_batch-Accounted :
      (items : List Text) (stats : Stats) (w : World) (n : ℕ) (stats' : Stats) (w' : World)
      → handle_batch p items stats w ≡ (ended (some n), stats', w')
      → Accounted items stats n stats' w'
  unfolding handle_batch
  handle_batch-Accounted items stats w n stats' w' e =
      subst (AccountedIf items stats) e
        (items-AccountedIf items stats _ (handle_items-ItemsCounted items 0 stats w))
