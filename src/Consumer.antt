-- ===== src/Consumer.antt =====
-- src/libtb/consumer/__init__.py: the process that drains the queue and indexes what survives.
-- What it calls, the queue and the packet processor among them, is an argument, on the state of
-- all outside the consumer (Consumer/Parts.antt). Log lines are left out. Times of rest count half
-- seconds, the slice that a rest is served in.
pub mod Parts
pub mod Batches
pub mod Rests
mod Tests
use turkey_bite.Prelude.{
  ℕ, zero, suc, ◌+◌, ◌-◌, ◌*◌, ◌^◌, Bool, true, false, ◌&&◌, not, Option, none, some, List, [], ◌∷◌,
  length, ltb, leb, if◌then◌else◌,
}
use turkey_bite.Text.{Text}
use turkey_bite.Consumer.Parts.{
  Answer, answered, unanswered, refused, Processed, taken, undelivered, unreachable, unprocessed,
  Popped, popped, pop_unanswered, pop_failed, Outside,
}

-- self.stats
pub record Stats : Type 0 where
  pub claimed : ℕ
  pub kept : ℕ
  pub dropped : ℕ
  pub unreadable : ℕ
  pub indexed : ℕ
  pub requeued : ℕ
  pub batches : ℕ
  pub accounting : ℕ

abbrev pub no_stats : Stats
no_stats = record {
  claimed = 0;
  kept = 0;
  dropped = 0;
  unreadable = 0;
  indexed = 0;
  requeued = 0;
  batches = 0;
  accounting = 0;
}

-- What the consumer keeps: its counts, the failures in a row, whether its name was lost, and
-- whether its processing list has to be handled before anything new is claimed.
pub record Mine : Type 0 where
  pub stats : Stats
  pub failures : ℕ
  pub name_gone : Bool
  pub recovering : Bool

-- How a turn of `run` ends.
pub data Turn : Type 0 where
  go_on break_loop : Turn

-- How a method ends: it returns, or NameLost or an error of Valkey goes up.
pub data Ended {ℓ} (A : Type ℓ) : Type ℓ where
  ended : A → Ended A
  name_lost : Ended A
  valkey_down : Ended A

-- What becomes of one item of a batch: the loop goes on, or `handle_batch` ends there.
pub data Step : Type 0 where
  item_kept item_passed batch_refused step_name_lost step_valkey_down : Step

abbrev pub backoff_start : ℕ
backoff_start = 2

abbrev pub backoff_max : ℕ
backoff_max = 120

abbrev pub accounting_batch : ℕ
accounting_batch = 500

abbrev pub accounting_keep : ℕ
accounting_keep = 10000

abbrev pub min : ℕ → ℕ → ℕ
min a b = if leb a b then a else b

-- min(BACKOFF_MAX, BACKOFF_START * 2 ** min(failures - 1, 16))
unfoldable pub due_of : ℕ → ℕ
due_of failures = min backoff_max (backoff_start * 2 ^ min (failures - 1) 16)

abbrev pub add_unreadable : Stats → Stats
add_unreadable stats = record stats { unreadable = stats.unreadable + 1 }

abbrev pub add_dropped : Stats → Stats
add_dropped stats = record stats { dropped = stats.dropped + 1 }

module _ (p : Outside) where
  open p use {
    World, Json, decode, should_process, process_packet, flush_bulk, discard_bulk, is_late,
    renewed_now, renew, claim, recover, ack, requeue, sleep, is_running, accounting_list, radius_on,
    trim_accounting, pop_accounting, process_nps,
  }

  -- hold_name
  unfoldable pub hold_name : World → Ended (Unit {0}) × World
  hold_name w =
      let (answer, w') = renew w in
      elim answer [
        | answered true ↦ (ended tt, w')
        | answered false ↦ (name_lost, w')
        | unanswered ↦ (valkey_down, w')
        | refused ↦ (name_lost, w')
      ]

  -- From `process_packet` on: the item is kept, costs itself, or ends the batch.
  abbrev pub after_process : Processed → Stats → World → Step × Stats × World
  after_process taken stats w = (item_kept, stats, w)
  after_process undelivered stats w = (batch_refused, stats, discard_bulk w)
  after_process unreachable stats w = (step_valkey_down, stats, discard_bulk w)
  after_process unprocessed stats w = (item_passed, add_unreadable stats, w)

  abbrev pub after_sieve : Json → Option Bool → Stats → World → Step × Stats × World
  after_sieve packet none stats w = (item_passed, add_unreadable stats, w)
  after_sieve packet (some false) stats w = (item_passed, add_dropped stats, w)
  after_sieve packet (some true) stats w =
      let (result, w') = process_packet packet w in after_process result stats w'

  abbrev pub after_decode : Option Json → Stats → World → Step × Stats × World
  after_decode none stats w = (item_passed, add_unreadable stats, w)
  after_decode (some packet) stats w = after_sieve packet (should_process packet) stats w

  abbrev pub after_hold : Text → Ended (Unit {0}) → Stats → World → Step × Stats × World
  after_hold raw (ended u) stats w = after_decode (decode raw) stats (renewed_now w)
  after_hold raw name_lost stats w = (step_name_lost, stats, w)
  after_hold raw valkey_down stats w = (step_valkey_down, stats, discard_bulk w)

  -- One turn of the loop of `handle_batch`.
  unfoldable pub handle_item : Text → Stats → World → Step × Stats × World
  unfolding hold_name
  handle_item raw stats w = elim (is_late w) [
    | true ↦ let (held, w') = hold_name w in after_hold raw held stats w'
    | false ↦ after_decode (decode raw) stats w
  ]

  -- The loop over the items that are left; the count is `kept`.
  unfoldable pub handle_items : List Text → ℕ → Stats → World → Ended (Option ℕ) × Stats × World
  unfolding handle_item
  handle_items [] kept stats w = (ended (some kept), stats, w)
  handle_items (raw ∷ rest) kept stats w =
      let (step, stats', w') = handle_item raw stats w in
      elim step [
        | item_kept ↦ handle_items rest (kept + 1) stats' w'
        | item_passed ↦ handle_items rest kept stats' w'
        | batch_refused ↦ (ended none, stats', w')
        | step_name_lost ↦ (name_lost, stats', w')
        | step_valkey_down ↦ (valkey_down, stats', w')
      ]

  -- The flush at the end of `handle_batch`.
  abbrev pub after_flush : ℕ → ℕ → Stats → Option ℕ → World → Ended (Option ℕ) × Stats × World
  after_flush count kept stats none w = (ended none, stats, w)
  after_flush count kept stats (some n) w = (
    ended (some count),
    record stats { indexed = stats.indexed + n; kept = stats.kept + kept },
    w,
  )

  abbrev pub after_items : ℕ → Ended (Option ℕ) × Stats × World → Ended (Option ℕ) × Stats × World
  after_items count (ended (some kept), stats, w) =
      let (flushed, w') = flush_bulk w in after_flush count kept stats flushed w'
  after_items count (ended none, stats, w) = (ended none, stats, w)
  after_items count (name_lost, stats, w) = (name_lost, stats, w)
  after_items count (valkey_down, stats, w) = (valkey_down, stats, w)

  unfoldable pub handle_batch : List Text → Stats → World → Ended (Option ℕ) × Stats × World
  unfolding handle_items
  handle_batch items stats w = after_items (length items) (handle_items items 0 stats w)

  -- The loop of `rest`, on fuel: what was served, in slices of one half second.
  unfoldable pub serve : ℕ → ℕ → ℕ → World → ℕ × World
  serve zero served due w = (served, w)
  serve (suc k) served due w =
      let step = min 1 (due - served) in
      elim (is_running w && ltb served due) [
        | true ↦ serve k (served + step) due (sleep step w)
        | false ↦ (served, w)
      ]

  -- `rest`: the time that was due, the failures in a row, and the world after the wait.
  unfoldable pub rest : ℕ → World → ℕ × ℕ × World
  unfolding serve due_of
  rest failures w =
      let due = due_of (failures + 1) in
      let (served, w') = serve due 0 due w in (due, failures + 1, w')

  abbrev pub after_requeue : ℕ → Answer ℕ → Mine → World → Ended (Unit {0}) × Mine × World
  after_requeue count (answered n) m w =
      let (due, failures, w') = rest m.failures w in
      (
        ended tt,
        record m {
          stats = record m.stats { requeued = m.stats.requeued + count };
          failures = failures;
        },
        w',
      )
  after_requeue count unanswered m w = (valkey_down, m, w)
  after_requeue count refused m w = (name_lost, m, w)

  abbrev pub after_ack : Answer (Unit {0}) → Mine → World → Ended (Unit {0}) × Mine × World
  after_ack (answered u) m w = (ended tt, record m { failures = 0 }, w)
  after_ack unanswered m w = (valkey_down, m, w)
  after_ack refused m w = (name_lost, m, w)

  -- `_settle`, with the NotOwner that `settle` makes NameLost
  unfoldable pub settle_held : List Text → Option ℕ → Mine → World → Ended (Unit {0}) × Mine × World
  unfolding rest
  settle_held items none m w =
      let (answer, w') = requeue items w in after_requeue (length items) answer m w'
  settle_held items (some n) m w = let (answer, w') = ack n w in after_ack answer m w'

  unfoldable pub settle : List Text → Option ℕ → Mine → World → Ended (Unit {0}) × Mine × World
  unfolding hold_name settle_held
  settle items acked m w =
      let (held, w') = hold_name w in
      elim held [
        | ended u ↦ settle_held items acked m w'
        | name_lost ↦ (name_lost, m, w')
        | valkey_down ↦ (valkey_down, m, w')
      ]

  -- self.settle(items, self.handle_batch(items))
  unfoldable pub handle_and_settle : List Text → Mine → World → Ended (Unit {0}) × Mine × World
  unfolding handle_batch settle
  handle_and_settle items m w =
      let (acked, stats, w') = handle_batch items m.stats w in
      elim acked [
        | ended n ↦ settle items n (record m { stats = stats }) w'
        | name_lost ↦ (name_lost, record m { stats = stats }, w')
        | valkey_down ↦ (valkey_down, record m { stats = stats }, w')
      ]

  -- The loop of `take_accounting` over the lines that were taken.
  unfoldable pub record_lines : List Text → Stats → World → Ended (Unit {0}) × Stats × World
  record_lines [] stats w = (ended tt, stats, w)
  record_lines (raw ∷ lines) stats w =
      let (result, w') = process_nps raw w in
      elim result [
        | taken ↦ record_lines lines stats w'
        | undelivered ↦ record_lines lines (add_unreadable stats) w'
        | unprocessed ↦ record_lines lines (add_unreadable stats) w'
        | unreachable ↦ (valkey_down, stats, w')
      ]

  abbrev pub count_lines : ℕ → Ended (Unit {0}) × Stats × World → Ended (Unit {0}) × Stats × World
  count_lines n (ended u, stats, w) =
      (ended tt, record stats { accounting = stats.accounting + n }, w)
  count_lines n (name_lost, stats, w) = (name_lost, stats, w)
  count_lines n (valkey_down, stats, w) = (valkey_down, stats, w)

  abbrev pub after_pop : Popped × World → Stats → Ended (Unit {0}) × Stats × World
  after_pop (popped lines, w) stats = count_lines (length lines) (record_lines lines stats w)
  after_pop (pop_unanswered, w) stats = (valkey_down, stats, w)
  after_pop (pop_failed, w) stats = (ended tt, stats, w)

  abbrev pub after_trim : Popped × World → Stats → Ended (Unit {0}) × Stats × World
  after_trim (popped lines, w) stats = (ended tt, stats, w)
  after_trim (pop_unanswered, w) stats = (valkey_down, stats, w)
  after_trim (pop_failed, w) stats = (ended tt, stats, w)

  unfoldable pub take_accounting : Stats → World → Ended (Unit {0}) × Stats × World
  unfolding record_lines
  take_accounting stats w = elim (accounting_list w) [
    | none ↦ (ended tt, stats, w)
    | some key ↦
        if radius_on w
        then after_pop (pop_accounting key accounting_batch w) stats
        else after_trim (trim_accounting key accounting_keep w) stats
  ]

  abbrev pub after_claim : Answer (List Text) → Mine → World → Ended (Unit {0}) × Mine × World
  after_claim (answered []) m w = (ended tt, m, w)
  after_claim (answered (i ∷ items)) m w =
      handle_and_settle (i ∷ items)
        (record m {
          stats = record m.stats {
            claimed = m.stats.claimed + length (i ∷ items);
            batches = m.stats.batches + 1;
          };
        })
        w
  after_claim unanswered m w = (valkey_down, m, w)
  after_claim refused m w = (name_lost, m, w)

  unfoldable pub run_once : ℕ → Mine → World → Ended (Unit {0}) × Mine × World
  unfolding take_accounting handle_and_settle
  run_once batch_size m w =
      let (done, stats, w') = take_accounting m.stats w in
      elim done [
        | ended u ↦
            let (answer, w'') = claim batch_size w' in
            after_claim answer (record m { stats = stats }) w''
        | name_lost ↦ (name_lost, record m { stats = stats }, w')
        | valkey_down ↦ (valkey_down, record m { stats = stats }, w')
      ]

  abbrev pub after_recover : Answer (List Text) → Mine → World → Ended (Unit {0}) × Mine × World
  after_recover (answered []) m w = (ended tt, m, w)
  after_recover (answered (i ∷ items)) m w = handle_and_settle (i ∷ items) m w
  after_recover unanswered m w = (valkey_down, m, w)
  after_recover refused m w = (name_lost, m, w)

  unfoldable pub settle_stranded : Mine → World → Ended (Unit {0}) × Mine × World
  unfolding handle_and_settle
  settle_stranded m w = let (answer, w') = recover w in after_recover answer m w'

  -- The handlers of a turn's exceptions.
  abbrev pub after_turn : Ended Turn × Mine × World → Turn × Mine × World
  after_turn (ended t, m, w) = (t, m, w)
  after_turn (name_lost, m, w) = (break_loop, record m { name_gone = true }, w)
  after_turn (valkey_down, m, w) =
      if is_running w
      then (let (due, failures, w') = rest m.failures w in
          (go_on, record m { recovering = true; failures = failures }, w'))
      else (break_loop, record m { recovering = true }, w)

  abbrev pub as_turn : Ended (Unit {0}) × Mine × World → Ended Turn × Mine × World
  as_turn (ended u, m, w) = (ended go_on, m, w)
  as_turn (name_lost, m, w) = (name_lost, m, w)
  as_turn (valkey_down, m, w) = (valkey_down, m, w)

  -- From `if not self.running` to the end of the turn.
  abbrev pub turn_claims : ℕ → Mine → World → Ended Turn × Mine × World
  turn_claims batch_size m w =
      if is_running w then as_turn (run_once batch_size m w) else (ended break_loop, m, w)

  abbrev pub after_stranded : ℕ → Ended (Unit {0}) × Mine × World → Ended Turn × Mine × World
  after_stranded batch_size (ended u, m, w) =
      turn_claims batch_size (record m { recovering = false }) w
  after_stranded batch_size (name_lost, m, w) = (name_lost, m, w)
  after_stranded batch_size (valkey_down, m, w) = (valkey_down, m, w)

  abbrev pub after_name : ℕ → Ended (Unit {0}) → Mine → World → Ended Turn × Mine × World
  after_name batch_size (ended u) m w =
      if m.recovering
      then after_stranded batch_size (settle_stranded m w)
      else turn_claims batch_size m w
  after_name batch_size name_lost m w = (name_lost, m, w)
  after_name batch_size valkey_down m w = (valkey_down, m, w)

  -- One turn of the loop of `run`.
  unfoldable pub run_turn : ℕ → Mine → World → Turn × Mine × World
  unfolding hold_name rest run_once settle_stranded
  run_turn batch_size m w =
      let (held, w') = hold_name w in after_turn (after_name batch_size held m w')

  -- What `run` does after its loop.
  unfoldable pub run_end : Mine → World → World
  run_end m w = if m.name_gone then discard_bulk w else (flush_bulk w).1
