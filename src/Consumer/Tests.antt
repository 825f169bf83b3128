-- ===== src/Consumer/Tests.antt =====
-- Runs of the consumer beside small parts, and the theorems at them.
use turkey_bite.Prelude.{
  ℕ, ◌+◌, ◌≤◌, ◌≡◌, refl, Bool, true, false, Option, none, some, List, [], ◌∷◌, leb, ltb,
  if◌then◌else◌,
}
use turkey_bite.Text.{Text, text}
use turkey_bite.Consumer.Parts.{Outside, answered, Processed, taken, unprocessed, popped}
use turkey_bite.Consumer.{Stats, no_stats, ended, handle_batch, rest, backoff_start, backoff_max}
use turkey_bite.Consumer.Batches.{Accounted, handle_batch-Accounted}
use turkey_bite.Consumer.Rests.{Served, slept, rest-Served}

-- The world is a count of half seconds, told to stop at twenty; `d` starts a packet that the sieve
-- drops, `x` one that cannot be processed, and an empty text is no packet.
abbrev letters : Text → Option Text
letters [] = none
letters (c ∷ t) = some (c ∷ t)

abbrev keeps_letter : Text → Option Bool
keeps_letter [] = none
keeps_letter (c ∷ t) =
    if leb c b'd' then (if leb b'd' c then some false else some true) else some true

abbrev takes_letter : Text → Processed
takes_letter [] = unprocessed
takes_letter (c ∷ t) = if leb b'x' c then unprocessed else taken

abbrev small_parts : Outside
small_parts = record {
  World = ℕ;
  Json = Text;
  decode = letters;
  should_process = keeps_letter;
  process_packet = λ packet w. (takes_letter packet, w);
  flush_bulk = λ w. (some 2, w + 1);
  discard_bulk = λ w. w;
  is_late = λ w. false;
  renewed_now = λ w. w;
  renew = λ w. (answered true, w);
  claim = λ n w. (answered [], w);
  recover = λ w. (answered [], w);
  ack = λ n w. (answered tt, w);
  requeue = λ items w. (answered 0, w);
  sleep = λ n w. w + n;
  is_running = λ w. ltb w 20;
  accounting_list = λ w. none;
  radius_on = λ w. false;
  trim_accounting = λ key n w. (popped [], w);
  pop_accounting = λ key n w. (popped [], w);
  process_nps = λ raw w. (taken, w);
}

abbrev five_items : List Text
five_items = text "a" ∷ text "d" ∷ text "x" ∷ [] ∷ text "b" ∷ []

abbrev five_counted : Stats
five_counted = record no_stats { kept = 2; dropped = 1; unreadable = 2; indexed = 2 }

five_handled : handle_batch small_parts five_items no_stats 7 ≡ (ended (some 5), five_counted, 8)
unfolding handle_batch
five_handled = refl

handle_batch-Accounted_example : Accounted small_parts five_items no_stats 5 five_counted 8
handle_batch-Accounted_example =
    handle_batch-Accounted small_parts five_items no_stats 7 5 five_counted 8 five_handled

rest-Served_example :
    (backoff_start ≤ (rest small_parts 3 0).0)
    × ((rest small_parts 3 0).0 ≤ backoff_max)
    × ((rest small_parts 3 0).1 ≡ 4)
    × (served : ℕ) × ((rest small_parts 3 0).2 ≡ slept small_parts served 0)
    × Served small_parts (rest small_parts 3 0).0 (served, (rest small_parts 3 0).2)
rest-Served_example = rest-Served small_parts 3 0
