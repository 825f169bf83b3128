-- ===== src/Consumer/Parts.antt =====
-- What src/libtb/consumer calls: the queue, the sieve, the packet processor and the clock.
use turkey_bite.Prelude.{ℕ, Bool, Option, List}
use turkey_bite.Text.{Text}

-- What a call of the queue comes to: an answer, an error of the connection to Valkey, or NotOwner.
pub data Answer {ℓ} (A : Type ℓ) : Type ℓ where
  answered : A → Answer A
  unanswered : Answer A
  refused : Answer A

-- What `process_packet` comes to: it returns, or it raises DeliveryError, an error of the
-- connection to Valkey, or another error.
pub data Processed : Type 0 where
  taken undelivered unreachable unprocessed : Processed

-- What a command on the accounting list comes to: it answers, Valkey does not, or it refuses.
pub data Popped : Type 0 where
  popped : List Text → Popped
  pop_unanswered pop_failed : Popped

-- `World` is the state of all outside the consumer. `should_process` answers none where it raises,
-- and `flush_bulk` where it raises. `is_late` tells whether RENEW_SECONDS have passed since
-- `renewed_now`, and `is_running` reads the flag that a signal clears.
pub record Outside : Type 1 where
  pub World : Type 0
  pub Json : Type 0
  pub decode : Text → Option Json
  pub should_process : Json → Option Bool
  pub process_packet : Json → World → Processed × World
  pub flush_bulk : World → Option ℕ × World
  pub discard_bulk : World → World
  pub is_late : World → Bool
  pub renewed_now : World → World
  pub renew : World → Answer Bool × World
  pub claim : ℕ → World → Answer (List Text) × World
  pub recover : World → Answer (List Text) × World
  pub ack : ℕ → World → Answer (Unit {0}) × World
  pub requeue : List Text → World → Answer ℕ × World
  pub sleep : ℕ → World → World
  pub is_running : World → Bool
  pub accounting_list : World → Option Text
  pub radius_on : World → Bool
  pub trim_accounting : Text → ℕ → World → Popped × World
  pub pop_accounting : Text → ℕ → World → Popped × World
  pub process_nps : Text → World → Processed × World
