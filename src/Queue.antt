-- ===== src/Queue.antt =====
-- src/libtb/queue/__init__.py: a durable work queue on a Valkey list.
-- Valkey is a service, so its commands are arguments, with the documented laws that the queue
-- relies on (Queue/Commands.antt). A Lua script runs there in one step: it is a function of the
-- store. An item and a value are texts. The store that a function takes is the one at the moment
-- when Valkey answers, so the wait of BLMOVE and the passing of time are changes before the call.
pub mod Commands
pub mod Moves
pub mod Settling
pub mod Names
mod Tests
use turkey_bite.Prelude.{
  ℕ, zero, suc, ◌+◌, ◌-◌, Bool, true, false, ◌&&◌, ◌||◌, not, Option, none, some, List, [], ◌∷◌,
  ◌++◌, length, drop, ltb, leb, if◌then◌else◌, ◌==◌, nat_eq, list_eq, elem, keep, map,
}
use turkey_bite.Text.{Text, text, starts_with, sorted_set}
use turkey_bite.Text.Number.{is_digit}
use turkey_bite.Queue.Commands.{Valkey}

abbrev pub processing_prefix : Text
processing_prefix = text "processing:"

abbrev pub requeue_slack : ℕ
requeue_slack = 10000

abbrev pub owner_ttl : ℕ
owner_ttl = 90

-- A queue object: the four keys and texts that its constructor makes, and whether it reserved.
pub record ListQueue : Type 0 where
  pub key : Text
  pub consumer : Text
  pub processing_key : Text
  pub owner_key : Text
  pub owner : Text
  pub reserved : Bool

-- ListQueue.__init__; `owner` is the host name, the process and a random part.
unfoldable pub list_queue : Text → Text → Text → ListQueue
list_queue key consumer owner = record {
  key = key;
  consumer = consumer;
  processing_key = key ++ (text ":" ++ (processing_prefix ++ consumer));
  owner_key = key ++ (text ":owner:" ++ consumer);
  owner = owner;
  reserved = false;
}

-- What a call may raise besides Valkey's own errors.
pub data Settled {ℓ} (A : Type ℓ) : Type ℓ where
  settled : A → Settled A
  not_owner : Settled A

-- re.compile(re.escape(prefix) + r'-\d+').fullmatch(name), over ASCII digits
abbrev pub all_digits : Text → Bool
all_digits [] = true
all_digits (c ∷ s) = is_digit c && all_digits s

abbrev some_digits : Text → Bool
some_digits [] = false
some_digits (c ∷ s) = all_digits (c ∷ s)

unfoldable pub generated_name : Text → Text → Bool
generated_name prefix name =
    starts_with (prefix ++ text "-") name && some_digits (drop (length prefix + 1) name)

-- bool(reply)
abbrev pub is_truthy : Option Text → Bool
is_truthy none = false
is_truthy (some []) = false
is_truthy (some (c ∷ t)) = true

abbrev pub is_empty : Text → Bool
is_empty [] = true
is_empty (c ∷ t) = false

abbrev pub is_none : Option (List Text) → Bool
is_none none = true
is_none (some given) = false

abbrev pub holds : ListQueue → Option Text → Bool
holds q none = false
holds q (some held) = held == q.owner

-- f'{key}:{PROCESSING_PREFIX}'
abbrev pub base_of : Text → Text
base_of key = key ++ (text ":" ++ processing_prefix)

-- The processing lists of the consumers given, or those that SCAN answered, with a prefix only
-- those of its generated names. An empty prefix is none.
abbrev pub candidates : Text → Text → Option (List Text) → List Text → List Text
candidates key prefix (some given) scanned = map (λ c. base_of key ++ c) given
candidates key prefix none scanned =
    if is_empty prefix
    then scanned
    else keep (λ name. generated_name prefix (drop (length (base_of key)) name)) scanned

module _ (v : Valkey) where
  open v use {
    Store, items, value, rpush, lmove_left, lmove_right, ltrim, set_nx, set_ex, expire, delete,
  }

  -- `lmove(source, target, 'RIGHT', 'LEFT')` until it answers None, or `n` were moved
  unfoldable pub move_back : ℕ → Text → Text → Store → ℕ × Store
  move_back zero source target s = (0, s)
  move_back (suc n) source target s =
      let (answer, s') = lmove_right source target s in
      elim answer [
        | none ↦ (0, s')
        | some item ↦ let (moved, s'') = move_back n source target s' in (suc moved, s'')
      ]

  unfoldable pub requeue_list : Text → Text → Store → ℕ × Store
  unfolding move_back
  requeue_list key name s = move_back (length (items s name) + requeue_slack) name key s

  -- The loop of `recover_orphans` over the names that are left. `every` is `consumers is None`.
  unfoldable pub sweep : Bool → Text → List Text → Store → (ℕ × ℕ) × Store
  unfolding requeue_list
  sweep every key [] s = ((0, 0), s)
  sweep every key (name ∷ names) s =
      let (moved, s') = requeue_list key name s in
      let (counts, s'') = sweep every key names s' in
      let swept = if ltb 0 moved || every then suc counts.0 else counts.0 in
      ((swept, moved + counts.1), s'')

  -- Neither to be kept nor held.
  abbrev pub orphan_test : Text → List Text → Store → Text → Bool
  orphan_test key keep_consumers s name =
      not (elem name (map (λ c. base_of key ++ c) keep_consumers))
      && not (is_truthy (value s (key ++ (text ":owner:" ++ drop (length (base_of key)) name))))

  -- The names to sweep, in the order of the sweep.
  unfoldable pub orphans :
      Text → List Text → Text → Option (List Text) → List Text → Store → List Text
  orphans key keep_consumers prefix consumers scanned s =
      sorted_set (keep (orphan_test key keep_consumers s) (candidates key prefix consumers scanned))

  unfoldable pub recover_orphans :
      Text → List Text → Text → Option (List Text) → List Text → Store → (ℕ × ℕ) × Store
  unfolding orphans sweep
  recover_orphans key keep_consumers prefix consumers scanned s =
      sweep (is_none consumers) key (orphans key keep_consumers prefix consumers scanned s) s

  -- RENEW_SCRIPT
  unfoldable pub renew_script : ListQueue → Store → ℕ × Store
  renew_script q s = elim (value s q.owner_key) [
    | none ↦ (1, set_ex q.owner_key q.owner owner_ttl s)
    | some held ↦ if held == q.owner then (1, expire q.owner_key owner_ttl s) else (0, s)
  ]

  -- RELEASE_SCRIPT
  unfoldable pub release_script : ListQueue → Store → Store
  release_script q s = if holds q (value s q.owner_key) then delete q.owner_key s else s

  unfoldable pub reserve : ListQueue → Store → Bool × ListQueue × Store
  reserve q s =
      let (done, s') = set_nx q.owner_key q.owner owner_ttl s in
      (done, record q { reserved = done }, s')

  unfoldable pub renew : ListQueue → Store → Bool × Store
  unfolding renew_script
  renew q s =
      let (answer, s') = renew_script q s in if q.reserved then (ltb 0 answer, s') else (true, s)

  unfoldable pub release : ListQueue → Store → ListQueue × Store
  unfolding release_script
  release q s = if q.reserved then (record q { reserved = false }, release_script q s) else (q, s)

  unfoldable pub push : ListQueue → Text → Store → Store
  push q payload s = rpush q.key payload s

  unfoldable pub depth : ListQueue → Store → ℕ
  depth q s = length (items s q.key)

  unfoldable pub in_flight : ListQueue → Store → ℕ
  in_flight q s = length (items s q.processing_key)

  unfoldable pub recover : ListQueue → Store → List Text
  recover q s = items s q.processing_key

  -- CLAIM_SCRIPT
  unfoldable pub claim_script : ℕ → ListQueue → Store → List Text × Store
  claim_script zero q s = ([], s)
  claim_script (suc n) q s =
      let (answer, s') = lmove_left q.key q.processing_key s in
      elim answer [
        | none ↦ ([], s')
        | some item ↦ let (rest, s'') = claim_script n q s' in (item ∷ rest, s'')
      ]

  unfoldable pub claim : ListQueue → ℕ → Store → List Text × Store
  unfolding claim_script
  claim q max_items s =
      let (answer, s') = lmove_left q.key q.processing_key s in
      elim answer [
        | none ↦ ([], s')
        | some item ↦
            let (rest, s'') = claim_script (max_items - 1) q s' in
            if ltb 1 max_items then (item ∷ rest, s'') else (item ∷ [], s')
      ]

  -- ACK_SCRIPT, by the consumer's own name for -1
  unfoldable pub ack_script : ListQueue → ℕ → Store → Settled (Unit {0}) × Store
  ack_script q count s =
      if holds q (value s q.owner_key)
      then (settled tt, ltrim q.processing_key count s)
      else (not_owner, s)

  unfoldable pub ack : ListQueue → ℕ → Store → Settled (Unit {0}) × Store
  unfolding ack_script
  ack q zero s = (settled tt, s)
  ack q (suc n) s =
      if q.reserved then ack_script q (suc n) s else (settled tt, ltrim q.processing_key (suc n) s)

  -- REQUEUE_SCRIPT
  unfoldable pub requeue_script : ListQueue → ℕ → Store → Settled ℕ × Store
  unfolding move_back
  requeue_script q count s =
      let (moved, s') = move_back count q.processing_key q.key s in
      if holds q (value s q.owner_key) then (settled moved, s') else (not_owner, s)

  unfoldable pub requeue : ListQueue → List Text → Store → Settled ℕ × Store
  unfolding requeue_script move_back
  requeue q batch s =
      let (moved, s') = move_back (length batch) q.processing_key q.key s in
      if q.reserved then requeue_script q (length batch) s else (settled moved, s')
