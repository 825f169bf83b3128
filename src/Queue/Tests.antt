-- ===== src/Queue/Tests.antt =====
-- Runs of the queue over a store in memory, and its theorems at them.
use turkey_bite.Prelude.{
  ◌≡◌, ◌≢◌, refl, true, false, none, List, [], ◌∷◌, ◌++◌, ◌==◌, list_eq, nat_eq, list_beq_iff,
  arith, if◌then◌else◌, length, elem, drop, map,
}
use turkey_bite.Text.{Text, text, sorted_set}
use turkey_bite.Queue.Commands.{Memory, memory}
use turkey_bite.Queue.{
  ListQueue, list_queue, settled, not_owner, claim, ack, requeue, reserve, renew, recover_orphans,
  orphans, generated_name, base_of, is_truthy,
}
use turkey_bite.Queue.Moves.{IsApart}
use turkey_bite.Queue.Settling.{requeue-claim, ack-claim, reserve_excludes}
use turkey_bite.Queue.Names.{Swept, recover_orphans-Swept}

abbrev q : ListQueue
q = record {
  key = text "q";
  consumer = text "w-01";
  processing_key = text "q:processing:w-01";
  owner_key = text "q:owner:w-01";
  owner = text "host:1:a";
  reserved = false;
}

made : list_queue (text "q") (text "w-01") (text "host:1:a") ≡ q
unfolding list_queue
made = refl

abbrev rival : ListQueue
rival = record q { owner = text "host:2:b" }

abbrev stored : Memory
stored = record {
  lists = λ k.
      if k == text "q"
      then text "a" ∷ text "b" ∷ text "c" ∷ []
      else if k == text "q:processing:w-02"
      then text "x" ∷ text "y" ∷ []
      else [];
  values = λ k. none;
}

apart : IsApart memory q
apart = λ e. cc

two_claimed : (claim memory q 2 stored).0 ≡ text "a" ∷ text "b" ∷ []
unfolding claim
two_claimed = refl

names :
    (generated_name (text "w") (text "w-01") ≡ true)
    × (generated_name (text "w") (text "w-b-01") ≡ false)
    × (generated_name (text "w") (text "w1-01") ≡ false)
    × (generated_name (text "w") (text "w-") ≡ false)
unfolding generated_name
names = (refl, refl, refl, refl)

swept :
    (recover_orphans memory (text "q") [] (text "w") none (text "q:processing:w-02" ∷ []) stored).0
    ≡ (1, 2)
unfolding recover_orphans sorted_set generated_name
swept = refl

requeue-claim_example :
    ((requeue memory q (claim memory q 2 stored).0 (claim memory q 2 stored).1).0
      ≡ settled (length (claim memory q 2 stored).0))
    × ((requeue memory q (claim memory q 2 stored).0 (claim memory q 2 stored).1).1.lists (text "q")
        ≡ text "a" ∷ text "b" ∷ text "c" ∷ [])
    × ((requeue memory q (claim memory q 2 stored).0 (claim memory q 2 stored).1).1.lists
          (text "q:processing:w-01")
        ≡ [])
requeue-claim_example = requeue-claim memory q apart 2 stored (omega arith) refl (λ e. cc)

ack-claim_example :
    ((ack memory q (length (claim memory q 2 stored).0) (claim memory q 2 stored).1).0 ≡ settled tt)
    × ((ack memory q (length (claim memory q 2 stored).0) (claim memory q 2 stored).1).1.lists
          (text "q:processing:w-01")
        ≡ [])
    × ((claim memory q 2 stored).0
          ++ (ack memory q (length (claim memory q 2 stored).0) (claim memory q 2 stored).1).1.lists
              (text "q")
        ≡ text "a" ∷ text "b" ∷ text "c" ∷ [])
ack-claim_example = ack-claim memory q apart 2 stored (omega arith) refl (λ e. cc)

granted : (reserve memory q stored).0 ≡ true
unfolding reserve
granted = refl

differ : (q.owner == rival.owner) ≡ false
differ = refl

two_processes : q.owner ≢ rival.owner
two_processes e = let same = (list_beq_iff q.owner rival.owner).1 e in absurd (clash same)
  where
    clash : false ≡ true → ⊥
    clash e = cc

reserve_excludes_example :
    let s' = (reserve memory q stored).2 in
    let stale = record rival { reserved = true } in
    ((renew memory (reserve memory q stored).1 s').0 ≡ true)
    × ((reserve memory rival s').0 ≡ false)
    × (renew memory stale s' ≡ (false, s'))
    × (ack memory stale 1 s' ≡ (not_owner, s'))
    × (requeue memory stale (text "a" ∷ []) s' ≡ (not_owner, s'))
reserve_excludes_example =
    reserve_excludes memory q rival stored 0 (text "a" ∷ []) refl two_processes granted

abbrev found : List Text
found = text "q:processing:w-02" ∷ []

recover_orphans-Swept_example :
    let names = orphans memory (text "q") [] (text "w") none found stored in
    let (counts, s') = recover_orphans memory (text "q") [] (text "w") none found stored in
    Swept memory (text "q") names stored s' counts.1
    × ((name : Text)
        → elem name names ≡ true
        → (elem name (map (λ c. base_of (text "q") ++ c) []) ≡ false)
          × (is_truthy (
                stored.values
                  (text "q" ++ (text ":owner:" ++ drop (length (base_of (text "q"))) name)))
              ≡ false))
recover_orphans-Swept_example =
    recover_orphans-Swept memory (text "q") [] (text "w") none found stored refl
