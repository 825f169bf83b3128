-- ===== src/Transport/Tests.antt =====
-- Two generations of a small file, published and fetched, and the properties at these.
use turkey_bite.Prelude.{ℕ, zero, suc, ◌≡◌, ◌≢◌, refl, Option, none, some, [], ◌∷◌, arith}
use turkey_bite.Text.{Text}
use turkey_bite.Text.Number.Decimal.{str}
use turkey_bite.Transport
use turkey_bite.Transport.Commands.{in_memory}
use turkey_bite.Transport.{
  Outside, Manifest, Local, Outcome, installed, unchanged, failed, missing, chunk_key,
  read_manifest, local_generation, is_generation, publish, fetch_if_stale,
}
use turkey_bite.Transport.Machine.{Stage, turn, Reach, start, begin, later}
use turkey_bite.Transport.Invariant.{Inv}
use turkey_bite.Transport.Invariant.Kept.{Reach-Inv}
use turkey_bite.Transport.Publishing.{Published, publish-Published}
use turkey_bite.Transport.Fetching.{Fetched, copy_of, fetch_if_stale-Fetched, fetch_if_stale_quiet}
use turkey_bite.Transport.RoundTrip.{fetch_if_stale-publish}

abbrev write : Manifest → Text
write m = m.built_at ∷ m.size ∷ m.chunks ∷ m.chunk_size ∷ m.sha256

abbrev read : Text → Option Manifest
read (b ∷ n ∷ c ∷ k ∷ sum) =
    some (record { built_at = b; size = n; sha256 = sum; chunks = c; chunk_size = k })
read _ = none

write-ne-nil : (m : Manifest) → write m ≢ []
write-ne-nil m e = cc

abbrev simple : Outside
simple = record {
  valkey = in_memory;
  dumps = write;
  loads = read;
  loads-dumps = λ m. refl;
  dumps-ne-nil = write-ne-nil;
  digest = λ s. s;
}

-- The file built at `b`, in blocks of two bytes.
abbrev file_of : ℕ → Text
file_of b = b ∷ 7 ∷ 9 ∷ []

record Moment : Type 0 where
  stage : Stage
  store : Text → Option Text
  reach : Reach simple 2 file_of stage store

nothing : read_manifest simple (λ k. none) ≡ none
unfolding read_manifest
nothing = refl

abbrev empty : Moment
empty = record {
  stage = Stage.idle;
  store = λ k. none;
  reach = start (record { no_manifest = nothing; no_chunk = λ b i. refl });
}

abbrev begun : ℕ → Moment → Moment
begun b m = record { stage = _; store = m.store; reach = begin m.reach b }

abbrev after : ℕ → Moment → Moment
after zero m = m
after (suc n) m = let p = after n m in record { stage = _; store = _; reach = later p.reach }

-- Generation 3 is published, and 5 is under way: its first block is sent.
abbrev under_way : Moment
under_way = after 1 (begun 5 (after 5 (begun 3 empty)))

-- The same with both sent and the first chunk of generation 3 deleted.
abbrev dropping : Moment
dropping = after 5 under_way

manifest_of_3 : Manifest
manifest_of_3 = record { built_at = 3; size = 3; sha256 = file_of 3; chunks = 2; chunk_size = 2 }

no_copy : Local
no_copy = record { file = none; marker = none }

first_published : read_manifest simple under_way.store ≡ some manifest_of_3
unfolding read_manifest turn manifest_of_3 Transport.send_block Transport.chunk_key
    Transport.manifest_of str
first_published = refl

published_file :
    (fetch_if_stale simple (λ n. under_way.store) no_copy).1
    ≡ copy_of simple 2 file_of manifest_of_3
unfolding fetch_if_stale turn manifest_of_3 no_copy Transport.send_block Transport.chunk_key
    Transport.manifest_of str
published_file = refl

-- The manifest is read before the flip and the first chunk after its deletion.
overtaken : ℕ → Text → Option Text
overtaken zero = under_way.store
overtaken (suc n) = dropping.store

overtaken_fetch : fetch_if_stale simple overtaken no_copy ≡ (failed (missing 0), no_copy)
unfolding fetch_if_stale overtaken turn no_copy Transport.send_block Transport.chunk_key
    Transport.manifest_of str
overtaken_fetch = refl

overtaken-Reach : (n : ℕ) → (st : Stage) × Reach simple 2 file_of st (overtaken n)
unfolding overtaken
overtaken-Reach zero = (under_way.stage, under_way.reach)
overtaken-Reach (suc n) = (dropping.stage, dropping.reach)

Reach-Inv_example : Inv simple 2 file_of dropping.stage dropping.store
Reach-Inv_example = Reach-Inv simple 2 file_of (omega arith) dropping.reach

publish-Published_example :
    Published simple 2 file_of 5 under_way.store (publish simple 2 (file_of 5) 5 under_way.store)
publish-Published_example =
    publish-Published simple 2 file_of under_way.stage under_way.store 5 (omega arith)
      under_way.reach

fetch_if_stale-Fetched_example :
    Fetched simple 2 file_of overtaken no_copy (fetch_if_stale simple overtaken no_copy)
fetch_if_stale-Fetched_example =
    fetch_if_stale-Fetched simple 2 file_of (omega arith) overtaken no_copy overtaken-Reach

fetch_if_stale_quiet_example :
    (fetch_if_stale simple (λ n. under_way.store) no_copy
      ≡ (installed manifest_of_3, copy_of simple 2 file_of manifest_of_3))
    × (fetch_if_stale simple (λ n. under_way.store) (copy_of simple 2 file_of manifest_of_3)
        ≡ (unchanged, copy_of simple 2 file_of manifest_of_3))
unfolding no_copy local_generation
fetch_if_stale_quiet_example =
    fetch_if_stale_quiet simple 2 file_of (omega arith) under_way.stage under_way.store no_copy
      manifest_of_3 under_way.reach first_published refl

abbrev fifth :
    Published simple 2 file_of 5 under_way.store (publish simple 2 (file_of 5) 5 under_way.store)
fifth =
    publish-Published simple 2 file_of under_way.stage under_way.store 5 (omega arith)
      under_way.reach

fetch_if_stale-publish_example :
    (fetch_if_stale simple (λ n. fifth.store) no_copy).1
    ≡ record { file = some (5 ∷ 7 ∷ 9 ∷ []); marker = some (str 5) }
unfolding no_copy local_generation
fetch_if_stale-publish_example =
    fetch_if_stale-publish simple 2 file_of under_way.stage under_way.store 5 no_copy fifth.manifest
      fifth.store (omega arith) under_way.reach fifth.result refl
