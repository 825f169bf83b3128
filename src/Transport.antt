-- ===== src/Transport.antt =====
-- src/libtb/index/transport.py: how the domain index travels from the librarian to the workers.
pub mod Commands
mod Keys
pub mod Blocks
pub mod Machine
pub mod Invariant
pub mod Publishing
pub mod Fetching
pub mod RoundTrip
mod Tests
use turkey_bite.Prelude.{
  ℕ, zero, suc, ◌+◌, ◌*◌, Bool, true, false, ◌&&◌, ◌||◌, not, Option, none, some, List, [], ◌∷◌,
  ◌++◌, if◌then◌else◌, ◌==◌, nat_eq, list_eq, length, take, drop, ◌≡◌, ◌≢◌, ◌⊎◌, inl, inr,
}
use turkey_bite.Text.{Text, text}
use turkey_bite.Text.Number.{int, SignedNumber}
use turkey_bite.Text.Number.Decimal.{str}
use turkey_bite.Transport.Commands.{Strings}

abbrev pub manifest_key : Text
manifest_key = text "turkey-bite:index:manifest"

abbrev pub chunk_prefix : Text
chunk_prefix = text "turkey-bite:index:"

abbrev pub chunk_bytes : ℕ
chunk_bytes = 8 * 1024 * 1024

unfoldable pub chunk_key : ℕ → ℕ → Text
chunk_key built_at n = chunk_prefix ++ (str built_at ++ (b':' ∷ str n))

pub record Manifest : Type 0 where
  pub built_at : ℕ
  pub size : ℕ
  pub sha256 : Text
  pub chunks : ℕ
  pub chunk_size : ℕ

-- `dumps` and `loads` are those of `json` on manifests. What does not load as one is `none`.
-- `digest` is the hexadecimal SHA-256 of all the bytes that `update` was given.
pub record Outside : Type 1 where
  pub valkey : Strings
  pub dumps : Manifest → Text
  pub loads : Text → Option Manifest
  pub loads-dumps : (m : Manifest) → loads (dumps m) ≡ some m
  pub dumps-ne-nil : (m : Manifest) → dumps m ≢ []
  pub digest : Text → Text

-- What the loop of `publish` has at hand between two blocks: what is left to read of the file,
-- the bytes given to the digest, how many they are, and the number of the next chunk.
pub record Sending : Type 0 where
  pub unread : Text
  pub seen : Text
  pub count : ℕ
  pub next : ℕ

abbrev pub is_empty : Text → Bool
is_empty [] = true
is_empty (c ∷ s) = false

-- A worker's copy of the index and the marker beside it.
pub record Local : Type 0 where
  pub file : Option Text
  pub marker : Option Text

pub data Failure : Type 0 where
  missing : ℕ → Failure
  wrong_size : Failure
  wrong_checksum : Failure

pub data Outcome : Type 0 where
  unchanged : Outcome
  failed : Failure → Outcome
  installed : Manifest → Outcome

abbrev pub marker_number : Option Text → Option SignedNumber
marker_number none = none
marker_number (some s) = int s

-- The generation of the local copy: `int` strips the marker's text.
unfoldable pub local_generation : Local → Option SignedNumber
local_generation copy = marker_number copy.marker

-- local_generation(path) == built_at
abbrev pub is_generation : Option SignedNumber → ℕ → Bool
is_generation none b = false
is_generation (some k) b = k.magnitude == b && (not k.negative || k.magnitude == 0)

abbrev pub opened : Text → Sending
opened content = record { unread = content; seen = []; count = 0; next = 0 }

module _ (o : Outside) where
  open o use {dumps, loads, digest}
  open o.valkey use {Store, get, set, delete}

  abbrev load_raw : Option Text → Option Manifest
  load_raw none = none
  load_raw (some raw) = if is_empty raw then none else loads raw

  unfoldable pub read_manifest : Store → Option Manifest
  read_manifest s = load_raw (get s manifest_key)

  -- The body of the loop, for a block that is not empty.
  unfoldable pub send_block : ℕ → Text → ℕ → Sending → Store → Sending × Store
  send_block k block b at s = (
    record {
      unread = drop k at.unread;
      seen = at.seen ++ block;
      count = at.count + length block;
      next = at.next + 1;
    },
    set (chunk_key b at.next) block s,
  )

  -- `while True` with fuel; `none` means that the fuel ran out.
  unfoldable pub upload : ℕ → ℕ → ℕ → Sending → Store → Option (Sending × Store)
  upload zero k b at s = none
  upload (suc f) k b at s =
      let rest =
        upload f k b (send_block k (take k at.unread) b at s).0
          (send_block k (take k at.unread) b at s).1 in
      if is_empty (take k at.unread) then some (at, s) else rest

  unfoldable pub manifest_of : ℕ → ℕ → Sending → Manifest
  manifest_of k b at = record {
    built_at = b;
    size = at.count;
    sha256 = digest at.seen;
    chunks = at.next;
    chunk_size = k;
  }

  -- for i in range(i, i + left): redis.delete(chunk_key(b, i))
  unfoldable pub delete_chunks : ℕ → ℕ → ℕ → Store → Store
  delete_chunks b i zero s = s
  delete_chunks b i (suc left) s = delete_chunks b (i + 1) left (delete (chunk_key b i) s)

  unfoldable pub drop_previous : Option Manifest → ℕ → Store → Store
  unfolding delete_chunks
  drop_previous none b s = s
  drop_previous (some m) b s =
      if not (m.built_at == b) then delete_chunks m.built_at 0 m.chunks s else s

  -- The previous manifest is read before the new one takes its place.
  unfoldable pub flip : Manifest → Store → Store
  unfolding read_manifest drop_previous
  flip m s = drop_previous (read_manifest s) m.built_at (set manifest_key (dumps m) s)

  abbrev after_upload : ℕ → ℕ → Option (Sending × Store) → Option (Manifest × Store)
  unfolding manifest_of flip
  after_upload k b none = none
  after_upload k b (some (at, s)) = some (manifest_of k b at, flip (manifest_of k b at) s)

  -- The fuel is one more than the file has bytes.
  unfoldable pub publish : ℕ → Text → ℕ → Store → Option (Manifest × Store)
  unfolding upload after_upload
  publish k content b s = after_upload k b (upload (suc (length content)) k b (opened content) s)

  abbrev received : ℕ → (Text → Failure ⊎ Text) → Option Text → Failure ⊎ Text
  received i rest none = inl (missing i)
  received i rest (some block) = rest block

  -- Chunk `i` is asked for at the moment `i + 1` of the fetch; `written` is what the pending
  -- file holds.
  unfoldable pub download : (ℕ → Store) → ℕ → ℕ → ℕ → Text → Failure ⊎ Text
  download moment b i zero written = inr written
  download moment b i (suc left) written =
      received i (λ block. download moment b (i + 1) left (written ++ block))
        (get (moment (i + 1)) (chunk_key b i))

  abbrev checked : Manifest → Local → Failure ⊎ Text → Outcome × Local
  checked m copy (inl e) = (failed e, copy)
  checked m copy (inr written) =
      if not (length written == m.size)
      then (failed wrong_size, copy)
      else if not (digest written == m.sha256)
      then (failed wrong_checksum, copy)
      else (installed m, record { file = some written; marker = some (str m.built_at) })

  abbrev fetch_manifest : (ℕ → Store) → Local → Option Manifest → Outcome × Local
  unfolding download
  fetch_manifest moment copy none = (unchanged, copy)
  fetch_manifest moment copy (some m) =
      if is_generation (local_generation copy) m.built_at
      then (unchanged, copy)
      else checked m copy (download moment m.built_at 0 m.chunks [])

  -- `moment` gives the store each command meets: the manifest is read at moment 0.
  unfoldable pub fetch_if_stale : (ℕ → Store) → Local → Outcome × Local
  unfolding read_manifest fetch_manifest local_generation
  fetch_if_stale moment copy = fetch_manifest moment copy (read_manifest (moment 0))
