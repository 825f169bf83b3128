-- ===== src/Transport/Invariant.antt =====
-- The invariant of Valkey while generations are published.
mod Sent
pub mod Kept
use turkey_bite.Prelude.{ℕ, ◌<◌, ◌≡◌, ◌≢◌, some, length, take, drop}
use turkey_bite.Text.{Text}
use turkey_bite.Transport.{Outside, Manifest, Sending, chunk_key, read_manifest}
use turkey_bite.Transport.Blocks.{offset, block}
use turkey_bite.Transport.Machine.{Stage, idle, sending, reading, flipping, dropping}

module _ (o : Outside) (k : ℕ) (content : ℕ → Text) where
  open o use {digest}
  open o.valkey use {Store, get}

  -- The first `n` chunks of `b` are there.
  abbrev pub Stored : ℕ → ℕ → Store → Type 0
  Stored b n s = (i : ℕ) → i < n → get s (chunk_key b i) ≡ some (block k (content b) i)

  -- The manifest describes the file of its generation.
  pub record Describes (m : Manifest) : Type 0 where
    pub counted : m.size ≡ length (content m.built_at)
    pub summed : m.sha256 ≡ digest (content m.built_at)
    pub covered : take (offset k m.chunks) (content m.built_at) ≡ content m.built_at

  pub record IsWhole (m : Manifest) (s : Store) : Type 0 where
    pub describes : Describes m
    pub stored : Stored m.built_at m.chunks s

  pub record IsUnderWay (b : ℕ) (at : Sending) (s : Store) : Type 0 where
    pub behind : at.seen ≡ take (offset k at.next) (content b)
    pub ahead : at.unread ≡ drop (offset k at.next) (content b)
    pub counted : at.count ≡ length at.seen
    pub stored : Stored b at.next s

  abbrev pub Due : Stage → Store → Type 0
  Due idle s = Unit {0}
  Due (sending b at) s = IsUnderWay b at s
  Due (reading m) s = IsWhole m s
  Due (flipping m previous) s = IsWhole m s
  Due (dropping b i left) s = (m : Manifest) → read_manifest o s ≡ some m → m.built_at ≢ b

  pub record Inv (st : Stage) (s : Store) : Type 0 where
    -- A chunk is a block of its own generation.
    pub sound : (b i : ℕ) (t : Text) → get s (chunk_key b i) ≡ some t → t ≡ block k (content b) i
    -- Every chunk that the manifest names is there.
    pub whole : (m : Manifest) → read_manifest o s ≡ some m → IsWhole m s
    pub due : Due st s
