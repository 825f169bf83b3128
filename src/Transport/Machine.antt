-- ===== src/Transport/Machine.antt =====
-- `publish` of src/libtb/index/transport.py one command at a time, so that a worker may read
-- between any two, and a librarian that dies may leave any of them undone.
use turkey_bite.Prelude.{
  ℕ, zero, suc, ◌+◌, ◌≡◌, not, Option, none, some, if◌then◌else◌, ◌==◌, nat_eq, take,
}
use turkey_bite.Text.{Text}
use turkey_bite.Transport.{
  Outside, Manifest, Sending, manifest_key, chunk_key, is_empty, opened, read_manifest, send_block,
  manifest_of,
}

-- Where `publish` stands: in its loop, about to read the manifest that it replaces, about to write
-- its own, or deleting the chunks from `i` on of a generation that was replaced.
pub data Stage : Type 0 where
  idle : Stage
  sending : ℕ → Sending → Stage
  reading : Manifest → Stage
  flipping : Manifest → Option Manifest → Stage
  dropping : ℕ → ℕ → ℕ → Stage

module _ (o : Outside) (k : ℕ) where
  open o use {dumps}
  open o.valkey use {Store, get, set, delete}

  abbrev pub after_flip : ℕ → Option Manifest → Stage
  after_flip b none = idle
  after_flip b (some m) = if not (m.built_at == b) then dropping m.built_at 0 m.chunks else idle

  -- One round of the loops, or one statement outside them.
  unfoldable pub turn : Stage → Store → Stage × Store
  turn idle s = (idle, s)
  turn (sending b at) s =
      if is_empty (take k at.unread) then (reading (manifest_of o k b at), s) else (
        sending b (send_block o k (take k at.unread) b at s).0,
        (send_block o k (take k at.unread) b at s).1,
      )
  turn (reading m) s = (flipping m (read_manifest o s), s)
  turn (flipping m previous) s = (after_flip m.built_at previous, set manifest_key (dumps m) s)
  turn (dropping b i zero) s = (idle, s)
  turn (dropping b i (suc left)) s = (dropping b (i + 1) left, delete (chunk_key b i) s)

  -- Nothing was published yet.
  pub record IsFresh (s : Store) : Type 0 where
    pub no_manifest : read_manifest o s ≡ none
    pub no_chunk : (b i : ℕ) → get s (chunk_key b i) ≡ none

-- `content b` is the file that the librarian built at `b`. A publish may begin whatever became of
-- the one before: it ended, or its librarian died at any stage.
pub data Reach (o : Outside) (k : ℕ) (content : ℕ → Text) : Stage → o.valkey.Store → Type 0 where
  start : {s : o.valkey.Store} → IsFresh o k s → Reach o k content idle s
  begin :
      {st : Stage} {s : o.valkey.Store}
      → Reach o k content st s
      → (b : ℕ) → Reach o k content (sending b (opened (content b))) s
  later :
      {st : Stage} {s : o.valkey.Store}
      → Reach o k content st s
      → Reach o k content (turn o k st s).0 (turn o k st s).1
