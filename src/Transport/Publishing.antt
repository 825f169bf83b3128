-- ===== src/Transport/Publishing.antt =====
-- What `publish` of src/libtb/index/transport.py comes to: the stages of its machine in a row.
use turkey_bite.Prelude.{
  ℕ, zero, suc, ◌+◌, ◌<◌, ◌≤◌, ◌≡◌, ◌≢◌, refl, ◌∙◌, inl, inr, true, false, ◌&&◌, Option, none, some,
  [], ◌∷◌, arith, Bool-cases, ◌==◌, nat_eq, length, length-drop, take, drop,
}
use turkey_bite.Text.{Text}
use turkey_bite.Transport.{
  Outside, Manifest, Sending, manifest_key, chunk_key, is_empty, opened, read_manifest, send_block,
  upload, manifest_of, delete_chunks, drop_previous, flip, after_upload, publish,
}
use turkey_bite.Transport.Keys.{
  manifest-set_chunk, chunk-delete_chunk, manifest-delete_chunk, manifest-set_manifest,
}
use turkey_bite.Transport.Machine.{
  Stage, idle, sending, reading, dropping, after_flip, turn, Reach, begin, later,
}
use turkey_bite.Transport.Invariant.{IsWhole}
use turkey_bite.Transport.Invariant.Kept.{Reach-Inv}

taken_shortens :
    (k : ℕ) (c : Text) → 0 < k → is_empty (take k c) ≡ false → length (drop k c) < length c
taken_shortens zero c h e = absurd (omega arith)
taken_shortens (suc k) [] h e = cc
taken_shortens (suc k) (x ∷ c) h e = omega (arith, length-drop k c)

module _ (o : Outside) (k : ℕ) (content : ℕ → Text) where
  open o use {dumps}
  open o.valkey use {Store, get, set, delete}

  -- The loop ends, and what it did the machine does in as many turns.
  record Uploaded (b : ℕ) (s : Store) (r : Option (Sending × Store)) : Type 0 where
    at : Sending
    store : Store
    result : r ≡ some (at, store)
    reached : Reach o k content (reading (manifest_of o k b at)) store
    kept : read_manifest o store ≡ read_manifest o s

  upload-Uploaded :
      (f b : ℕ) (at : Sending) (s : Store)
      → 0 < k
      → length at.unread < f
      → Reach o k content (sending b at) s
      → Uploaded b s (upload o f k b at s)
  unfolding upload turn send_block
  upload-Uploaded zero b at s pos lt r = absurd (omega arith)
  upload-Uploaded (suc f) b at s pos lt r = elim (Bool-cases (is_empty (take k at.unread))) [
    | inl t ↦
        rw t
          (record { at = at; store = s; result = refl; reached = rw t at (later r); kept = refl })
    | inr g ↦
        let shorter : length (drop k at.unread) < f =
          omega (arith, taken_shortens k at.unread pos g) in
        let rest =
          upload-Uploaded f b (send_block o k (take k at.unread) b at s).0
            (send_block o k (take k at.unread) b at s).1 pos shorter (rw g at (later r)) in
        rw g (record {
          at = rest.at;
          store = rest.store;
          result = rest.result;
          reached = rest.reached;
          kept = rest.kept ∙ manifest-set_chunk o b at.next (take k at.unread) s;
        })
  ]

  delete_chunks-Reach :
      (b left i : ℕ) (s : Store)
      → Reach o k content (dropping b i left) s
      → Reach o k content idle (delete_chunks o b i left s)
  unfolding delete_chunks turn
  delete_chunks-Reach b zero i s r = later r
  delete_chunks-Reach b (suc left) i s r =
      delete_chunks-Reach b left (i + 1) (delete (chunk_key b i) s) (later r)

  delete_chunks-manifest :
      (b left i : ℕ) (s : Store) → read_manifest o (delete_chunks o b i left s) ≡ read_manifest o s
  unfolding delete_chunks
  delete_chunks-manifest b zero i s = refl
  delete_chunks-manifest b (suc left) i s =
      delete_chunks-manifest b left (i + 1) (delete (chunk_key b i) s)
      ∙ manifest-delete_chunk o b i s

  -- What is not there stays away.
  delete_chunks_gone :
      (b left i : ℕ) (s : Store) (j : ℕ)
      → get s (chunk_key b j) ≡ none
      → get (delete_chunks o b i left s) (chunk_key b j) ≡ none
  unfolding delete_chunks
  delete_chunks_gone b zero i s j h = h
  delete_chunks_gone b (suc left) i s j h =
      delete_chunks_gone b left (i + 1) (delete (chunk_key b i) s) j (
        chunk-delete_chunk o b i s b j
        ∙ elim (Bool-cases (b == b && j == i)) [ inl t ↦ rw t refl | inr f ↦ rw f h ])

  delete_chunks-none :
      (b left i : ℕ) (s : Store) (j : ℕ)
      → i ≤ j
      → j < i + left
      → get (delete_chunks o b i left s) (chunk_key b j) ≡ none
  unfolding delete_chunks
  delete_chunks-none b zero i s j le lt = absurd (omega arith)
  delete_chunks-none b (suc left) i s j le lt = elim (Bool-cases (j == i)) [
    | inl t ↦
        let own : (b == b && j == i) ≡ true = ground arith in
        delete_chunks_gone b left (i + 1) (delete (chunk_key b i) s) j
          (chunk-delete_chunk o b i s b j ∙ rw own refl)
    | inr f ↦
        delete_chunks-none b left (i + 1) (delete (chunk_key b i) s) j (ground arith) (omega arith)
  ]

  drop_previous-Reach :
      (b : ℕ) (previous : Option Manifest) (s : Store)
      → Reach o k content (after_flip o k b previous) s
      → Reach o k content idle (drop_previous o previous b s)
  unfolding drop_previous
  drop_previous-Reach b none s r = r
  drop_previous-Reach b (some p) s r = elim (Bool-cases (p.built_at == b)) [
    | inl t ↦ rw t (rw t at r)
    | inr f ↦ rw f (delete_chunks-Reach p.built_at p.chunks 0 s (rw f at r))
  ]

  drop_previous-manifest :
      (b : ℕ) (previous : Option Manifest) (s : Store)
      → read_manifest o (drop_previous o previous b s) ≡ read_manifest o s
  unfolding drop_previous
  drop_previous-manifest b none s = refl
  drop_previous-manifest b (some p) s = elim (Bool-cases (p.built_at == b)) [
    | inl t ↦ rw t refl
    | inr f ↦ rw f (delete_chunks-manifest p.built_at p.chunks 0 s)
  ]

  drop_previous-none :
      (b : ℕ) (p : Manifest) (s : Store) (i : ℕ)
      → p.built_at ≢ b
      → i < p.chunks
      → get (drop_previous o (some p) b s) (chunk_key p.built_at i) ≡ none
  unfolding drop_previous
  drop_previous-none b p s i ne lt =
      let f : (p.built_at == b) ≡ false = ground arith in
      rw f (delete_chunks-none p.built_at p.chunks 0 s i (omega arith) (omega arith))

  -- A publish returns; its manifest is the one to be read and names its generation, every chunk of
  -- it is there, and those of the generation that it replaced are gone.
  pub record Published (b : ℕ) (s : Store) (r : Option (Manifest × Store)) : Type 0 where
    pub manifest : Manifest
    pub store : Store
    pub result : r ≡ some (manifest, store)
    pub generation : manifest.built_at ≡ b
    pub current : read_manifest o store ≡ some manifest
    pub whole : IsWhole o k content manifest store
    pub replaced :
        (p : Manifest) (i : ℕ)
        → read_manifest o s ≡ some p
        → p.built_at ≢ b
        → i < p.chunks
        → get store (chunk_key p.built_at i) ≡ none
    pub reached : Reach o k content idle store

  flip-Reach :
      (m : Manifest) (s : Store)
      → Reach o k content (reading m) s
      → Reach o k content idle (flip o m s)
  unfolding flip turn
  flip-Reach m s r =
      drop_previous-Reach m.built_at (read_manifest o s) (set manifest_key (dumps m) s)
        (later (later r))

  flip-manifest : (m : Manifest) (s : Store) → read_manifest o (flip o m s) ≡ some m
  unfolding flip
  flip-manifest m s =
      drop_previous-manifest m.built_at (read_manifest o s) (set manifest_key (dumps m) s)
      ∙ manifest-set_manifest o m s

  flip-none :
      (m p : Manifest) (s : Store) (i : ℕ)
      → read_manifest o s ≡ some p
      → p.built_at ≢ m.built_at
      → i < p.chunks
      → get (flip o m s) (chunk_key p.built_at i) ≡ none
  unfolding flip
  flip-none m p s i e ne lt =
      rw e (drop_previous-none m.built_at p (set manifest_key (dumps m) s) i ne lt)

  -- With blocks of one byte at least, and begun at any moment of publishing, also after a librarian
  -- died at some stage, `publish` returns. Then the manifest read is its own and names the new generation, describes the file and has all
  -- its chunks there, the chunks of the manifest it replaced, of another generation, are gone, and
  -- the machine reaches the same store by its turns.
  pub publish-Published :
      (st : Stage) (s : Store) (b : ℕ)
      → 0 < k
      → Reach o k content st s
      → Published b s (publish o k (content b) b s)
  unfolding publish after_upload manifest_of
  publish-Published st s b pos r =
      let up =
        upload-Uploaded (suc (length (content b))) b (opened (content b)) s pos (omega arith)
          (begin r b) in
      let m = manifest_of o k b up.at in
      let end = flip-Reach m up.store up.reached in
      record {
        manifest = m;
        store = flip o m up.store;
        result = rw up.result refl;
        generation = refl;
        current = flip-manifest m up.store;
        whole = (Reach-Inv o k content pos end).whole m (flip-manifest m up.store);
        replaced = λ p i e ne lt. flip-none m p up.store i (up.kept ∙ e) ne lt;
        reached = end;
      }
