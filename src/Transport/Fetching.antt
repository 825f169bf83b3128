-- ===== src/Transport/Fetching.antt =====
-- What `fetch_if_stale` of src/libtb/index/transport.py leaves of a worker's copy, whatever is
-- published while it runs.
use turkey_bite.Prelude.{
  some-injective, ℕ, zero, suc, ◌+◌, ◌<◌, ◌≡◌, ◌⊎◌, refl, sym, ap, subst, ◌∙◌, inl, inr, true,
  false, Option, none, some, [], ◌++◌, arith, Bool-cases, Option-cases, ◌==◌, nat_eq, list_eq,
  eq_refl, length, take,
}
use turkey_bite.Text.{Text}
use turkey_bite.Text.Number.Decimal.{str, int-str}
use turkey_bite.Transport.{
  Outside, Manifest, Local, Failure, missing, wrong_size, wrong_checksum, Outcome, unchanged,
  failed, installed, chunk_key, read_manifest, local_generation, is_generation, download, checked,
  fetch_manifest, fetch_if_stale,
}
use turkey_bite.Transport.Blocks.{offset, block, take_next}
use turkey_bite.Transport.Machine.{Stage, Reach}
use turkey_bite.Transport.Invariant.{Describes, IsWhole, Inv}
use turkey_bite.Transport.Invariant.Kept.{Reach-Inv}

module _ (o : Outside) (k : ℕ) (content : ℕ → Text) where
  open o use {digest}
  open o.valkey use {Store, get}

  -- The worker's copy is that of the manifest already, or there is no manifest.
  abbrev pub Current : Local → Option Manifest → Type 0
  Current copy none = Unit {0}
  Current copy (some m) = is_generation (local_generation copy) m.built_at ≡ true

  -- What a worker holds of a manifest's generation.
  abbrev pub copy_of : Manifest → Local
  copy_of m = record { file = some (content m.built_at); marker = some (str m.built_at) }

  -- What each outcome of a fetch means. `moment` gives the store that each of its commands met.
  abbrev pub Fetched : (ℕ → Store) → Local → Outcome × Local → Type 0
  Fetched moment copy (unchanged, after) =
      (after ≡ copy) × Current copy (read_manifest o (moment 0))
  Fetched moment copy (failed (missing i), after) =
      (after ≡ copy)
      × ((m : Manifest) × (read_manifest o (moment 0) ≡ some m)
          × (i < m.chunks)
          × (get (moment (i + 1)) (chunk_key m.built_at i) ≡ none))
  Fetched moment copy (failed _, after) = ⊥
  Fetched moment copy (installed m, after) =
      (read_manifest o (moment 0) ≡ some m)
      × (after.file ≡ some (content m.built_at))
      × (after.marker ≡ some (str m.built_at))

  module _ (moment : ℕ → Store) (b : ℕ) where
    -- What a download gives: the bytes of the blocks, or the number of the first chunk missing.
    abbrev Downloaded : ℕ → Failure ⊎ Text → Type 0
    Downloaded end (inl (missing i)) = (i < end) × (get (moment (i + 1)) (chunk_key b i) ≡ none)
    Downloaded end (inl _) = ⊥
    Downloaded end (inr t) = t ≡ take (offset k end) (content b)

    module _
        (sound : (n i : ℕ) (t : Text)
          → get (moment n) (chunk_key b i) ≡ some t
          → t ≡ block k (content b) i) where
      download-Downloaded :
          (left i : ℕ) (written : Text)
          → written ≡ take (offset k i) (content b)
          → Downloaded (i + left) (download o moment b i left written)
      unfolding download
      download-Downloaded zero i written e =
          let same : i ≡ i + 0 = omega arith in e ∙ ap (λ n. take (offset k n) (content b)) same
      download-Downloaded (suc left) i written e =
          elim (Option-cases (get (moment (i + 1)) (chunk_key b i))) [
            | inl gone ↦ rw gone (omega arith, gone)
            | inr (t, found) ↦
                let shift : (i + 1) + left ≡ i + suc left = omega arith in
                let next : written ++ t ≡ take (offset k (i + 1)) (content b) =
                  ap (λ (w : Text). w ++ t) e
                  ∙ ap (λ (w : Text). take (offset k i) (content b) ++ w) (sound (i + 1) i t found)
                  ∙ take_next k i (content b) in
                rw found (
                  subst (λ n. Downloaded n (download o moment b (i + 1) left (written ++ t))) shift
                    (download-Downloaded left (i + 1) (written ++ t) next))
          ]

  module _ (moment : ℕ → Store) (copy : Local) (m : Manifest) (d : Describes o k content m) where
    -- A download that met every chunk passes both checks.
    checked-Fetched :
        (r : Failure ⊎ Text)
        → read_manifest o (moment 0) ≡ some m
        → Downloaded moment m.built_at m.chunks r
        → Fetched moment copy (checked o m copy r)
    checked-Fetched (inl (missing i)) first (lt, gone) = (refl, (m, first, lt, gone))
    checked-Fetched (inr t) first e =
        let same : t ≡ content m.built_at = e ∙ d.covered in
        let size : (length t == m.size) ≡ true =
          rw (same, d.counted) (eq_refl (length (content m.built_at))) in
        let sum : (digest t == m.sha256) ≡ true =
          rw (same, d.summed) (eq_refl (digest (content m.built_at))) in
        rw (size, sum) (first, ap some same, refl)
    checked-Fetched (inl wrong_size) first h = elim h [ ]
    checked-Fetched (inl wrong_checksum) first h = elim h [ ]

  fetch_manifest-Fetched :
      (moment : ℕ → Store) (copy : Local) (first : Option Manifest)
      → ((n : ℕ) → (st : Stage) × Inv o k content st (moment n))
      → read_manifest o (moment 0) ≡ first
      → Fetched moment copy (fetch_manifest o moment copy first)
  unfolding fetch_manifest
  fetch_manifest-Fetched moment copy none v e = (refl, rw e tt)
  fetch_manifest-Fetched moment copy (some m) v e =
      elim (Bool-cases (is_generation (local_generation copy) m.built_at)) [
        | inl t ↦ rw t (refl, rw e t)
        | inr f ↦
            let whole = (v 0).1.whole m e in
            rw f (
              checked-Fetched moment copy m whole.describes
                (download o moment m.built_at 0 m.chunks []) e
                (subst
                  (λ n. Downloaded moment m.built_at n (download o moment m.built_at 0 m.chunks []))
                  (omega arith)
                  (download-Downloaded moment m.built_at (λ n. (v n).1.sound m.built_at) m.chunks 0
                    [] refl)))
      ]

  module _ (pos : 0 < k) where
    -- With blocks of one byte at least: a fetch whose every command meets some moment of publishing
    -- leaves the copy alone, if there is no manifest, the copy is current or a chunk was missing when
    -- it was asked for; or it installs the file of the manifest that it read, whole and under its
    -- marker. Neither the check of the size nor that of the digest ever fails.
    pub fetch_if_stale-Fetched :
        (moment : ℕ → Store) (copy : Local)
        → ((n : ℕ) → (st : Stage) × Reach o k content st (moment n))
        → Fetched moment copy (fetch_if_stale o moment copy)
    unfolding fetch_if_stale
    fetch_if_stale-Fetched moment copy r =
        fetch_manifest-Fetched moment copy (read_manifest o (moment 0))
          (λ n. ((r n).0, Reach-Inv o k content pos (r n).1)) refl

    settled :
        (s : Store) (copy : Local) (m : Manifest) (r : Outcome × Local)
        → read_manifest o s ≡ some m
        → IsWhole o k content m s
        → is_generation (local_generation copy) m.built_at ≡ false
        → Fetched (λ n. s) copy r
        → r ≡ (installed m, copy_of m)
    settled s copy m (unchanged, after) e w stale (_, current) =
        let now : is_generation (local_generation copy) m.built_at ≡ true = rw e at current in cc
    settled s copy m (failed (missing i), after) e w stale (_, (m', e', lt, gone)) =
        let same : m' ≡ m = some-injective (sym e' ∙ e) in
        let lt' : i < m.chunks = subst (λ (x : Manifest). i < x.chunks) same lt in
        let gone' = subst (λ (x : Manifest). get s (chunk_key x.built_at i) ≡ none) same gone in
        let there = w.stored i lt' in cc
    settled s copy m (failed wrong_size, after) e w stale h = elim h [ ]
    settled s copy m (failed wrong_checksum, after) e w stale h = elim h [ ]
    settled s copy m (installed m', after) e w stale (e', file, mark) =
        let same : m' ≡ m = some-injective (sym e' ∙ e) in
        λ i. (
          installed (same i),
          record {
            file = (file ∙ ap (λ (x : Manifest). some (content x.built_at)) same) i;
            marker = (mark ∙ ap (λ (x : Manifest). some (str x.built_at)) same) i;
          },
        )

    own_generation : (m : Manifest) → is_generation (local_generation (copy_of m)) m.built_at ≡ true
    unfolding local_generation
    own_generation m = rw (int-str m.built_at) (ground arith)

    current_unchanged :
        (s : Store) (copy : Local) (m : Manifest)
        → read_manifest o s ≡ some m
        → is_generation (local_generation copy) m.built_at ≡ true
        → fetch_if_stale o (λ n. s) copy ≡ (unchanged, copy)
    unfolding fetch_if_stale fetch_manifest
    current_unchanged s copy m e t = ap (fetch_manifest o (λ n. s) copy) e ∙ rw t refl

    -- With blocks of one byte at least, and when nothing is published meanwhile, at whatever stage the
    -- last publish stands: where there is a manifest, a worker whose copy is not of the generation of the manifest installs that generation's file under its marker,
    -- and the next fetch finds the copy current.
    pub fetch_if_stale_quiet :
        (st : Stage) (s : Store) (copy : Local) (m : Manifest)
        → Reach o k content st s
        → read_manifest o s ≡ some m
        → is_generation (local_generation copy) m.built_at ≡ false
        → (fetch_if_stale o (λ n. s) copy ≡ (installed m, copy_of m))
          × (fetch_if_stale o (λ n. s) (copy_of m) ≡ (unchanged, copy_of m))
    fetch_if_stale_quiet st s copy m r e stale = (
      settled s copy m (fetch_if_stale o (λ n. s) copy) e ((Reach-Inv o k content pos r).whole m e)
          stale (fetch_if_stale-Fetched (λ n. s) copy (λ n. (st, r))),
      current_unchanged s (copy_of m) m e (own_generation m),
    )
