-- ===== src/Transport/Keys.antt =====
-- The keys of src/libtb/index/transport.py, and what a command on one of them leaves under another.
use turkey_bite.Prelude.{
  ne_test, ℕ, ◌≡◌, ◌≢◌, refl, sym, ap, ◌∙◌, inl, inr, true, false, ◌&&◌, none, some, [], ◌∷◌, arith,
  Bool-cases, if◌then◌else◌, ◌==◌, nat_eq, list_eq, list_beq_iff, eq_refl, drop,
}
use turkey_bite.Text.{Text, text, split}
use turkey_bite.Text.Labels.{split-append, split_label}
use turkey_bite.Text.Number.Decimal.{str, str-injective, str-IsLabel}
use turkey_bite.Transport.{Outside, Manifest, manifest_key, chunk_key, read_manifest, load_raw}

key_parts : (b n : ℕ) → split b':' (drop 18 (chunk_key b n)) ≡ str b ∷ str n ∷ []
unfolding chunk_key
key_parts b n =
    split-append b':' (str b) (str n)
    ∙ rw (split_label b':' (str b) (str-IsLabel b), split_label b':' (str n) (str-IsLabel n)) refl

pub chunk_key-injective : (b n b' n' : ℕ) → chunk_key b n ≡ chunk_key b' n' → (b ≡ b') × (n ≡ n')
chunk_key-injective b n b' n' e =
    let parts : str b ∷ str n ∷ [] ≡ str b' ∷ str n' ∷ [] =
      sym (key_parts b n) ∙ ap (λ (k : Text). split b':' (drop 18 k)) e ∙ key_parts b' n' in
    (str-injective b b' (cc parts), str-injective n n' (cc parts))

pub chunk-ne-manifest : (b n : ℕ) → chunk_key b n ≢ manifest_key
unfolding split
chunk-ne-manifest b n e =
    let parts : str b ∷ str n ∷ [] ≡ text "manifest" ∷ [] =
      sym (key_parts b n) ∙ ap (λ (k : Text). split b':' (drop 18 k)) e in
    cc parts

-- A chunk has a key of its own.
pub same_chunk : (b n b' n' : ℕ) → (chunk_key b n == chunk_key b' n') ≡ (b == b' && n == n')
same_chunk b n b' n' = elim (Bool-cases (chunk_key b n == chunk_key b' n')) [
  | inl t ↦
      let (p, q) =
        chunk_key-injective b n b' n' ((list_beq_iff (chunk_key b n) (chunk_key b' n')).0 t) in
      rw t (ground arith)
  | inr f ↦ rw f (other f)
]
  where
    other : (chunk_key b n == chunk_key b' n') ≡ false → false ≡ (b == b' && n == n')
    other f = elim (Bool-cases (b == b' && n == n')) [
      | inl t ↦
          let p : b ≡ b' = ground arith in
          let q : n ≡ n' = ground arith in
          let e : (chunk_key b n == chunk_key b' n') ≡ true =
            ap (λ k. k == chunk_key b' n') (ap (λ x. chunk_key x n) p ∙ ap (chunk_key b') q)
            ∙ eq_refl (chunk_key b' n') in
          cc
      | inr g ↦ sym g
    ]

module _ (o : Outside) where
  open o use {dumps, loads, loads-dumps}
  open o.valkey use {Store, get, set, delete, get-set, get-delete}

  pub chunk-set_chunk :
      (b n : ℕ) (v : Text) (s : Store) (b' n' : ℕ)
      → get (set (chunk_key b n) v s) (chunk_key b' n')
        ≡ (if b' == b && n' == n then some v else get s (chunk_key b' n'))
  chunk-set_chunk b n v s b' n' =
      get-set (chunk_key b n) v s (chunk_key b' n') ∙ rw (same_chunk b' n' b n) refl

  pub chunk-delete_chunk :
      (b n : ℕ) (s : Store) (b' n' : ℕ)
      → get (delete (chunk_key b n) s) (chunk_key b' n')
        ≡ (if b' == b && n' == n then none else get s (chunk_key b' n'))
  chunk-delete_chunk b n s b' n' =
      get-delete (chunk_key b n) s (chunk_key b' n') ∙ rw (same_chunk b' n' b n) refl

  pub chunk-set_manifest :
      (v : Text) (s : Store) (b n : ℕ)
      → get (set manifest_key v s) (chunk_key b n) ≡ get s (chunk_key b n)
  chunk-set_manifest v s b n =
      get-set manifest_key v s (chunk_key b n)
      ∙ rw (ne_test (chunk_key b n) manifest_key (chunk-ne-manifest b n)) refl

  pub manifest-set_chunk :
      (b n : ℕ) (v : Text) (s : Store)
      → read_manifest o (set (chunk_key b n) v s) ≡ read_manifest o s
  unfolding read_manifest
  manifest-set_chunk b n v s =
      rw
        (
          get-set (chunk_key b n) v s manifest_key,
          ne_test manifest_key (chunk_key b n) (λ e. chunk-ne-manifest b n (sym e)),
        )
        refl

  pub manifest-delete_chunk :
      (b n : ℕ) (s : Store) → read_manifest o (delete (chunk_key b n) s) ≡ read_manifest o s
  unfolding read_manifest
  manifest-delete_chunk b n s =
      rw
        (
          get-delete (chunk_key b n) s manifest_key,
          ne_test manifest_key (chunk_key b n) (λ e. chunk-ne-manifest b n (sym e)),
        )
        refl

  load_raw_written : (t : Text) → t ≢ [] → load_raw o (some t) ≡ loads t
  load_raw_written [] h = absurd (h refl)
  load_raw_written (c ∷ t) h = refl

  pub manifest-set_manifest :
      (m : Manifest) (s : Store) → read_manifest o (set manifest_key (dumps m) s) ≡ some m
  unfolding read_manifest
  manifest-set_manifest m s =
      ap (load_raw o) (get-set manifest_key (dumps m) s manifest_key)
      ∙ load_raw_written (dumps m) (o.dumps-ne-nil m)
      ∙ loads-dumps m
