-- ===== src/Transport/Invariant/Sent.antt =====
-- The sending of one block, and the invariant.
use turkey_bite.Prelude.{
  some-injective, ℕ, ◌+◌, ◌<◌, ◌≡◌, refl, sym, ap, subst, ◌∙◌, inl, inr, true, ◌&&◌, some, ◌++◌,
  arith, Bool-cases, ◌==◌, nat_eq, length, length-append, take, drop,
}
use turkey_bite.Text.{Text}
use turkey_bite.Transport.{
  Outside, Manifest, Sending, chunk_key, is_empty, opened, read_manifest, send_block, manifest_of,
}
use turkey_bite.Transport.Keys.{chunk-set_chunk, manifest-set_chunk}
use turkey_bite.Transport.Blocks.{offset, block, take_next, drop_next, take_all}
use turkey_bite.Transport.Machine.{sending}
use turkey_bite.Transport.Invariant.{Stored, IsWhole, IsUnderWay, Inv}

module _ (o : Outside) (k : ℕ) (content : ℕ → Text) where
  open o use {dumps, digest}
  open o.valkey use {Store, get, set, delete}

  module _ (b n : ℕ) (s : Store) where
    after_set : Store
    after_set = set (chunk_key b n) (block k (content b) n) s

    set-Stored : (b' n' : ℕ) → Stored o k content b' n' s → Stored o k content b' n' after_set
    unfolding after_set
    set-Stored b' n' h i lt =
        chunk-set_chunk o b n (block k (content b) n) s b' i
        ∙ elim (Bool-cases (b' == b && i == n)) [
          | inl t ↦
              let p : b' ≡ b = ground arith in let q : i ≡ n = ground arith in rw (t, p, q) refl
          | inr f ↦ rw f (h i lt)
        ]

    set_next-Stored : Stored o k content b n s → Stored o k content b (n + 1) after_set
    unfolding after_set
    set_next-Stored h i lt =
        chunk-set_chunk o b n (block k (content b) n) s b i ∙ elim (Bool-cases (i == n)) [
          | inl t ↦
              let q : i ≡ n = ground arith in
              let own : (b == b) ≡ true = ground arith in rw (own, t, q) refl
          | inr f ↦ let own : (b == b) ≡ true = ground arith in rw (own, f) (h i (ground arith))
        ]

    set_sound :
        ((b' i : ℕ) (t : Text) → get s (chunk_key b' i) ≡ some t → t ≡ block k (content b') i)
        → (b' i : ℕ) (t : Text) → get after_set (chunk_key b' i) ≡ some t
        → t ≡ block k (content b') i
    unfolding after_set
    set_sound h b' i t e =
        let e' = sym (chunk-set_chunk o b n (block k (content b) n) s b' i) ∙ e in
        elim (Bool-cases (b' == b && i == n)) [
          | inl y ↦
              let p : b' ≡ b = ground arith in
              let q : i ≡ n = ground arith in rw (p, q) (sym (some-injective (rw y at e')))
          | inr f ↦ h b' i t (rw f at e')
        ]

    set-IsWhole :
        ((m : Manifest) → read_manifest o s ≡ some m → IsWhole o k content m s)
        → (m : Manifest) → read_manifest o after_set ≡ some m
        → IsWhole o k content m after_set
    unfolding after_set
    set-IsWhole h m e =
        let w = h m (sym (manifest-set_chunk o b n (block k (content b) n) s) ∙ e) in
        record { describes = w.describes; stored = set-Stored m.built_at m.chunks w.stored }

  -- A round of the loop of `publish` keeps what is due of it.
  send-IsUnderWay :
      (b : ℕ) (at : Sending) (s : Store)
      → IsUnderWay o k content b at s
      → IsUnderWay o k content b
          (send_block o k (take k at.unread) b at s).0
          (send_block o k (take k at.unread) b at s).1
  unfolding send_block after_set
  send-IsUnderWay b at s u =
      let same : take k at.unread ≡ block k (content b) at.next = ap (take k) u.ahead in
      record {
        behind =
            ap (λ (t : Text). at.seen ++ t) same
            ∙ ap (λ (t : Text). t ++ block k (content b) at.next) u.behind
            ∙ take_next k at.next (content b);
        ahead = ap (drop k) u.ahead ∙ drop_next k at.next (content b);
        counted = omega (arith, u.counted, length-append at.seen (take k at.unread));
        stored =
            subst (λ t. Stored o k content b (at.next + 1) (set (chunk_key b at.next) t s))
              (sym same) (set_next-Stored b at.next s u.stored);
      }

  pub send-Inv :
      (b : ℕ) (at : Sending) (s : Store)
      → Inv o k content (sending b at) s
      → Inv o k content
          (sending b (send_block o k (take k at.unread) b at s).0)
          (send_block o k (take k at.unread) b at s).1
  unfolding send_block after_set
  send-Inv b at s v =
      let same : block k (content b) at.next ≡ take k at.unread = sym (ap (take k) v.due.ahead) in
      record {
        sound =
            subst
              (λ t.
                (b' i : ℕ) (u : Text)
                → get (set (chunk_key b at.next) t s) (chunk_key b' i) ≡ some u
                → u ≡ block k (content b') i)
              same (set_sound b at.next s v.sound);
        whole =
            subst
              (λ t.
                (m : Manifest)
                → read_manifest o (set (chunk_key b at.next) t s) ≡ some m
                → IsWhole o k content m (set (chunk_key b at.next) t s))
              same (set-IsWhole b at.next s v.whole);
        due = send-IsUnderWay b at s v.due;
      }

  -- A loop that met the end of the file has sent all of it.
  pub sent-IsWhole :
      (b : ℕ) (at : Sending) (s : Store)
      → 0 < k
      → is_empty (take k at.unread) ≡ true
      → IsUnderWay o k content b at s
      → IsWhole o k content (manifest_of o k b at) s
  unfolding manifest_of
  sent-IsWhole b at s pos end u =
      let all = take_all k (offset k at.next) (content b) pos (rw u.ahead at end) in
      let same : at.seen ≡ content b = u.behind ∙ all in
      record {
        describes = record {
          counted = u.counted ∙ ap (λ (t : Text). length t) same;
          summed = ap digest same;
          covered = all;
        };
        stored = u.stored;
      }

  pub opened-IsUnderWay : (b : ℕ) (s : Store) → IsUnderWay o k content b (opened (content b)) s
  opened-IsUnderWay b s = record {
    behind = refl;
    ahead = refl;
    counted = refl;
    stored = λ i lt. absurd (omega arith);
  }
