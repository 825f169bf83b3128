-- ===== src/Transport/Invariant/Kept.antt =====
-- The steps of publishing, and the invariant.
use turkey_bite.Prelude.{
  some-injective, ℕ, zero, suc, ◌+◌, ◌<◌, ◌≡◌, ◌≢◌, sym, subst, ◌∙◌, inl, inr, false, ◌&&◌, Option,
  none, some, arith, Bool-cases, ◌==◌, nat_eq, take,
}
use turkey_bite.Text.{Text}
use turkey_bite.Transport.{Outside, Manifest, manifest_key, chunk_key, is_empty, read_manifest}
use turkey_bite.Transport.Keys.{
  chunk-delete_chunk, chunk-set_manifest, manifest-delete_chunk, manifest-set_manifest,
}
use turkey_bite.Transport.Machine.{
  Stage, idle, sending, reading, flipping, dropping, after_flip, turn, Reach, start, begin, later,
}
use turkey_bite.Transport.Invariant.{IsWhole, Due, Inv}
use turkey_bite.Transport.Invariant.Sent.{send-Inv, sent-IsWhole, opened-IsUnderWay}

module _ (o : Outside) (k : ℕ) (content : ℕ → Text) where
  open o use {dumps, digest}
  open o.valkey use {Store, get, set, delete}

  flipped-IsWhole :
      (m : Manifest) (s : Store)
      → IsWhole o k content m s
      → IsWhole o k content m (set manifest_key (dumps m) s)
  flipped-IsWhole m s w = record {
    describes = w.describes;
    stored = λ i lt. chunk-set_manifest o (dumps m) s m.built_at i ∙ w.stored i lt;
  }

  -- The generation that is dropped is not the one that was flipped to.
  after_flip-Due :
      (m : Manifest) (previous : Option Manifest) (s : Store)
      → read_manifest o s ≡ some m
      → Due o k content (after_flip o k m.built_at previous) s
  after_flip-Due m none s e = tt
  after_flip-Due m (some p) s e = elim (Bool-cases (p.built_at == m.built_at)) [
    | inl t ↦ rw t tt
    | inr f ↦ rw f (λ m' e'.
        let same : m ≡ m' = some-injective (sym e ∙ e') in
        subst (λ (x : Manifest). x.built_at ≢ p.built_at) same (λ q. ground arith))
  ]

  flip-Inv :
      (m : Manifest) (previous : Option Manifest) (s : Store)
      → Inv o k content (flipping m previous) s
      → Inv o k content (after_flip o k m.built_at previous) (set manifest_key (dumps m) s)
  flip-Inv m previous s v = record {
    sound = λ b i t e. v.sound b i t (sym (chunk-set_manifest o (dumps m) s b i) ∙ e);
    whole = λ m' e.
        subst (λ (x : Manifest). IsWhole o k content x (set manifest_key (dumps m) s))
          (some-injective (sym (manifest-set_manifest o m s) ∙ e)) (flipped-IsWhole m s v.due);
    due = after_flip-Due m previous (set manifest_key (dumps m) s) (manifest-set_manifest o m s);
  }

  drop-Inv :
      (b i left : ℕ) (s : Store)
      → Inv o k content (dropping b i (suc left)) s
      → Inv o k content (dropping b (i + 1) left) (delete (chunk_key b i) s)
  drop-Inv b i left s v = record {
    sound = λ b' j t e.
        let e' = sym (chunk-delete_chunk o b i s b' j) ∙ e in
        elim (Bool-cases (b' == b && j == i)) [
          | inl y ↦ let gone : ◌≡◌ {A = Option Text} none (some t) = rw y at e' in cc
          | inr f ↦ v.sound b' j t (rw f at e')
        ];
    whole = λ m e.
        let e' = sym (manifest-delete_chunk o b i s) ∙ e in
        let w = v.whole m e' in
        let ne : m.built_at ≢ b = v.due m e' in
        record {
          describes = w.describes;
          stored = λ j lt.
              let kept : (m.built_at == b && j == i) ≡ false = ground (arith, ne) in
              chunk-delete_chunk o b i s m.built_at j ∙ rw kept (w.stored j lt);
        };
    due = λ m e. v.due m (sym (manifest-delete_chunk o b i s) ∙ e);
  }

  module _ (pos : 0 < k) where
    turn-Inv :
        (st : Stage) (s : Store)
        → Inv o k content st s
        → Inv o k content (turn o k st s).0 (turn o k st s).1
    unfolding turn
    turn-Inv idle s v = v
    turn-Inv (sending b at) s v = elim (Bool-cases (is_empty (take k at.unread))) [
      | inl t ↦ rw t (record {
        sound = v.sound;
        whole = v.whole;
        due = sent-IsWhole o k content b at s pos t v.due;
      })
      | inr f ↦ rw f (send-Inv o k content b at s v)
    ]
    turn-Inv (reading m) s v = record { sound = v.sound; whole = v.whole; due = v.due }
    turn-Inv (flipping m previous) s v = flip-Inv m previous s v
    turn-Inv (dropping b i zero) s v = record { sound = v.sound; whole = v.whole; due = tt }
    turn-Inv (dropping b i (suc left)) s v = drop-Inv b i left s v

    -- With blocks of one byte at least, at every moment that publishing reaches, also where a
    -- librarian died: a chunk is that block of its generation's file that its number says; the
    -- manifest, if there is one, describes its generation's file, all of whose chunks are there; and
    -- what is due of the stage at hand holds.
    pub Reach-Inv : {st : Stage} {s : Store} → Reach o k content st s → Inv o k content st s
    Reach-Inv (start f) = record {
      sound = λ b i t e. let gone = sym (f.no_chunk b i) ∙ e in cc;
      whole = λ m e. let gone = sym f.no_manifest ∙ e in cc;
      due = tt;
    }
    Reach-Inv (begin {s} r b) =
        let v = Reach-Inv r in
        record { sound = v.sound; whole = v.whole; due = opened-IsUnderWay o k content b s }
    Reach-Inv (later {st} {s} r) = turn-Inv st s (Reach-Inv r)
