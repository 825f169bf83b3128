-- ===== src/Brake/Crowds.antt =====
-- The gates of console/backend/tbconsole/security/limits.py, against who is there.
use turkey_bite.Prelude.{
  ℕ, suc, ◌+◌, ◌-◌, ◌≤◌, ◌<◌, ◌≡◌, refl, sym, ap, subst, ◌∙◌, ◌↔◌, inl, inr, true, Option, none,
  some, List, [], ◌∷◌, ◌++◌, arith, Bool-cases, leb, leb→le, leb-eq-false, ◌==◌, nat_eq, eq_refl,
  length, length-append, All, All-append, All-append_left, All-append_right, some-injective,
}
use turkey_bite.Brake.Gates.{
  Gates, set_holding, gate_at, take_place, enter, is_entry, leave, Crowd, nobody, arrives, refused,
  starts, quits, ends,
}

-- The dict has a gate exactly while `n`, the number of those who are there, is not 0, and that gate
-- counts them.
pub data Counts (n : ℕ) (s : Gates) : Type 0 where
  shut : n ≡ 0 → s.entry ≡ none → Counts n s
  kept : (i : ℕ) → s.entry ≡ some i → s.holding i ≡ n → 0 < n → Counts n s

abbrev pub IsEntry : Option ℕ → ℕ → Type 0
IsEntry entry i = entry ≡ some i

-- They are no more than the gate has turns and places, they are counted, and all of them have their
-- places at the gate of the dict.
pub record Fits (turns queue : ℕ) (w r : List ℕ) (s : Gates) : Type 0 where
  pub few : length w + length r ≤ turns + queue
  pub counted : Counts (length w + length r) s
  pub waiting : All (IsEntry s.entry) w
  pub inside : All (IsEntry s.entry) r

-- The gate to be entered: it is the dict's, and counts those who are there, nobody at a new one.
record AtGate (n : ℕ) (s : Gates) (at : ℕ × Gates) : Type 0 where
  entry : at.1.entry ≡ some at.0
  holding : at.1.holding at.0 ≡ n
  same : (j : ℕ) → s.entry ≡ some j → at.1.entry ≡ some j

at_gate : (n : ℕ) (s : Gates) → Counts n s → AtGate n s (gate_at s.entry s)
at_gate n s (shut z e) =
    rw e (record { entry = refl; holding = rw (eq_refl s.made) (sym z); same = λ j k. cc })
at_gate n s (kept i e h pos) = rw e (record { entry = refl; holding = h; same = λ j k. k })

All-same :
    (e e' : Option ℕ) (l : List ℕ)
    → ((j : ℕ) → e ≡ some j → e' ≡ some j)
    → All (IsEntry e) l
    → All (IsEntry e') l
All-same e e' [] f h = tt
All-same e e' (i ∷ l) f (k, h) = (f i k, All-same e e' l f h)

-- After a place is taken or refused.
data Taken (turns queue n : ℕ) (at : ℕ × Gates) : Option ℕ × Gates → Type 0 where
  busy : n ≡ turns + queue → Taken turns queue n at (none, at.1)
  placed : n < turns + queue → Taken turns queue n at (some at.0, set_holding at.0 (n + 1) at.1)

take_place-Taken :
    (turns queue n : ℕ) (at : ℕ × Gates)
    → n ≤ turns + queue
    → at.1.holding at.0 ≡ n
    → Taken turns queue n at (take_place turns queue at)
take_place-Taken turns queue n at few h =
    elim (Bool-cases (leb (turns + queue) (at.1.holding at.0))) [
      | inl t ↦ rw t (busy (omega (arith, leb→le (turns + queue) (at.1.holding at.0) t, few, h)))
      | inr f ↦ rw f (
          subst (λ m. Taken turns queue n at (some at.0, set_holding at.0 (m + 1) at.1)) (sym h)
            (placed (omega (arith, leb-eq-false (turns + queue) (at.1.holding at.0) f, h))))
    ]

module _ (turns queue : ℕ) (pos : 0 < turns + queue) where
  module _ (w r : List ℕ) (s : Gates) (fits : Fits turns queue w r s) (at : ℕ × Gates)
      (gate : AtGate (length w + length r) s at) where
    placed-Fits :
        {res : Option ℕ × Gates}
        → Taken turns queue (length w + length r) at res
        → (i : ℕ) → res.0 ≡ some i
        → Fits turns queue (i ∷ w) r res.1
    placed-Fits (busy full) i e = let no : ⊥ = cc in absurd no
    placed-Fits (placed lt) i e = record {
      few = omega arith;
      counted = kept at.0 gate.entry (rw (eq_refl at.0) (omega arith)) (omega arith);
      waiting = (gate.entry ∙ e, All-same s.entry at.1.entry w gate.same fits.waiting);
      inside = All-same s.entry at.1.entry r gate.same fits.inside;
    }

    busy-Fits :
        {res : Option ℕ × Gates}
        → Taken turns queue (length w + length r) at res
        → res.0 ≡ none
        → Fits turns queue w r res.1
    busy-Fits (busy full) e = record {
      few = fits.few;
      counted = kept at.0 gate.entry gate.holding (omega arith);
      waiting = All-same s.entry at.1.entry w gate.same fits.waiting;
      inside = All-same s.entry at.1.entry r gate.same fits.inside;
    }
    busy-Fits (placed lt) e = let no : ⊥ = cc in absurd no

    Taken-none :
        {res : Option ℕ × Gates}
        → Taken turns queue (length w + length r) at res
        → (res.0 ≡ none) ↔ (length w + length r ≡ turns + queue)
    Taken-none (busy full) = ((λ e. full), λ e. refl)
    Taken-none (placed lt) = ((λ e. let no : ⊥ = cc in absurd no), λ e. absurd (omega arith))

  entered :
      (w r : List ℕ) (s : Gates)
      → Fits turns queue w r s
      → AtGate (length w + length r) s (gate_at s.entry s)
        × Taken turns queue (length w + length r) (gate_at s.entry s) (enter turns queue s)
  unfolding enter
  entered w r s fits =
      let gate = at_gate (length w + length r) s fits.counted in
      (
        gate,
        take_place-Taken turns queue (length w + length r) (gate_at s.entry s) fits.few
            gate.holding,
      )

-- After one of `n + 1` has left the gate of the dict.
data Left (n : ℕ) (s s' : Gates) : Type 0 where
  gone : n ≡ 0 → s'.entry ≡ none → Left n s s'
  stays : (i : ℕ) → s'.entry ≡ s.entry → s.entry ≡ some i → s'.holding i ≡ n → 0 < n → Left n s s'

leave-Left : (n i : ℕ) (s : Gates) → s.entry ≡ some i → s.holding i ≡ suc n → Left n s (leave i s)
unfolding leave
leave-Left n i s e h =
    let s' : Gates = set_holding i (s.holding i - 1) s in
    let now : s'.holding i ≡ n = rw (eq_refl i) (omega (arith, h)) in
    let own : is_entry s.entry i ≡ true = rw e (eq_refl i) in
    elim (Bool-cases (s'.holding i == 0)) [
      | inl t ↦ rw (t, own) (gone (ground arith) refl)
      | inr f ↦ rw f (stays i refl e now (ground arith))
    ]

All-none : (P : ℕ → Type 0) (l : List ℕ) → length l ≡ 0 → All P l
All-none P [] e = tt
All-none P (x ∷ l) e = absurd (omega (arith, e))

-- The one at a place of a list, and the others.
left_out :
    (P : ℕ → Type 0) (a : List ℕ) (i : ℕ) (b l : List ℕ)
    → l ≡ a ++ i ∷ b
    → All P l
    → P i × All P (a ++ b) × (length l ≡ suc (length (a ++ b)))
left_out P a i b l e h =
    let here = subst (All P) e h in
    let front = All-append_left P a (i ∷ b) here in
    let (own, back) = All-append_right P a (i ∷ b) here in
    (
      own,
      All-append P a b front back,
      omega (arith, ap (λ (t : List ℕ). length t) e, length-append a (i ∷ b), length-append a b),
    )

module _ (turns queue : ℕ) where
  after_leave :
      (w r : List ℕ) (i : ℕ) (s : Gates)
      → s.entry ≡ some i
      → Counts (suc (length w + length r)) s
      → suc (length w + length r) ≤ turns + queue
      → All (IsEntry s.entry) w
      → All (IsEntry s.entry) r
      → Fits turns queue w r (leave i s)
  after_leave w r i s e (shut z f) few p q = absurd (omega (arith, z))
  after_leave w r i s e (kept j f h pos) few p q = by_left (
      leave-Left (length w + length r) i s e
        (subst (λ g. s.holding g ≡ suc (length w + length r)) (some-injective (sym f ∙ e)) h))
    where
      by_left : Left (length w + length r) s (leave i s) → Fits turns queue w r (leave i s)
      by_left (gone z f') = record {
        few = omega arith;
        counted = shut z f';
        waiting = All-none _ w (omega (arith, z));
        inside = All-none _ r (omega (arith, z));
      }
      by_left (stays g same f' h' pos') = record {
        few = omega arith;
        counted = kept g (same ∙ f') h' pos';
        waiting = All-same s.entry (leave i s).entry w (λ j k. same ∙ k) p;
        inside = All-same s.entry (leave i s).entry r (λ j k. same ∙ k) q;
      }

  module _ (pos : 0 < turns + queue) where
    Crowd-Fits : {w r : List ℕ} {s : Gates} → Crowd turns queue w r s → Fits turns queue w r s
    Crowd-Fits nobody = record {
      few = omega arith;
      counted = shut refl refl;
      waiting = tt;
      inside = tt;
    }
    Crowd-Fits (arrives {w} {r} {s} c i e) =
        let f = Crowd-Fits c in
        let (gate, taken) = entered turns queue pos w r s f in
        placed-Fits turns queue pos w r s f (gate_at s.entry s) gate taken i e
    Crowd-Fits (refused {w} {r} {s} c e) =
        let f = Crowd-Fits c in
        let (gate, taken) = entered turns queue pos w r s f in
        busy-Fits turns queue pos w r s f (gate_at s.entry s) gate taken e
    Crowd-Fits (starts {w} {r} {s} c a i b e lt) =
        let f = Crowd-Fits c in
        let (own, others, n) = left_out (IsEntry s.entry) a i b w e f.waiting in
        let same : length w + length r ≡ length (a ++ b) + suc (length r) = omega (arith, n) in
        record {
          few = omega (arith, same, f.few);
          counted = subst (λ m. Counts m s) same f.counted;
          waiting = others;
          inside = (own, f.inside);
        }
    Crowd-Fits (quits {w} {r} {s} c a i b e) =
        let f = Crowd-Fits c in
        let (own, others, n) = left_out (IsEntry s.entry) a i b w e f.waiting in
        let same : length w + length r ≡ suc (length (a ++ b) + length r) = omega (arith, n) in
        after_leave (a ++ b) r i s own (subst (λ m. Counts m s) same f.counted)
          (omega (arith, same, f.few)) others f.inside
    Crowd-Fits (ends {w} {r} {s} c a i b e) =
        let f = Crowd-Fits c in
        let (own, others, n) = left_out (IsEntry s.entry) a i b r e f.inside in
        let same : length w + length r ≡ suc (length w + length (a ++ b)) = omega (arith, n) in
        after_leave w (a ++ b) i s own (subst (λ m. Counts m s) same f.counted)
          (omega (arith, same, f.few)) f.waiting others

    -- Whoever comes to a key with a turn or a place, is refused, starts, is cancelled or is done: those
    -- who are there are no more than the turns and places, all at the gate of the dict, which counts
    -- them exactly and is gone when nobody is there; and the next one is refused exactly when they are
    -- as many as the turns and places.
    pub enter-Crowd :
        {w r : List ℕ} {s : Gates}
        → Crowd turns queue w r s
        → Fits turns queue w r s
          × (((enter turns queue s).0 ≡ none) ↔ (length w + length r ≡ turns + queue))
    enter-Crowd {w} {r} {s} c =
        let f = Crowd-Fits c in
        let (gate, taken) = entered turns queue pos w r s f in
        (f, Taken-none turns queue pos w r s f (gate_at s.entry s) gate taken)
