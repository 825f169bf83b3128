-- ===== src/Brake/Counting.antt =====
-- How `failed` of console/backend/tbconsole/security/limits.py adds to the history.
use turkey_bite.Prelude.{
  ℕ, ◌+◌, ◌≤◌, ◌≡◌, ◌≢◌, refl, sym, ap, subst, ◌∙◌, inl, inr, Bool, true, false, ◌&&◌, Option, none,
  some, List, [], ◌∷◌, ◌++◌, append-nil, arith, Bool-cases, if◌then◌else◌, ◌==◌, ltb, length, All,
  All-append,
}
use turkey_bite.Text.{Text}
use turkey_bite.Brake.Keys.{Key, key_eq, key_beq_iff, Dict, keys, find, find-put}
use turkey_bite.Brake.{
  Names, State, max_tracked, sweep_every, appended, append, name, or_blank, swept,
}
use turkey_bite.Brake.Windows.{Ordered, IsWindow, IsWindow-append, Ordered-last, All-le}
use turkey_bite.Brake.History.{Wrong, counts_for, times, or_nil, held, Tracks, sweep-Tracks}

times-append :
    (key : Key) (h : List Wrong) (w : Wrong)
    → times key (h ++ w ∷ []) ≡ times key h ++ (if counts_for key w then w.at ∷ [] else [])
times-append key [] w = refl
times-append key (v ∷ h) w = elim (Bool-cases (counts_for key v)) [
  | inl t ↦ rw (t, times-append key h w) refl
  | inr f ↦ rw (f, times-append key h w) refl
]

appended-or_nil : (now : ℕ) (o : Option (List ℕ)) → appended now o ≡ or_nil o ++ now ∷ []
appended-or_nil now none = refl
appended-or_nil now (some ts) = refl

append-held :
    (now : ℕ) (k : Key) (d : Dict) (j : Key)
    → held j (append now k d) ≡ (if j == k then held j d ++ now ∷ [] else held j d)
unfolding append
append-held now k d j =
    ap or_nil (find-put k (appended now (find k d)) d j) ∙ elim (Bool-cases (j == k)) [
      | inl t ↦ rw t (
          appended-or_nil now (find k d)
          ∙ ap (λ (x : Key). held x d ++ now ∷ []) (sym ((key_beq_iff j k).0 t)))
      | inr f ↦ rw f refl
    ]

or_blank-ne-nil : (s : Text) → or_blank s ≢ []
or_blank-ne-nil [] e = cc
or_blank-ne-nil (c ∷ s) e = cc

pub name-ne-nil : (n : Names) (username : Text) → name n username ≢ []
unfolding name
name-ne-nil n username e = or_blank-ne-nil _ e

-- The key of a name is not that of its source.
pair_ne : (j : Key) (who nm : Text) → nm ≢ [] → (j == (who, nm)) ≡ true → (j == (who, [])) ≡ false
pair_ne j who nm ne t = elim (Bool-cases (j == (who, []))) [
  | inl u ↦ absurd (
      ne (
        ap (λ (x : Key). x.1)
          (sym ((key_beq_iff j (who, nm)).0 t) ∙ (key_beq_iff j (who, [])).0 u)))
  | inr f ↦ f
]

module _ (now : ℕ) (who nm : Text) (ne : nm ≢ []) where
  abbrev both : Dict → Dict
  both d = append now (who, []) (append now (who, nm) d)

  abbrev fault : Wrong
  fault = record { who = who; named = nm; at = now }

  both-held :
      (d : Dict) (j : Key)
      → held j (both d) ≡ held j d ++ (if counts_for j fault then now ∷ [] else [])
  both-held d j =
      append-held now (who, []) (append now (who, nm) d) j ∙ elim (Bool-cases (j == (who, nm))) [
        | inl t ↦ rw (pair_ne j who nm ne t, append-held now (who, nm) d j, t) refl
        | inr f ↦ elim (Bool-cases (j == (who, []))) [
          | inl u ↦ rw (u, append-held now (who, nm) d j, f) refl
          | inr g ↦ rw (g, append-held now (who, nm) d j, f) (sym (append-nil (held j d)))
        ]
      ]

  module _ (h : List Wrong) (last finish : ℕ) (le : last ≤ now) (in_time : now ≤ finish)
      (d d' : Dict) where
    pub Wrong-Tracks :
        Tracks h last d → Tracks h finish d' → Tracks (h ++ fault ∷ []) finish (both d')
    Wrong-Tracks t t' = record {
      ordered = λ key.
          subst (Ordered 0) (sym (times-append key h fault))
            (ordered_on key (counts_for key fault));
      bounded = λ key.
          subst (All (λ u. u ≤ finish)) (sym (times-append key h fault))
            (bounded_on key (counts_for key fault));
      windows = λ key.
          subst (λ l. IsWindow finish l (held key (both d'))) (sym (times-append key h fault))
            (subst
              (IsWindow finish (times key h ++ (if counts_for key fault then now ∷ [] else [])))
              (sym (both-held d' key)) (window_on key (counts_for key fault)));
    }
      where
        ordered_on :
            (key : Key) (b : Bool) → Ordered 0 (times key h ++ (if b then now ∷ [] else []))
        ordered_on key true =
            Ordered-last 0 now (times key h) (omega arith) (t.ordered key)
              (All-le last now (times key h) le (t.bounded key))
        ordered_on key false = subst (Ordered 0) (sym (append-nil (times key h))) (t.ordered key)

        bounded_on :
            (key : Key) (b : Bool)
            → All (λ u. u ≤ finish) (times key h ++ (if b then now ∷ [] else []))
        bounded_on key true =
            All-append (λ u. u ≤ finish) (times key h) (now ∷ []) (t'.bounded key) (in_time, tt)
        bounded_on key false = All-append (λ u. u ≤ finish) (times key h) [] (t'.bounded key) tt

        window_on :
            (key : Key) (b : Bool)
            → IsWindow finish
                (times key h ++ (if b then now ∷ [] else []))
                (held key d' ++ (if b then now ∷ [] else []))
        window_on key true = IsWindow-append finish now (times key h) (held key d') (t'.windows key)
        window_on key false =
            subst (λ l. IsWindow finish l (held key d' ++ [])) (sym (append-nil (times key h)))
              (subst (IsWindow finish (times key h)) (sym (append-nil (held key d')))
                (t'.windows key))

pub swept-Tracks :
    (h : List Wrong) (now last : ℕ) (clock : ℕ → ℕ) (s : State)
    → ((i : ℕ) → clock i ≤ last)
    → Tracks h last s.failures
    → Tracks h last (swept now clock s).failures
unfolding swept
swept-Tracks h now last clock s le t =
    elim (Bool-cases
      (ltb max_tracked (length s.failures) && ltb (s.last_sweep + sweep_every) now)) [
        | inl y ↦ rw y (sweep-Tracks h clock last 0 (keys s.failures) s.failures le t)
        | inr f ↦ rw f t
      ]

pub no_failures : (last : ℕ) → Tracks [] last []
unfolding find
no_failures last = record {
  ordered = λ key. tt;
  bounded = λ key. tt;
  windows = λ key. record { gone = []; split = refl; passed = tt };
}
