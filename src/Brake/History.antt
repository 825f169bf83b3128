-- ===== src/Brake/History.antt =====
-- The failures that console/backend/tbconsole/security/limits.py was told of, and how its dict
-- stands to them.
use turkey_bite.Prelude.{
  ℕ, ◌+◌, ◌≤◌, ◌≡◌, refl, sym, ap, subst, ◌∙◌, inl, inr, Bool, ◌||◌, Option, none, some, List, [],
  ◌∷◌, Bool-cases, if◌then◌else◌, ◌==◌, length, keep, All,
}
use turkey_bite.Text.{Text}
use turkey_bite.Brake.Keys.{Key, key_eq, key_beq_iff, Dict, find, find-put, find-remove}
use turkey_bite.Brake.{drop_old, kept_window, recent_of, recent, sweep}
use turkey_bite.Brake.Windows.{
  in_window, Ordered, IsWindow, IsWindow-later, drop_old-count, drop_old-IsWindow, All-le,
}

-- A wrong password for a name, from a source.
pub record Wrong : Type 0 where
  pub who : Text
  pub named : Text
  pub at : ℕ

-- The times by which a key counts: those of a source and a name, or with the empty name those of a
-- source. The oldest comes first.
abbrev pub counts_for : Key → Wrong → Bool
counts_for key w = key == (w.who, w.named) || key == (w.who, [])

abbrev pub times : Key → List Wrong → List ℕ
times key [] = []
times key (w ∷ h) = let rest = times key h in if counts_for key w then w.at ∷ rest else rest

-- How many failures of a key are in the window at `now`.
abbrev pub count : ℕ → Key → List Wrong → ℕ
count now key h = length (keep (in_window now) (times key h))

abbrev pub or_nil : Option (List ℕ) → List ℕ
or_nil none = []
or_nil (some ts) = ts

abbrev pub held : Key → Dict → List ℕ
held key d = or_nil (find key d)

-- No failure is after `last`, and each window of the dict is the end of the times of its key.
pub record Tracks (h : List Wrong) (last : ℕ) (d : Dict) : Type 0 where
  pub ordered : (key : Key) → Ordered 0 (times key h)
  pub bounded : (key : Key) → All (λ t. t ≤ last) (times key h)
  pub windows : (key : Key) → IsWindow last (times key h) (held key d)

pub Tracks-later :
    (h : List Wrong) (last later : ℕ) (d : Dict) → last ≤ later → Tracks h last d → Tracks h later d
Tracks-later h last later d le t = record {
  ordered = t.ordered;
  bounded = λ key. All-le last later (times key h) le (t.bounded key);
  windows = λ key. IsWindow-later last later (times key h) (held key d) le (t.windows key);
}

kept_window-held :
    (key : Key) (ts : List ℕ) (d : Dict) (j : Key)
    → held j (kept_window key ts d) ≡ (if j == key then ts else held j d)
kept_window-held key [] d j =
    ap or_nil (find-remove key d j)
    ∙ elim (Bool-cases (j == key)) [ inl t ↦ rw t refl | inr f ↦ rw f refl ]
kept_window-held key (t ∷ ts) d j =
    ap or_nil (find-put key (t ∷ ts) d j)
    ∙ elim (Bool-cases (j == key)) [ inl t ↦ rw t refl | inr f ↦ rw f refl ]

nothing_held :
    (key : Key) (d : Dict) (j : Key)
    → held key d ≡ []
    → held j d ≡ (if j == key then [] else held j d)
nothing_held key d j e = elim (Bool-cases (j == key)) [
  | inl t ↦ rw t (ap (λ (x : Key). held x d) ((key_beq_iff j key).0 t) ∙ e)
  | inr f ↦ rw f refl
]

-- `_recent` answers how many times are left in the window, and leaves just those.
pub recent_held :
    (now : ℕ) (key : Key) (d : Dict)
    → ((recent now key d).0 ≡ length (drop_old now (held key d)))
      × ((j : Key)
          → held j (recent now key d).1
            ≡ (if j == key then drop_old now (held key d) else held j d))
unfolding recent
recent_held now key d = by_window (find key d) refl
  where
    by_window :
        (w : Option (List ℕ))
        → find key d ≡ w
        → ((recent_of now key w d).0 ≡ length (drop_old now (or_nil w)))
          × ((j : Key)
              → held j (recent_of now key w d).1
                ≡ (if j == key then drop_old now (or_nil w) else held j d))
    by_window none e = (refl, λ j. nothing_held key d j (ap or_nil e))
    by_window (some []) e = (refl, λ j. nothing_held key d j (ap or_nil e))
    by_window (some (t ∷ ts)) e = (refl, λ j. kept_window-held key (drop_old now (t ∷ ts)) d j)

pub recent-count :
    (h : List Wrong) (last now : ℕ) (key : Key) (d : Dict)
    → last ≤ now
    → Tracks h last d
    → (recent now key d).0 ≡ count now key h
recent-count h last now key d le t =
    (recent_held now key d).0
    ∙ ap (λ (l : List ℕ). length l)
        (drop_old-count last now (times key h) (held key d) le (t.ordered key) (t.windows key))

pub recent-Tracks :
    (h : List Wrong) (now last : ℕ) (key : Key) (d : Dict)
    → now ≤ last
    → Tracks h last d
    → Tracks h last (recent now key d).1
recent-Tracks h now last key d le t = record {
  ordered = t.ordered;
  bounded = t.bounded;
  windows = λ j.
      subst (IsWindow last (times j h)) (sym ((recent_held now key d).1 j))
        (elim (Bool-cases (j == key)) [
          | inl y ↦
              let same : key ≡ j = sym ((key_beq_iff j key).0 y) in
              rw y (
                subst (λ x. IsWindow last (times x h) (drop_old now (held key d))) same
                  (drop_old-IsWindow now last (times key h) (held key d) le (t.windows key)))
          | inr f ↦ rw f (t.windows j)
        ]);
}

pub sweep-Tracks :
    (h : List Wrong) (clock : ℕ → ℕ) (last i : ℕ) (ks : List Key) (d : Dict)
    → ((n : ℕ) → clock n ≤ last)
    → Tracks h last d
    → Tracks h last (sweep clock i ks d)
unfolding sweep
sweep-Tracks h clock last i [] d le t = t
sweep-Tracks h clock last i (key ∷ ks) d le t =
    sweep-Tracks h clock last (i + 1) ks (recent (clock i) key d).1 le
      (recent-Tracks h (clock i) last key d (le i) t)
