-- ===== src/Text/Labels.antt =====
-- What `split`, `join` and `endswith` say of the labels of a name.
use turkey_bite.Prelude.{
  ℕ, ◌≡◌, ◌≢◌, refl, sym, ap, ◌∙◌, inl, inr, true, false, List, [], ◌∷◌, ◌++◌, reverse,
  append_assoc, reverse-append, reverse-reverse, arith, Bool-cases, and-eq-true, ◌==◌, nat_eq,
  nat_beq_iff, eq_refl, All,
}
use turkey_bite.Text.{Text, starts_with, ends_with, push_head, split, join, has_char}

pub starts_with_sound : (p s : Text) → starts_with p s ≡ true → (r : Text) × (p ++ r ≡ s)
starts_with_sound [] s h = (s, refl)
starts_with_sound (c ∷ p) [] h = cc
starts_with_sound (c ∷ p) (d ∷ s) h =
    let (here, later) = and-eq-true (c == d) (starts_with p s) h in
    let (r, e) = starts_with_sound p s later in (r, cc ((nat_beq_iff c d).0 here))

pub starts_with-append : (p r : Text) → starts_with p (p ++ r) ≡ true
starts_with-append [] r = refl
starts_with-append (c ∷ p) r = rw (eq_refl c) (starts_with-append p r)

pub ends_with_sound : (p s : Text) → ends_with p s ≡ true → (r : Text) × (r ++ p ≡ s)
unfolding ends_with
ends_with_sound p s h =
    let (r, e) = starts_with_sound (reverse p) (reverse s) h in
    (
      reverse r,
      ap (λ (t : Text). reverse r ++ t) (sym (reverse-reverse p))
          ∙ sym (reverse-append (reverse p) r)
          ∙ ap (λ (t : Text). reverse t) e
          ∙ reverse-reverse s,
    )

pub ends_with-append : (r p : Text) → ends_with p (r ++ p) ≡ true
unfolding ends_with
ends_with-append r p = rw reverse-append (starts_with-append (reverse p) (reverse r))

push_head-append :
    (c : ℕ) (ps qs : List Text) → ps ≢ [] → push_head c (ps ++ qs) ≡ push_head c ps ++ qs
push_head-append c [] qs h = absurd (h refl)
push_head-append c (p ∷ ps) qs h = refl

pub split-ne-nil : (sep : ℕ) (s : Text) → split sep s ≢ []
unfolding split
split-ne-nil sep [] = λ h. cc
split-ne-nil sep (c ∷ s) = λ h. ground arith

-- A separator in the middle splits a text in two.
pub split-append : (sep : ℕ) (s t : Text) → split sep (s ++ sep ∷ t) ≡ split sep s ++ split sep t
unfolding split
split-append sep [] t = rw (eq_refl sep)
split-append sep (c ∷ s) t = elim (Bool-cases (c == sep)) [
  | inl same ↦ rw same (ap (λ (l : List Text). [] ∷ l) (split-append sep s t))
  | inr other ↦
      rw (other, split-append sep s t) (push_head-append c (split sep s) _ (split-ne-nil sep s))
]

join-push_head :
    (sep c : ℕ) (ps : List Text) → ps ≢ [] → join sep (push_head c ps) ≡ c ∷ join sep ps
unfolding join
join-push_head sep c [] h = absurd (h refl)
join-push_head sep c (p ∷ []) h = refl
join-push_head sep c (p ∷ q ∷ ps) h = refl

join-nil-cons : (sep : ℕ) (ps : List Text) → ps ≢ [] → join sep ([] ∷ ps) ≡ sep ∷ join sep ps
unfolding join
join-nil-cons sep [] h = absurd (h refl)
join-nil-cons sep (p ∷ ps) h = refl

-- Joining the parts of a split gives the text back.
pub join-split : (sep : ℕ) (s : Text) → join sep (split sep s) ≡ s
unfolding split
join-split sep [] = unfold join in refl
join-split sep (c ∷ s) = elim (Bool-cases (c == sep)) [
  | inl same ↦
      rw (same, join-nil-cons sep (split sep s) (split-ne-nil sep s), join-split sep s)
        (cc ((nat_beq_iff c sep).0 same))
  | inr other ↦
      rw (other, join-push_head sep c (split sep s) (split-ne-nil sep s), join-split sep s)
]

pub join-append :
    (sep : ℕ) (ps qs : List Text)
    → ps ≢ []
    → qs ≢ []
    → join sep (ps ++ qs) ≡ join sep ps ++ sep ∷ join sep qs
unfolding join
join-append sep [] qs h k = absurd (h refl)
join-append sep (p ∷ []) [] h k = absurd (k refl)
join-append sep (p ∷ []) (q ∷ qs) h k = refl
join-append sep (p ∷ p' ∷ ps) qs h k = rw (join-append sep (p' ∷ ps) qs (λ e. cc) k, append_assoc)

-- No part of a split holds the separator.
abbrev pub IsLabel : ℕ → Text → Type 0
IsLabel sep s = has_char sep s ≡ false

push_head-IsLabel :
    (sep c : ℕ) (ps : List Text)
    → (sep == c) ≡ false
    → All (IsLabel sep) ps
    → All (IsLabel sep) (push_head c ps)
push_head-IsLabel sep c [] h w = (rw h, tt)
push_head-IsLabel sep c (p ∷ ps) h w = (rw h w.0, w.1)

pub split-IsLabel : (sep : ℕ) (s : Text) → All (IsLabel sep) (split sep s)
unfolding split
split-IsLabel sep [] = (refl, tt)
split-IsLabel sep (c ∷ s) = elim (Bool-cases (c == sep)) [
  | inl same ↦ rw same (refl, split-IsLabel sep s)
  | inr other ↦
      rw other (push_head-IsLabel sep c (split sep s) (ground arith) (split-IsLabel sep s))
]

-- A label alone is not split.
pub split_label : (sep : ℕ) (s : Text) → IsLabel sep s → split sep s ≡ s ∷ []
unfolding split
split_label sep [] h = refl
split_label sep (c ∷ s) h =
    let other : (c == sep) ≡ false = ground arith in rw (other, split_label sep s (ground arith))

-- Splitting what was joined gives the labels back.
pub split-join :
    (sep : ℕ) (p : Text) (ps : List Text)
    → All (IsLabel sep) (p ∷ ps)
    → split sep (join sep (p ∷ ps)) ≡ p ∷ ps
unfolding join
split-join sep p [] w = split_label sep p w.0
split-join sep p (q ∷ ps) w = rw (split-append, split_label sep p w.0, split-join sep q ps w.1)
