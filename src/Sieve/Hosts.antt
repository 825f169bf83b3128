-- ===== src/Sieve/Hosts.antt =====
-- What `normalize_host` of src/libtb/sieve returns.
use turkey_bite.Prelude.{
  ℕ, ◌≡◌, ◌≢◌, refl, sym, ap, ◌∙◌, inl, inr, Bool, false, some, [], ◌∷◌, ◌++◌, reverse,
  reverse-append, reverse-reverse, arith, Bool-cases, ◌==◌, nat_eq, All, All-append_right,
  All-reverse,
}
use turkey_bite.Text.{Text, lower_char, lower, drop_while, strip_by, strip, strip_dots}
use turkey_bite.Json.{Json, str}
use turkey_bite.Sieve.{nonempty, clean, normalize_host}

-- What a normalised host name looks like: there is something, no dot at either end, and no
-- upper case letter.
pub record IsClean (s : Text) : Type 0 where
  pub something : s ≢ []
  pub no_first_dot : (r : Text) → s ≢ b'.' ∷ r
  pub no_last_dot : (r : Text) → s ≢ r ++ b'.' ∷ []
  pub lowered : All (λ c. lower_char c ≡ c) s

module _ (p : ℕ → Bool) where
  drop_while_first : (s r : Text) (c : ℕ) → drop_while p s ≡ c ∷ r → p c ≡ false
  drop_while_first [] r c h = absurd (let q : ⊥ = cc in q)
  drop_while_first (d ∷ s) r c h = elim (Bool-cases (p d)) [
    | inl t ↦ drop_while_first s r c (ground arith)
    | inr f ↦ ground arith
  ]

  drop_while_suffix : (s : Text) → (r : Text) × (r ++ drop_while p s ≡ s)
  drop_while_suffix [] = ([], refl)
  drop_while_suffix (d ∷ s) = elim (Bool-cases (p d)) [
    | inl t ↦ let (r, e) = drop_while_suffix s in (d ∷ r, rw t (ap (λ (l : Text). d ∷ l) e))
    | inr f ↦ ([], rw f)
  ]

  pub drop_while-All {κ} : (P : ℕ → Type κ) (s : Text) → All P s → All P (drop_while p s)
  drop_while-All P s h =
      let (r, e) = drop_while_suffix s in All-append_right P r (drop_while p s) (rw e h)

  -- The first of what `strip` leaves is not stripped.
  strip_by_first : (s r : Text) (c : ℕ) → strip_by p s ≡ c ∷ r → p c ≡ false
  unfolding strip_by
  strip_by_first s r c h =
      let t = drop_while p s in
      let (q, e) = drop_while_suffix (reverse t) in
      drop_while_first s (r ++ reverse q) c (
        sym (reverse-reverse t)
        ∙ ap (λ (l : Text). reverse l) (sym e)
        ∙ reverse-append q (drop_while p (reverse t))
        ∙ ap (λ (l : Text). l ++ reverse q) h)

  strip_by_last : (s r : Text) (c : ℕ) → strip_by p s ≡ r ++ c ∷ [] → p c ≡ false
  unfolding strip_by
  strip_by_last s r c h =
      let u = drop_while p (reverse (drop_while p s)) in
      drop_while_first (reverse (drop_while p s)) (reverse r) c
        (sym (reverse-reverse u) ∙ ap (λ (l : Text). reverse l) h ∙ reverse-append r (c ∷ []))

  pub strip_by-All {κ} : (P : ℕ → Type κ) (s : Text) → All P s → All P (strip_by p s)
  unfolding strip_by
  strip_by-All P s h =
      let t = drop_while p s in
      All-reverse P (drop_while p (reverse t))
        (drop_while-All P (reverse t) (All-reverse P t (drop_while-All P s h)))

lower_char_idem : (c : ℕ) → lower_char (lower_char c) ≡ lower_char c
unfolding lower_char
lower_char_idem c = ground arith

pub lower-lowered : (s : Text) → All (λ c. lower_char c ≡ c) (lower s)
unfolding lower
lower-lowered [] = tt
lower-lowered (c ∷ s) = (lower_char_idem c, lower-lowered s)

nonempty-eq-some : (s h : Text) → nonempty s ≡ some h → (s ≡ h) × (h ≢ [])
nonempty-eq-some [] h e = absurd (let q : ⊥ = cc in q)
nonempty-eq-some (c ∷ s) h e = (cc, λ z. cc)

-- Whatever the field holds, the name that `normalize_host` makes of it is clean.
pub normalize_host-IsClean : (v : Json) (h : Text) → normalize_host v ≡ some h → IsClean h
unfolding normalize_host strip_dots
normalize_host-IsClean (str s) h e =
    let (same, full) = nonempty-eq-some (clean s) h e in
    let dot = λ (c : ℕ). c == b'.' in
    record {
      something = full;
      no_first_dot = λ r q. let b = strip_by_first dot (lower (strip s)) r b'.' (same ∙ q) in cc;
      no_last_dot = λ r q. let b = strip_by_last dot (lower (strip s)) r b'.' (same ∙ q) in cc;
      lowered =
          rw same at
            (strip_by-All dot (λ c. lower_char c ≡ c) (lower (strip s)) (lower-lowered (strip s)));
    }
normalize_host-IsClean _ h e = absurd (let q : ⊥ = cc in q)
