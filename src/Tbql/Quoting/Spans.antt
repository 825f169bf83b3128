-- ===== src/Tbql/Quoting/Spans.antt =====
-- What a reader takes of a text that starts with characters that pass its test.
use turkey_bite.Prelude.{ℕ, ◌≡◌, refl, Bool, true, false, [], ◌∷◌, ◌++◌, all, and-eq-true}
use turkey_bite.Text.{Text}
use turkey_bite.Tbql.Lexer.{span}

pub span-all : (p : ℕ → Bool) (s : Text) → all p s ≡ true → span p s ≡ (s, [])
unfolding span
span-all p [] h = refl
span-all p (c ∷ s) h = let (k, l) = and-eq-true (p c) (all p s) h in rw (span-all p s l, k) refl

pub span-append :
    (p : ℕ → Bool) (s : Text) (c : ℕ) (t : Text)
    → all p s ≡ true
    → p c ≡ false
    → span p (s ++ c ∷ t) ≡ (s, c ∷ t)
unfolding span
span-append p [] c t h e = rw e refl
span-append p (d ∷ s) c t h e =
    let (k, l) = and-eq-true (p d) (all p s) h in rw (span-append p s c t l e, k) refl

pub all_mono :
    (p q : ℕ → Bool) (s : Text)
    → ((c : ℕ) → p c ≡ true → q c ≡ true)
    → all p s ≡ true
    → all q s ≡ true
all_mono p q [] k h = refl
all_mono p q (c ∷ s) k h =
    let (a, b) = and-eq-true (p c) (all p s) h in rw (k c a, all_mono p q s k b) refl
