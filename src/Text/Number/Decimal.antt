-- ===== src/Text/Number/Decimal.antt =====
-- Python's `str(n)` on a natural number, and what `int` reads of it.
use turkey_bite.Prelude.{
  ℕ, zero, suc, ◌+◌, ◌-◌, ◌*◌, ◌/◌, ◌%◌, ◌<◌, ◌≡◌, ◌≢◌, refl, sym, ap, ◌∙◌, inl, inr, true, false,
  Option, none, some, [], ◌∷◌, ◌++◌, reverse, reverse-reverse, arith, ltb, ltb→lt, ltb-eq-false,
  Bool-cases, if◌then◌else◌, ◌==◌, nat_eq, All, All-append, All-reverse,
}
use turkey_bite.Text.{Text, strip, strip_by, is_space, drop_while}
use turkey_bite.Text.Labels.{IsLabel}
use turkey_bite.Text.Number.{
  int, SignedNumber, is_digit, read_digits, read_first, read_signed, with_sign,
}

-- The digits of `n`, for fuel above `n`: the last one is written after those of `n / 10`.
abbrev digits_of : ℕ → ℕ → Text
digits_of zero n = []
digits_of (suc f) n =
    let before = digits_of f (n / 10) in
    if ltb n 10 then (b'0' + n) ∷ [] else before ++ (b'0' + n % 10) ∷ []

unfoldable pub str : ℕ → Text
str n = digits_of (suc n) n

abbrev IsDigit : ℕ → Type 0
IsDigit c = is_digit c ≡ true

-- A text of one digit or more.
abbrev Digits : Text → Type 0
Digits s = (s ≢ []) × All IsDigit s

value : ℕ → Text → ℕ
value n [] = n
value n (c ∷ s) = value (n * 10 + (c - b'0')) s

value_last : (n : ℕ) (s : Text) (c : ℕ) → value n (s ++ c ∷ []) ≡ value n s * 10 + (c - b'0')
unfolding value
value_last n [] c = refl
value_last n (d ∷ s) c = value_last (n * 10 + (d - b'0')) s c

digit : (d : ℕ) → d < 10 → is_digit (b'0' + d) ≡ true
digit d h = ground arith

append_ne : (s : Text) (c : ℕ) → s ++ c ∷ [] ≢ []
append_ne [] c e = cc
append_ne (d ∷ s) c e = cc

digits_of-Digits : (f n : ℕ) → n < f → Digits (digits_of f n)
digits_of-Digits zero n h = absurd (omega arith)
digits_of-Digits (suc f) n h = elim (Bool-cases (ltb n 10)) [
  | inl small ↦ rw small ((λ e. cc), (digit n (ltb→lt n 10 small), tt))
  | inr large ↦
      let (_, ds) = digits_of-Digits f (n / 10) (omega (arith, ltb-eq-false n 10 large)) in
      rw large (
        append_ne (digits_of f (n / 10)) (b'0' + n % 10),
        All-append IsDigit (digits_of f (n / 10)) _ ds (digit (n % 10) (omega arith), tt),
      )
]

value-digits_of : (f n : ℕ) → n < f → value 0 (digits_of f n) ≡ n
unfolding value
value-digits_of zero n h = absurd (omega arith)
value-digits_of (suc f) n h = elim (Bool-cases (ltb n 10)) [
  | inl small ↦ rw small (omega arith)
  | inr large ↦
      rw (large, value_last 0 (digits_of f (n / 10)) (b'0' + n % 10))
        (omega (arith, value-digits_of f (n / 10) (omega (arith, ltb-eq-false n 10 large))))
]

read_digits-value :
    (n c : ℕ) (s : Text) → All IsDigit (c ∷ s) → read_digits n (c ∷ s) ≡ some (value n (c ∷ s))
unfolding read_digits value
read_digits-value n c [] (h, _) = rw h refl
read_digits-value n c (d ∷ s) (h, ds) = rw h (read_digits-value (n * 10 + (c - b'0')) d s ds)

no_space : (c : ℕ) → is_digit c ≡ true → is_space c ≡ false
unfolding is_space
no_space c h = ground arith

drop_nothing : (s : Text) → All IsDigit s → drop_while is_space s ≡ s
drop_nothing [] h = refl
drop_nothing (c ∷ s) (h, _) = rw (no_space c h) refl

strip-Digits : (s : Text) → Digits s → strip s ≡ s
unfolding strip strip_by
strip-Digits s (_, h) =
    rw (drop_nothing s h, drop_nothing (reverse s) (All-reverse IsDigit s h), reverse-reverse) refl

read_first-value : (s : Text) → Digits s → read_first s ≡ some (value 0 s)
unfolding read_first
read_first-value [] (ne, _) = absurd (ne refl)
read_first-value (c ∷ s) (_, h) = rw h.0 (read_digits-value 0 c s h)

read_signed-value : (s : Text) → Digits s → read_signed s ≡ with_sign false (read_first s)
unfolding read_signed
read_signed-value [] (ne, _) = absurd (ne refl)
read_signed-value (c ∷ s) (_, (h, _)) =
    let minus : (c == b'-') ≡ false = ground arith in
    let plus : (c == b'+') ≡ false = ground arith in rw (minus, plus) refl

-- The text that `str` writes is read back as the number.
pub int-str : (n : ℕ) → int (str n) ≡ some (record { negative = false; magnitude = n })
unfolding int str
int-str n =
    let ds = digits_of-Digits (suc n) n (omega arith) in
    ap read_signed (strip-Digits (str n) ds)
    ∙ read_signed-value (str n) ds
    ∙ ap (with_sign false)
        (read_first-value (str n) ds ∙ ap some (value-digits_of (suc n) n (omega arith)))

magnitude_of : Option SignedNumber → ℕ
magnitude_of none = 0
magnitude_of (some k) = k.magnitude

-- Two numbers are never printed alike.
pub str-injective : (n m : ℕ) → str n ≡ str m → n ≡ m
unfolding magnitude_of
str-injective n m e =
    ap magnitude_of (sym (int-str n))
    ∙ ap (λ s. magnitude_of (int s)) e
    ∙ ap magnitude_of (int-str m)

no_colon : (s : Text) → All IsDigit s → IsLabel b':' s
no_colon [] h = refl
no_colon (c ∷ s) (h, hs) =
    let other : (b':' == c) ≡ false = ground arith in rw (other) (no_colon s hs)

-- A printed number holds no colon.
pub str-IsLabel : (n : ℕ) → IsLabel b':' (str n)
unfolding str
str-IsLabel n = no_colon (str n) (digits_of-Digits (suc n) n (omega arith)).1
