-- ===== src/Tbql/Quoting/Escapes.antt =====
-- The escapes that `quote` writes, and the lexer's reading of them.
use turkey_bite.Prelude.{
  ℕ, ◌+◌, ◌≡◌, refl, ◌∙◌, inl, inr, false, Option, some, [], ◌∷◌, ◌++◌, length, arith, Bool-cases,
  if◌then◌else◌, ◌==◌, nat_eq, nat_beq_iff,
}
use turkey_bite.Text.{Text, text}
use turkey_bite.Tbql.Lexer.{read_quoted}
use turkey_bite.Tbql.Quoting.{replace_char, escape}

-- One character, escaped.
abbrev escape_char : ℕ → Text
escape_char c = if c == b'\\' then text "\\\\" else if c == b'"' then text "\\\"" else c ∷ []

escape-cons : (c : ℕ) (s : Text) → escape (c ∷ s) ≡ escape_char c ++ escape s
unfolding escape replace_char
escape-cons c s = elim (Bool-cases (c == b'\\')) [
  | inl a ↦ rw a refl
  | inr b ↦ elim (Bool-cases (c == b'"')) [ inl d ↦ rw (b, d) refl | inr e ↦ rw (b, e) refl ]
]

counted : (v : Text) (m n : ℕ) → m ≡ n → ◌≡◌ {A = Option (Text × ℕ)} (some (v, m)) (some (v, n))
counted v m n e = rw e refl

read-plain :
    (c : ℕ) (s t : Text) (v : Text) (n : ℕ)
    → (c == b'\\') ≡ false
    → (c == b'"') ≡ false
    → read_quoted (s ++ b'"' ∷ t) ≡ some (v, n)
    → read_quoted (c ∷ s ++ b'"' ∷ t) ≡ some (c ∷ v, 1 + n)
unfolding read_quoted
read-plain c [] t v n a b h = rw (a, b, h) refl
read-plain c (d ∷ s) t v n a b h = rw (a, b, h) refl

pub read_quoted-escape :
    (v t : Text) → read_quoted (escape v ++ b'"' ∷ t) ≡ some (v, length (escape v) + 1)
unfolding read_quoted escape replace_char
read_quoted-escape [] [] = refl
read_quoted-escape [] (c ∷ t) = refl
read_quoted-escape (c ∷ v) t = rw (escape-cons c v) (elim (Bool-cases (c == b'\\')) [
  | inl a ↦ rw ((nat_beq_iff c 92).0 a, read_quoted-escape v t) (counted (92 ∷ v) _ _ (omega arith))
  | inr b ↦ elim (Bool-cases (c == b'"')) [
    | inl d ↦
        rw ((nat_beq_iff c 34).0 d, read_quoted-escape v t) (counted (34 ∷ v) _ _ (omega arith))
    | inr e ↦
        rw (b, e)
          (read-plain c (escape v) t v _ b e (read_quoted-escape v t)
            ∙ counted (c ∷ v) _ _ (omega arith))
  ]
])
