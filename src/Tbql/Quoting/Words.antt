-- ===== src/Tbql/Quoting/Words.antt =====
-- What the lexer reads of a term that `term_for` writes.
use turkey_bite.Prelude.{
  ℕ, ◌+◌, ◌-◌, ◌≡◌, refl, ap, ◌∙◌, inl, inr, Bool, true, false, ◌&&◌, not, Option, none, some, List,
  [], ◌∷◌, ◌++◌, length, length-append, all, arith, Bool-cases, and-eq-true, if◌then◌else◌, ◌==◌,
  nat_eq,
}
use turkey_bite.Text.{Text, text, is_space}
use turkey_bite.Tbql.{Result, ok, ◌>>=◌, Kind, term, eof, Tok, tok}
use turkey_bite.Tbql.Lexer.{
  span, word_tok, read_bare, bare_tok, is_bare, is_open, is_field_start, is_field_char, match_field,
  read_op, field_value, word_or_field, next_token, tokenize_from, tokenize,
}
use turkey_bite.Tbql.Quoting.{is_safe, is_plain, is_word, escape, quote, term_for}
use turkey_bite.Tbql.Quoting.Spans.{span-all, span-append, all_mono}
use turkey_bite.Tbql.Quoting.Escapes.{read_quoted-escape}

-- A name that `_FIELD_RE` matches whole.
abbrev pub is_name : Text → Bool
is_name [] = false
is_name (c ∷ s) = is_field_start c && all is_field_char s

-- The token that `name:value` is read as.
abbrev pub read_back : Text → Text → Tok
read_back name value = record (tok term 0 (length (term_for name value))) {
  field = some name;
  value = value;
  quoted = not (is_plain value);
}

match_field-name :
    (name s : Text) → is_name name ≡ true → match_field (name ++ b':' ∷ s) ≡ some (name, s)
unfolding match_field span
match_field-name [] s h = absurd (let z : ⊥ = cc in z)
match_field-name (c ∷ name) s h =
    let (a, b) = and-eq-true (is_field_start c) (all is_field_char name) h in
    rw (a, span-append is_field_char name b':' s b refl) refl

-- None of the characters that `next_token` tests for before it reads a word.
module _ (c : ℕ) (h : is_field_start c ≡ true) where
  starts_no_other :
      ((c == b'(') ≡ false)
      × ((c == b')') ≡ false)
      × ((b'&' == c) ≡ false)
      × ((b'|' == c) ≡ false)
      × ((c == b'!') ≡ false)
      × ((c == b'-') ≡ false)
      × ((c == b'"') ≡ false)
  starts_no_other = ground arith

  starts_no_space : is_space c ≡ false
  unfolding is_space
  starts_no_space = ground arith

safe-IsBare : (c : ℕ) → is_safe c ≡ true → is_bare c ≡ true
unfolding is_space
safe-IsBare c h = ground arith

read_op-value :
    (c : ℕ) (s : Text)
    → (c == b'>') ≡ false
    → (c == b'<') ≡ false
    → read_op (c ∷ s) ≡ (text ":", c ∷ s)
read_op-value c [] a b = rw (a, b) refl
read_op-value c (d ∷ s) a b = rw (a, b) refl

ends :
    (p q : ℕ) → p ≡ q → ◌≡◌ {A = Result (List Tok)} (ok (tok eof p 0 ∷ [])) (ok (tok eof q 0 ∷ []))
ends p q e = rw e refl

-- Stepping over the characters of a token that ends the text.
tokenize_from-over :
    (last : Option Kind) (spaced : Bool) (pos : ℕ) (s : Text)
    → tokenize_from last spaced pos (length s) s ≡ ok (tok eof (pos + length s) 0 ∷ [])
unfolding tokenize_from
tokenize_from-over last spaced pos [] = ends pos (pos + 0) (omega arith)
tokenize_from-over last spaced pos (c ∷ s) =
    tokenize_from-over last (is_space c) (pos + 1) s ∙ ends _ _ (omega arith)

tokenize-one :
    (c : ℕ) (s : Text) (t : Tok)
    → is_space c ≡ false
    → next_token true 0 (c ∷ s) ≡ ok t
    → t.length ≡ length (c ∷ s)
    → tokenize (c ∷ s) ≡ ok (t ∷ tok eof (length (c ∷ s)) 0 ∷ [])
unfolding tokenize tokenize_from
tokenize-one c s t a b e = opened ∙ ap (λ r. r >>= onward) b ∙ closed
  where
    onward : Tok → Result (List Tok)
    onward t = tokenize_from (some t.kind) false 1 (t.length - 1) s >>= λ ts. ok (t ∷ ts)

    opened : tokenize (c ∷ s) ≡ (next_token true 0 (c ∷ s) >>= onward)
    opened = choose (is_space c) a
      where
        choose :
            (b : Bool)
            → b ≡ false
            → (elim b [
              | true ↦ tokenize_from none true 1 0 s
              | false ↦ next_token true 0 (c ∷ s) >>= onward
            ])
              ≡ (next_token true 0 (c ∷ s) >>= onward)
        choose true h = absurd (let z : ⊥ = cc in z)
        choose false h = refl

    rest :
        tokenize_from (some t.kind) false 1 (t.length - 1) s ≡ ok (tok eof (length (c ∷ s)) 0 ∷ [])
    rest =
        ap (λ n. tokenize_from (some t.kind) false 1 n s) (omega arith)
        ∙ tokenize_from-over (some t.kind) false 1 s
        ∙ ends (1 + length s) (length (c ∷ s)) (omega arith)

    closed : onward t ≡ ok (t ∷ tok eof (length (c ∷ s)) 0 ∷ [])
    closed = ap (λ r. r >>= λ ts. ok (t ∷ ts)) rest

next_token-word :
    (m : Bool) (pos c : ℕ) (s : Text)
    → is_field_start c ≡ true
    → next_token m pos (c ∷ s) ≡ word_or_field pos (c ∷ s)
unfolding next_token
next_token-word m pos c s h =
    let (a, b, d, e, f, g, i) = starts_no_other c h in rw (a, b, d, e, f, g, i) refl

field_value-quoted :
    (before : ℕ) (name v : Text)
    → field_value 0 before name (text ":") (b'"' ∷ (escape v ++ b'"' ∷ []))
      ≡ ok (record (tok term 0 (before + 1 + (length (escape v) + 1))) {
        field = some name;
        value = v;
        quoted = true;
      })
unfolding field_value
field_value-quoted before name v = rw (read_quoted-escape v []) refl

safe-IsWord :
    (c : ℕ)
    → is_safe c ≡ true
    → ((c == b'"') ≡ false)
      × ((c == b'(') ≡ false)
      × (is_open c ≡ false)
      × ((c == b'>') ≡ false)
      × ((c == b'<') ≡ false)
safe-IsWord c h = ground arith

read_bare-safe : (s : Text) → all is_safe s ≡ true → read_bare s ≡ (s, [])
unfolding read_bare
read_bare-safe s h = span-all is_bare s (all_mono is_safe is_bare s safe-IsBare h)

passed_over {ℓ} :
    {A : Type ℓ} (a b d : Bool) (x y z w : A)
    → a ≡ false
    → b ≡ false
    → d ≡ false
    → (if a then x else if b && true then y else if d && true then z else w) ≡ w
passed_over a b d x y z w h k l = rw (h, k, l) refl

field_value-bare :
    (before c : ℕ) (name v : Text)
    → all is_safe (c ∷ v) ≡ true
    → field_value 0 before name (text ":") (c ∷ v)
      ≡ ok (record (tok term 0 (before + length (c ∷ v))) { field = some name; value = c ∷ v })
unfolding field_value
field_value-bare before c name v h =
    let (d, e, f, _, _) = safe-IsWord c (and-eq-true (is_safe c) (all is_safe v) h).0 in
    passed_over (c == b'"') (c == b'(') (is_open c) _ _ _ _ d e f
    ∙ ap (bare_tok 0 before name (text ":")) (read_bare-safe (c ∷ v) h)

sized :
    (name v : Text) (q : Bool) (m n : ℕ)
    → m ≡ n
    → ◌≡◌ {A = Result Tok}
        (ok (record (tok term 0 m) { field = some name; value = v; quoted = q }))
        (ok (record (tok term 0 n) { field = some name; value = v; quoted = q }))
sized name v q m n e = rw e refl

word-named :
    (name s value : Text)
    → is_name name ≡ true
    → read_op s ≡ (text ":", value)
    → word_or_field 0 (name ++ b':' ∷ s)
      ≡ field_value 0 (length (name ++ b':' ∷ s) - length value) name (text ":") value
unfolding word_or_field
word-named name s value h e =
    ap
      (λ o. elim o [
        | none ↦ ok (word_tok 0 (read_bare (name ++ b':' ∷ s)).0)
        | some (n, rest) ↦
            let (op, val) = read_op rest in
            field_value 0 (length (name ++ b':' ∷ s) - length val) n op val
      ])
      (match_field-name name s h)
    ∙ ap (λ p. field_value 0 (length (name ++ b':' ∷ s) - length p.1) name p.0 p.1) e

before_value : (name s : Text) → length (name ++ b':' ∷ s) - length s ≡ length name + 1
before_value name s = omega (arith, length-append name (b':' ∷ s))

word-quoted :
    (name v : Text)
    → is_name name ≡ true
    → word_or_field 0 (name ++ b':' ∷ b'"' ∷ (escape v ++ b'"' ∷ []))
      ≡ ok (record (tok term 0 (length (name ++ b':' ∷ b'"' ∷ (escape v ++ b'"' ∷ [])))) {
        field = some name;
        value = v;
        quoted = true;
      })
word-quoted name v h =
    let s = b'"' ∷ (escape v ++ b'"' ∷ []) in
    word-named name s s h (read_op-value b'"' (escape v ++ b'"' ∷ []) refl refl)
    ∙ ap (λ n. field_value 0 n name (text ":") s) (before_value name s)
    ∙ field_value-quoted (length name + 1) name v
    ∙ sized name v true _ _
        (omega (arith, length-append name (b':' ∷ s), length-append (escape v) (b'"' ∷ [])))

word-bare :
    (name v : Text)
    → is_name name ≡ true
    → is_plain v ≡ true
    → word_or_field 0 (name ++ b':' ∷ v)
      ≡ ok (record (tok term 0 (length (name ++ b':' ∷ v))) { field = some name; value = v })
word-bare name [] h p = absurd (let z : ⊥ = cc in z)
word-bare name (c ∷ v) h p =
    let a = (and-eq-true (all is_safe (c ∷ v)) (not (is_word (c ∷ v))) p).0 in
    let (_, _, _, d, e) = safe-IsWord c (and-eq-true (is_safe c) (all is_safe v) a).0 in
    word-named name (c ∷ v) (c ∷ v) h (read_op-value c v d e)
    ∙ ap (λ n. field_value 0 n name (text ":") (c ∷ v)) (before_value name (c ∷ v))
    ∙ field_value-bare (length name + 1) c name v a
    ∙ sized name (c ∷ v) false _ _ (omega (arith, length-append name (b':' ∷ c ∷ v)))

-- What the field and the written value are read as.
word-term :
    (name v : Text)
    → is_name name ≡ true
    → word_or_field 0 (term_for name v) ≡ ok (read_back name v)
unfolding term_for quote
word-term name v h = elim (Bool-cases (is_plain v)) [
  | inl a ↦ rw a (word-bare name v h a)
  | inr b ↦ rw b (word-quoted name v h)
]

-- `tokenize` reads back the field and the value that `term_for` wrote, whatever the value is.
pub tokenize-term_for :
    (name v : Text)
    → is_name name ≡ true
    → tokenize (term_for name v) ≡ ok (read_back name v ∷ tok eof (length (term_for name v)) 0 ∷ [])
unfolding term_for
tokenize-term_for [] v h = absurd (let z : ⊥ = cc in z)
tokenize-term_for (c ∷ name) v h =
    let a = (and-eq-true (is_field_start c) (all is_field_char name) h).0 in
    tokenize-one c (name ++ b':' ∷ quote v) (read_back (c ∷ name) v) (starts_no_space c a)
      (next_token-word true 0 c (name ++ b':' ∷ quote v) a ∙ word-term (c ∷ name) v h) refl
