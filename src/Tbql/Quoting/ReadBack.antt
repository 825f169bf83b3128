-- ===== src/Tbql/Quoting/ReadBack.antt =====
-- What the parser makes of a term that `term_for` writes.
use turkey_bite.Prelude.{
  ℕ, ◌≡◌, refl, ap, ◌∙◌, true, false, Option, none, some, List, [], ◌∷◌, length, ltb, nat_eq,
}
use turkey_bite.Text.{Text}
use turkey_bite.Tbql.{Result, ok, ◌>>=◌, max_depth, term, eof, Tok, tok, max_value}
use turkey_bite.Tbql.Parser.{
  Level, Node, leaf, peek, check_end, read_term, primary, primary_on, not_on, not_with, and_rest,
  and_with, conjoin, or_rest, or_with, disjoin, parse_tokens, parse, level,
}
use turkey_bite.Tbql.Quoting.{term_for}
use turkey_bite.Tbql.Quoting.Words.{is_name, read_back, tokenize-term_for}

module _ (below : Level) (t : Tok) (n : ℕ) (h : t.kind ≡ term) (g : t.group ≡ none)
    (k : ltb max_value (length t.value) ≡ false) where
  abbrev end : List Tok
  end = tok eof n 0 ∷ []

  read_term-leaf : (o : Option Text) → o ≡ none → read_term o below t end 1 ≡ ok (leaf t, end, 1)
  read_term-leaf none p = rw k refl
  read_term-leaf (some i) p = absurd (let z : ⊥ = cc in z)

  primary-leaf : primary below (t ∷ end) 0 ≡ ok (leaf t, end, 1)
  unfolding primary
  primary-leaf = ap (λ q. primary_on q below t end 0) h ∙ read_term-leaf t.group g

  not_with-leaf : not_with below (t ∷ end) 0 ≡ ok (leaf t, end, 1)
  unfolding not_with
  not_with-leaf = ap (λ q. not_on q below (t ∷ end) 0) h ∙ primary-leaf

  and_with-leaf : and_with below (t ∷ end) 0 ≡ ok (leaf t, end, 1)
  unfolding and_with
  and_with-leaf =
      ap
        (λ r. r >>= λ (n, ts', terms').
          and_rest (length ts') below ts' terms' >>= λ (ns, ts'', terms'').
          ok (conjoin n ns, ts'', terms''))
        not_with-leaf

  or_with-leaf : or_with below (t ∷ end) 0 ≡ ok (leaf t, end, 1)
  unfolding or_with
  or_with-leaf =
      ap
        (λ r. r >>= λ (n, ts', terms').
          or_rest (length ts') below ts' terms' >>= λ (ns, ts'', terms'').
          ok (disjoin n ns, ts'', terms''))
        and_with-leaf

parsed : List Tok → Result (Option Node)
parsed toks = parse_tokens (peek toks).kind toks

parsed-one :
    (t : Tok) (n : ℕ)
    → t.kind ≡ term
    → t.group ≡ none
    → ltb max_value (length t.value) ≡ false
    → parsed (t ∷ tok eof n 0 ∷ []) ≡ ok (some (leaf t))
unfolding parsed level
parsed-one t n h g k =
    ap (λ q. parse_tokens q (t ∷ tok eof n 0 ∷ [])) h
    ∙ ap
        (λ r.
          r >>= λ (m, left, terms). check_end (peek left).kind (peek left) m >>= λ m'. ok (some m'))
        (or_with-leaf (level max_depth) t n h g k)

-- A term that `term_for` writes, of a name that `_FIELD_RE` matches whole and a value no longer
-- than the limit, is parsed as that one term: it has the name and the value back, and is quoted
-- where the value had to be.
pub parse-term_for :
    (name v : Text)
    → is_name name ≡ true
    → ltb max_value (length v) ≡ false
    → parse (term_for name v) ≡ ok (some (leaf (read_back name v)))
unfolding parse parsed
parse-term_for name v h k =
    ap (λ r. r >>= parsed) (tokenize-term_for name v h)
    ∙ parsed-one (read_back name v) (length (term_for name v)) refl refl k
