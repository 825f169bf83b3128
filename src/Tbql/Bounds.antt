-- ===== src/Tbql/Bounds.antt =====
-- What one step of the parser of a query reads: the size of its tree, and the tokens it takes.
use turkey_bite.Prelude.{
  ℕ, suc, ◌+◌, ◌-◌, ◌≤◌, ◌<◌, ◌≡◌, refl, ap, inl, inr, Option, none, some, List, [], ◌∷◌, arith,
  length, ltb, ltb-eq-false, Bool-cases,
}
use turkey_bite.Text.{Text}
use turkey_bite.Tbql.{
  Result, ok, failed, ◌>>=◌, Kind, lp, rp, and_op, or_op, not_op, term, eof, Tok, max_terms,
  max_value,
}
use turkey_bite.Tbql.Lexer.{tokenize}
use turkey_bite.Tbql.Ensures.{Ensures, holds, fails, bind-Ensures, weaken-Ensures}
use turkey_bite.Tbql.Trees.{height, height_all, leaves, leaves_all, AllShort, AllShortAll}
use turkey_bite.Tbql.Parser.{
  Node, leaf, negation, conjunction, disjunction, Nodes, no_nodes, node, peek, rest_of,
  ends_operand, Read, Reader, Level, assign_leaf, assign, assign_all, check_end, read_inner,
  shift_all, read_values, read_term, close_after, read_parentheses, primary_on, primary, operand,
  not_on, not_with,
}

-- What `assign` keeps of a tree.
record SameShape (n n' : Node) : Type 0 where
  height_kept : height n' ≡ height n
  leaves_kept : leaves n' ≡ leaves n
  short_kept : AllShort n → AllShort n'

record SameShapes (ns ns' : Nodes) : Type 0 where
  heights_kept : height_all ns' ≡ height_all ns
  leaves_kept : leaves_all ns' ≡ leaves_all ns
  short_kept : AllShortAll ns → AllShortAll ns'

assign_leaf-SameShape :
    (name : Option Text) (at : ℕ) (t : Tok) (f : Option Text)
    → Ensures (SameShape (leaf t)) (assign_leaf name at t f)
unfolding height leaves AllShort
assign_leaf-SameShape name at t none =
    holds (leaf (record t { field = name; pos_field = some at }))
      record { height_kept = refl; leaves_kept = refl; short_kept = λ h. h }
assign_leaf-SameShape name at t (some f) = fails _ _ _

mutual
  unfolding assign height leaves AllShort

  assign-SameShape :
      (name : Option Text) (at : ℕ) (n : Node) → Ensures (SameShape n) (assign name at n)
  assign-SameShape name at (leaf t) = assign_leaf-SameShape name at t t.field
  assign-SameShape name at (negation n) = bind-Ensures (assign-SameShape name at n) λ n' s.
      holds (negation n') record {
        height_kept = ap (λ k. suc k) s.height_kept;
        leaves_kept = s.leaves_kept;
        short_kept = s.short_kept;
      }
  assign-SameShape name at (conjunction ns) =
      bind-Ensures (assign_all-SameShapes name at ns) λ ns' s. holds (conjunction ns') record {
        height_kept = ap (λ k. suc k) s.heights_kept;
        leaves_kept = s.leaves_kept;
        short_kept = s.short_kept;
      }
  assign-SameShape name at (disjunction ns) =
      bind-Ensures (assign_all-SameShapes name at ns) λ ns' s. holds (disjunction ns') record {
        height_kept = ap (λ k. suc k) s.heights_kept;
        leaves_kept = s.leaves_kept;
        short_kept = s.short_kept;
      }

  assign_all-SameShapes :
      (name : Option Text) (at : ℕ) (ns : Nodes) → Ensures (SameShapes ns) (assign_all name at ns)
  assign_all-SameShapes name at no_nodes =
      holds no_nodes record { heights_kept = refl; leaves_kept = refl; short_kept = λ h. h }
  assign_all-SameShapes name at (node n ns) = bind-Ensures (assign-SameShape name at n) λ n' s.
      bind-Ensures (assign_all-SameShapes name at ns) λ ns' ss. holds (node n' ns') record {
        heights_kept = rw (s.height_kept, ss.heights_kept);
        leaves_kept = rw (s.leaves_kept, ss.leaves_kept);
        short_kept = λ (h, hs). (s.short_kept h, ss.short_kept hs);
      }

-- What a reader has read of these tokens: a tree of at most this height, whose terms are counted
-- and within the limits, and fewer tokens are left.
pub record IsFine (h : ℕ) (ts : List Tok) (terms : ℕ) (r : Read Node) : Type 0 where
  pub tall : height r.0 ≤ h
  pub counted : terms + leaves r.0 ≤ r.2
  pub limited : r.2 ≤ max_terms
  pub short : AllShort r.0
  pub shorter : length r.1 < length ts

pub record AreFine (h : ℕ) (ts : List Tok) (terms : ℕ) (r : Read Nodes) : Type 0 where
  pub tall : height_all r.0 ≤ h
  pub counted : terms + leaves_all r.0 ≤ r.2
  pub limited : r.2 ≤ max_terms
  pub short : AllShortAll r.0
  pub shorter : length r.1 ≤ length ts

abbrev pub ReadsFine : ℕ → Reader Node → Type 0
ReadsFine h reader =
    (ts : List Tok) (terms : ℕ) → terms ≤ max_terms → Ensures (IsFine h ts terms) (reader ts terms)

pub record LevelFine (h : ℕ) (below : Level) : Type 0 where
  pub or_fine : ReadsFine h below.or_at
  pub not_fine : ReadsFine h below.not_at

pub length-rest_of : (ts : List Tok) → length (rest_of ts) ≤ length ts
length-rest_of [] = omega arith
length-rest_of (t ∷ ts) = omega arith

pub check_end-Ensures : (k : Kind) (t : Tok) (n : Node) → Ensures (λ n'. n' ≡ n) (check_end k t n)
check_end-Ensures rp t n = fails _ _ _
check_end-Ensures eof t n = holds n refl
check_end-Ensures lp t n = fails _ _ _
check_end-Ensures and_op t n = fails _ _ _
check_end-Ensures or_op t n = fails _ _ _
check_end-Ensures not_op t n = fails _ _ _
check_end-Ensures term t n = fails _ _ _

pub operand-Ensures :
    {P : Read Node → Type 0} (t : Tok) (ts : List Tok) (r : Result (Read Node))
    → Ensures P r
    → Ensures P (operand t ts r)
operand-Ensures t ts r e = elim (Bool-cases (ends_operand (peek ts).kind)) [
  | inl over ↦ rw over (fails _ _ _)
  | inr more ↦ rw more e
]

module _ (h : ℕ) (below : Level) (fine : LevelFine h below) where
  started :
      (t : Tok) (toks : List Tok) (terms : ℕ)
      → terms ≤ max_terms
      → Ensures
          (λ (r : Node × ℕ).
            (height r.0 ≤ h) × (terms + leaves r.0 ≤ r.1) × (r.1 ≤ max_terms) × AllShort r.0)
          (below.or_at toks terms >>= λ (n, left, terms').
            check_end (peek left).kind (peek left) n >>= λ n'. ok (n', terms'))
  started t toks terms le = bind-Ensures (fine.or_fine toks terms le) λ (n, left, terms') f.
      bind-Ensures (check_end-Ensures (peek left).kind (peek left) n)
        λ n' e. holds (n', terms') (rw e (f.tall, f.counted, f.limited, f.short))

  inner-Ensures :
      (k : Kind) (t : Tok) (toks : List Tok) (terms : ℕ)
      → terms ≤ max_terms
      → Ensures
          (λ (r : Node × ℕ).
            (height r.0 ≤ h) × (terms + leaves r.0 ≤ r.1) × (r.1 ≤ max_terms) × AllShort r.0)
          (read_inner k below t toks terms)
  inner-Ensures eof t toks terms le = fails _ _ _
  inner-Ensures lp t toks terms le = started t toks terms le
  inner-Ensures rp t toks terms le = started t toks terms le
  inner-Ensures and_op t toks terms le = started t toks terms le
  inner-Ensures or_op t toks terms le = started t toks terms le
  inner-Ensures not_op t toks terms le = started t toks terms le
  inner-Ensures term t toks terms le = started t toks terms le

  values-Ensures :
      (t : Tok) (inner : Text) (ts : List Tok) (terms : ℕ)
      → terms ≤ max_terms
      → Ensures
          (λ (r : Read Node).
            (height r.0 ≤ h)
            × (terms + leaves r.0 ≤ r.2)
            × (r.2 ≤ max_terms)
            × AllShort r.0
            × (length r.1 ≤ length ts))
          (read_values below t inner ts terms)
  unfolding read_values
  values-Ensures t inner ts terms le =
      bind-Ensures (weaken-Ensures (anything (tokenize inner)) (λ toks u. u)) λ toks u.
        bind-Ensures
          (inner-Ensures (peek (shift_all (t.pos + t.length - length inner - 1) toks)).kind t
            (shift_all (t.pos + t.length - length inner - 1) toks) terms le)
          λ (n, terms') (a, b, c, d). bind-Ensures (assign-SameShape t.field t.pos n) λ n' s.
            holds (n', ts, terms')
              (
                omega (arith, s.height_kept, a),
                omega (arith, s.leaves_kept, b),
                c,
                s.short_kept d,
                omega arith,
              )
    where
      anything : (r : Result (List Tok)) → Ensures (λ (toks : List Tok). Unit {0}) r
      anything (ok a) = holds a tt
      anything (failed m p n) = fails m p n

  term-IsFine :
      (group : Option Text) (t : Tok) (ts : List Tok) (terms : ℕ)
      → terms + 1 ≤ max_terms
      → Ensures (IsFine (h + 1) (t ∷ ts) terms) (read_term group below t ts (terms + 1))
  unfolding height leaves AllShort
  term-IsFine (some inner) t ts terms le =
      weaken-Ensures (values-Ensures t inner ts (terms + 1) le) λ r (a, b, c, d, e). record {
        tall = omega (arith, a);
        counted = omega (arith, b);
        limited = c;
        short = d;
        shorter = omega (arith, e);
      }
  term-IsFine none t ts terms le = elim (Bool-cases (ltb max_value (length t.value))) [
    | inl long ↦ rw long (fails _ _ _)
    | inr fits ↦ rw fits (
        holds (leaf t, ts, terms + 1)
          record {
            tall = omega arith;
            counted = omega arith;
            limited = le;
            short = ltb-eq-false max_value (length t.value) fits;
            shorter = omega arith;
          })
  ]

  close-IsFine :
      (k : Kind) (t : Tok) (ts : List Tok) (terms : ℕ) (r : Read Node)
      → IsFine h ts terms r
      → Ensures (IsFine (h + 1) (t ∷ ts) terms) (close_after k t r)
  close-IsFine rp t ts terms (n, left, terms') f =
      holds (n, rest_of left, terms')
        record {
          tall = omega (arith, f.tall);
          counted = f.counted;
          limited = f.limited;
          short = f.short;
          shorter = omega (arith, f.shorter, length-rest_of left);
        }
  close-IsFine lp t ts terms r f = fails _ _ _
  close-IsFine and_op t ts terms r f = fails _ _ _
  close-IsFine or_op t ts terms r f = fails _ _ _
  close-IsFine not_op t ts terms r f = fails _ _ _
  close-IsFine term t ts terms r f = fails _ _ _
  close-IsFine eof t ts terms r f = fails _ _ _

  opened-IsFine :
      (t : Tok) (ts : List Tok) (terms : ℕ)
      → terms ≤ max_terms
      → Ensures
          (IsFine (h + 1) (t ∷ ts) terms)
          (below.or_at ts terms >>= λ r. close_after (peek r.1).kind t r)
  opened-IsFine t ts terms le =
      bind-Ensures (fine.or_fine ts terms le) λ r f. close-IsFine (peek r.1).kind t ts terms r f

  parentheses-IsFine :
      (k : Kind) (t : Tok) (ts : List Tok) (terms : ℕ)
      → terms ≤ max_terms
      → Ensures (IsFine (h + 1) (t ∷ ts) terms) (read_parentheses k below t ts terms)
  parentheses-IsFine rp t ts terms le = fails _ _ _
  parentheses-IsFine lp t ts terms le = opened-IsFine t ts terms le
  parentheses-IsFine and_op t ts terms le = opened-IsFine t ts terms le
  parentheses-IsFine or_op t ts terms le = opened-IsFine t ts terms le
  parentheses-IsFine not_op t ts terms le = opened-IsFine t ts terms le
  parentheses-IsFine term t ts terms le = opened-IsFine t ts terms le
  parentheses-IsFine eof t ts terms le = opened-IsFine t ts terms le

  primary_on-IsFine :
      (k : Kind) (t : Tok) (ts : List Tok) (terms : ℕ)
      → terms ≤ max_terms
      → Ensures (IsFine (h + 1) (t ∷ ts) terms) (primary_on k below t ts terms)
  primary_on-IsFine lp t ts terms le = parentheses-IsFine (peek ts).kind t ts terms le
  primary_on-IsFine term t ts terms le = elim (Bool-cases (ltb max_terms (terms + 1))) [
    | inl many ↦ rw many (fails _ _ _)
    | inr few ↦ rw few (term-IsFine t.group t ts terms (ltb-eq-false max_terms (terms + 1) few))
  ]
  primary_on-IsFine rp t ts terms le = fails _ _ _
  primary_on-IsFine eof t ts terms le = fails _ _ _
  primary_on-IsFine and_op t ts terms le = fails _ _ _
  primary_on-IsFine or_op t ts terms le = fails _ _ _
  primary_on-IsFine not_op t ts terms le = fails _ _ _

  primary-IsFine : ReadsFine (h + 1) (primary below)
  unfolding primary
  primary-IsFine [] terms le = fails _ _ _
  primary-IsFine (t ∷ ts) terms le = primary_on-IsFine t.kind t ts terms le

  not_on-IsFine :
      (k : Kind) (t : Tok) (ts : List Tok) (terms : ℕ)
      → terms ≤ max_terms
      → Ensures (IsFine (h + 1) (t ∷ ts) terms) (not_on k below (t ∷ ts) terms)
  unfolding height leaves AllShort
  not_on-IsFine not_op t ts terms le = operand-Ensures t ts _ (
      bind-Ensures (fine.not_fine ts terms le) λ (n, left, terms') f.
        holds (negation n, left, terms')
          record {
            tall = omega (arith, f.tall);
            counted = f.counted;
            limited = f.limited;
            short = f.short;
            shorter = omega (arith, f.shorter);
          })
  not_on-IsFine lp t ts terms le = primary-IsFine (t ∷ ts) terms le
  not_on-IsFine rp t ts terms le = primary-IsFine (t ∷ ts) terms le
  not_on-IsFine and_op t ts terms le = primary-IsFine (t ∷ ts) terms le
  not_on-IsFine or_op t ts terms le = primary-IsFine (t ∷ ts) terms le
  not_on-IsFine term t ts terms le = primary-IsFine (t ∷ ts) terms le
  not_on-IsFine eof t ts terms le = primary-IsFine (t ∷ ts) terms le

  pub not_with-IsFine : ReadsFine (h + 1) (not_with below)
  unfolding not_with
  not_with-IsFine [] terms le = primary-IsFine [] terms le
  not_with-IsFine (t ∷ ts) terms le = not_on-IsFine t.kind t ts terms le
