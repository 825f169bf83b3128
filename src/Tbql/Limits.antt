-- ===== src/Tbql/Limits.antt =====
-- How large the tree of a query may be.
use turkey_bite.Prelude.{ℕ, zero, suc, ◌+◌, ◌*◌, ◌≤◌, ◌≡◌, Option, none, some, List, arith, length}
use turkey_bite.Text.{Text}
use turkey_bite.Tbql.{
  Result, ok, failed, ◌>>=◌, Kind, lp, rp, and_op, or_op, not_op, term, eof, Tok, max_terms,
  max_depth,
}
use turkey_bite.Tbql.Lexer.{tokenize}
use turkey_bite.Tbql.Ensures.{Ensures, holds, fails, bind-Ensures, weaken-Ensures, ensured}
use turkey_bite.Tbql.Trees.{top, height, height_all, leaves, AllShort}
use turkey_bite.Tbql.Parser.{
  Node, Nodes, no_nodes, node, peek, rest_of, Read, Level, check_end, add_child, and_on, and_rest,
  conjoin, disjoin, and_with, or_on, or_rest, or_with, level, parse_tokens, parse,
}
use turkey_bite.Tbql.Bounds.{
  IsFine, AreFine, ReadsFine, LevelFine, length-rest_of, check_end-Ensures, operand-Ensures,
  not_with-IsFine,
}

top_le : (a b h : ℕ) → a ≤ h → b ≤ h → top a b ≤ h
top_le a b h p q = ground arith

no_more :
    (h : ℕ) (ts : List Tok) (terms : ℕ)
    → terms ≤ max_terms
    → AreFine h ts terms (no_nodes, ts, terms)
unfolding height leaves AllShort
no_more h ts terms le = record {
  tall = omega arith;
  counted = omega arith;
  limited = le;
  short = tt;
  shorter = omega arith;
}

-- One more child, read from `from`, which is no more than `ts`.
add-AreFine :
    (h : ℕ) (ts from : List Tok) (terms : ℕ) (n : Node) (ts' : List Tok) (terms' : ℕ)
    (r : Result (Read Nodes))
    → length from ≤ length ts
    → IsFine h from terms (n, ts', terms')
    → Ensures (AreFine h ts' terms') r
    → Ensures (AreFine h ts terms) (add_child n r)
unfolding height leaves AllShort
add-AreFine h ts from terms n ts' terms' r le f e = bind-Ensures e λ (ns, ts'', terms'') g.
    holds (node n ns, ts'', terms'')
      record {
        tall = top_le (height n) (height_all ns) h f.tall g.tall;
        counted = omega (arith, f.counted, g.counted);
        limited = g.limited;
        short = (f.short, g.short);
        shorter = omega (arith, le, f.shorter, g.shorter);
      }

and_on-Ensures :
    {P : Read Nodes → Type 0} (k : Kind) (joined beside stop : Result (Read Nodes))
    → Ensures P joined
    → Ensures P beside
    → Ensures P stop
    → Ensures P (and_on k joined beside stop)
and_on-Ensures and_op j b s ej eb es = ej
and_on-Ensures term j b s ej eb es = eb
and_on-Ensures lp j b s ej eb es = eb
and_on-Ensures not_op j b s ej eb es = eb
and_on-Ensures rp j b s ej eb es = es
and_on-Ensures or_op j b s ej eb es = es
and_on-Ensures eof j b s ej eb es = es

or_on-Ensures :
    {P : Read Nodes → Type 0} (k : Kind) (another stop : Result (Read Nodes))
    → Ensures P another
    → Ensures P stop
    → Ensures P (or_on k another stop)
or_on-Ensures or_op a s ea es = ea
or_on-Ensures lp a s ea es = es
or_on-Ensures rp a s ea es = es
or_on-Ensures and_op a s ea es = es
or_on-Ensures not_op a s ea es = es
or_on-Ensures term a s ea es = es
or_on-Ensures eof a s ea es = es

conjoin-IsFine :
    (h : ℕ) (ts : List Tok) (terms : ℕ) (n : Node) (ts' : List Tok) (terms' : ℕ) (r : Read Nodes)
    → IsFine h ts terms (n, ts', terms')
    → AreFine h ts' terms' r
    → IsFine (h + 1) ts terms (conjoin n r.0, r.1, r.2)
unfolding height leaves AllShort
conjoin-IsFine h ts terms n ts' terms' (no_nodes, ts'', terms'') f g = record {
  tall = omega (arith, f.tall);
  counted = omega (arith, f.counted, g.counted);
  limited = g.limited;
  short = f.short;
  shorter = omega (arith, f.shorter, g.shorter);
}
conjoin-IsFine h ts terms n ts' terms' (node m ns, ts'', terms'') f g = record {
  tall = omega (arith, top_le (height n) (height_all (node m ns)) h f.tall g.tall);
  counted = omega (arith, f.counted, g.counted);
  limited = g.limited;
  short = (f.short, g.short);
  shorter = omega (arith, f.shorter, g.shorter);
}

disjoin-IsFine :
    (h : ℕ) (ts : List Tok) (terms : ℕ) (n : Node) (ts' : List Tok) (terms' : ℕ) (r : Read Nodes)
    → IsFine h ts terms (n, ts', terms')
    → AreFine h ts' terms' r
    → IsFine (h + 1) ts terms (disjoin n r.0, r.1, r.2)
unfolding height leaves AllShort
disjoin-IsFine h ts terms n ts' terms' (no_nodes, ts'', terms'') f g = record {
  tall = omega (arith, f.tall);
  counted = omega (arith, f.counted, g.counted);
  limited = g.limited;
  short = f.short;
  shorter = omega (arith, f.shorter, g.shorter);
}
disjoin-IsFine h ts terms n ts' terms' (node m ns, ts'', terms'') f g = record {
  tall = omega (arith, top_le (height n) (height_all (node m ns)) h f.tall g.tall);
  counted = omega (arith, f.counted, g.counted);
  limited = g.limited;
  short = (f.short, g.short);
  shorter = omega (arith, f.shorter, g.shorter);
}

module _ (h : ℕ) (below : Level) (fine : LevelFine h below) where
  and_rest-AreFine :
      (k : ℕ) (ts : List Tok) (terms : ℕ)
      → terms ≤ max_terms
      → Ensures (AreFine (h + 1) ts terms) (and_rest k below ts terms)
  unfolding and_rest
  and_rest-AreFine zero ts terms le = holds _ (no_more (h + 1) ts terms le)
  and_rest-AreFine (suc k) ts terms le =
      and_on-Ensures (peek ts).kind _ _ _
        (bind-Ensures
          (operand-Ensures (peek ts) (rest_of ts) _
            (not_with-IsFine h below fine (rest_of ts) terms le))
          λ (n, ts', terms') f.
            add-AreFine (h + 1) ts (rest_of ts) terms n ts' terms' _ (length-rest_of ts) f
              (and_rest-AreFine k ts' terms' f.limited))
        (bind-Ensures (not_with-IsFine h below fine ts terms le) λ (n, ts', terms') f.
          add-AreFine (h + 1) ts ts terms n ts' terms' _ (omega arith) f
            (and_rest-AreFine k ts' terms' f.limited))
        (holds _ (no_more (h + 1) ts terms le))

  and_with-IsFine : ReadsFine (h + 2) (and_with below)
  unfolding and_with
  and_with-IsFine ts terms le =
      bind-Ensures (not_with-IsFine h below fine ts terms le) λ (n, ts', terms') f.
        bind-Ensures (and_rest-AreFine (length ts') ts' terms' f.limited) λ (ns, ts'', terms'') g.
          holds (conjoin n ns, ts'', terms'')
            (raised (conjoin-IsFine (h + 1) ts terms n ts' terms' (ns, ts'', terms'') f g))
    where
      raised : {r : Read Node} → IsFine (h + 1 + 1) ts terms r → IsFine (h + 2) ts terms r
      raised f = record {
        tall = omega (arith, f.tall);
        counted = f.counted;
        limited = f.limited;
        short = f.short;
        shorter = f.shorter;
      }

  or_rest-AreFine :
      (k : ℕ) (ts : List Tok) (terms : ℕ)
      → terms ≤ max_terms
      → Ensures (AreFine (h + 2) ts terms) (or_rest k below ts terms)
  unfolding or_rest
  or_rest-AreFine zero ts terms le = holds _ (no_more (h + 2) ts terms le)
  or_rest-AreFine (suc k) ts terms le =
      or_on-Ensures (peek ts).kind _ _
        (bind-Ensures
          (operand-Ensures (peek ts) (rest_of ts) _ (and_with-IsFine (rest_of ts) terms le))
          λ (n, ts', terms') f.
            add-AreFine (h + 2) ts (rest_of ts) terms n ts' terms' _ (length-rest_of ts) f
              (or_rest-AreFine k ts' terms' f.limited))
        (holds _ (no_more (h + 2) ts terms le))

  or_with-IsFine : ReadsFine (h + 3) (or_with below)
  unfolding or_with
  or_with-IsFine ts terms le = bind-Ensures (and_with-IsFine ts terms le) λ (n, ts', terms') f.
      bind-Ensures (or_rest-AreFine (length ts') ts' terms' f.limited) λ (ns, ts'', terms'') g.
        holds (disjoin n ns, ts'', terms'')
          (raised (disjoin-IsFine (h + 2) ts terms n ts' terms' (ns, ts'', terms'') f g))
    where
      raised : {r : Read Node} → IsFine (h + 2 + 1) ts terms r → IsFine (h + 3) ts terms r
      raised f = record {
        tall = omega (arith, f.tall);
        counted = f.counted;
        limited = f.limited;
        short = f.short;
        shorter = f.shorter;
      }

level-LevelFine : (d : ℕ) → LevelFine (3 * d) (level d)
unfolding level
level-LevelFine zero = record {
  or_fine = λ ts terms le. fails _ _ _;
  not_fine = λ ts terms le. fails _ _ _;
}
level-LevelFine (suc d) =
    let e : 3 * suc d ≡ 3 * d + 3 = omega arith in
    rw e record {
      or_fine = or_with-IsFine (3 * d) (level d) (level-LevelFine d);
      not_fine = λ ts terms le.
          weaken-Ensures (not_with-IsFine (3 * d) (level d) (level-LevelFine d) ts terms le) λ r f.
            record {
              tall = omega (arith, f.tall);
              counted = f.counted;
              limited = f.limited;
              short = f.short;
              shorter = f.shorter;
            };
    }

-- A tree that the limits allow: its height, its terms, and the values of its terms.
pub record IsBounded (n : Node) : Type 0 where
  pub tall : height n ≤ 3 * (max_depth + 1)
  pub counted : leaves n ≤ max_terms
  pub short : AllShort n

abbrev BoundedIf : Option Node → Type 0
BoundedIf none = Unit
BoundedIf (some n) = IsBounded n

tokens-BoundedIf :
    (toks : List Tok)
    → Ensures BoundedIf (
        (level (max_depth + 1)).or_at toks 0 >>= λ (n, left, terms).
        check_end (peek left).kind (peek left) n >>= λ n'. ok (some n'))
tokens-BoundedIf toks =
    bind-Ensures ((level-LevelFine (max_depth + 1)).or_fine toks 0 (omega arith))
      λ (n, left, terms) f. bind-Ensures (check_end-Ensures (peek left).kind (peek left) n) λ n' e.
        holds (some n') (
          rw e record {
            tall = f.tall;
            counted = omega (arith, f.counted, f.limited);
            short = f.short;
          })

parse_tokens-BoundedIf : (k : Kind) (toks : List Tok) → Ensures BoundedIf (parse_tokens k toks)
parse_tokens-BoundedIf eof toks = holds none tt
parse_tokens-BoundedIf lp toks = tokens-BoundedIf toks
parse_tokens-BoundedIf rp toks = tokens-BoundedIf toks
parse_tokens-BoundedIf and_op toks = tokens-BoundedIf toks
parse_tokens-BoundedIf or_op toks = tokens-BoundedIf toks
parse_tokens-BoundedIf not_op toks = tokens-BoundedIf toks
parse_tokens-BoundedIf term toks = tokens-BoundedIf toks

-- The tree that `parse` makes of a query, if it makes one, is at most 75 nodes high, has at most
-- 200 terms, and no term's value is longer than 1024 characters, however the query nests
-- parentheses, groups of values and NOTs.
pub parse-IsBounded : (s : Text) (n : Node) → parse s ≡ ok (some n) → IsBounded n
unfolding parse
parse-IsBounded s n e = ensured (some n) (all_bounded (tokenize s)) e
  where
    all_bounded :
        (r : Result (List Tok))
        → Ensures BoundedIf (r >>= λ toks. parse_tokens (peek toks).kind toks)
    all_bounded (ok toks) = parse_tokens-BoundedIf (peek toks).kind toks
    all_bounded (failed m p k) = fails m p k
