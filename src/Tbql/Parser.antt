-- ===== src/Tbql/Parser.antt =====
-- The syntax tree and the parser of console/backend/tbconsole/search/tbql.py. `depth` counts up to
-- its limit there; here a level is what the parser does with so many steps of depth left, and the
-- level with none refuses. A loop takes as many turns as there are tokens.
use turkey_bite.Prelude.{
  ℕ, zero, suc, ◌+◌, ◌-◌, Bool, true, false, Option, none, some, List, [], ◌∷◌, map, length, ltb,
  if◌then◌else◌,
}
use turkey_bite.Text.{Text}
use turkey_bite.Tbql.{
  Result, ok, ◌>>=◌, mistake, closes_nothing, unexpected_text, nothing_after, too_deep,
  empty_parentheses, never_closed, too_many_terms, value_too_long, ends_too_soon, no_term_before,
  values_only, Kind, lp, rp, and_op, or_op, not_op, term, eof, Tok, tok, max_terms, max_depth,
  max_value,
}
use turkey_bite.Tbql.Lexer.{tokenize}

mutual
  pub data Node : Type 0 where
    leaf : Tok → Node
    negation : Node → Node
    conjunction : Nodes → Node
    disjunction : Nodes → Node

  pub data Nodes : Type 0 where
    no_nodes : Nodes
    node : Node → Nodes → Nodes

-- self.peek()
abbrev pub peek : List Tok → Tok
peek [] = tok eof 0 0
peek (t ∷ ts) = t

abbrev pub rest_of : List Tok → List Tok
rest_of [] = []
rest_of (t ∷ ts) = ts

-- self.peek().kind in ('EOF', 'RP', 'OR', 'AND')
abbrev pub ends_operand : Kind → Bool
ends_operand eof = true
ends_operand rp = true
ends_operand or_op = true
ends_operand and_op = true
ends_operand _ = false

-- What was read, the tokens that are left, and `self.terms`
abbrev pub Read {ℓ} : Type ℓ → Type ℓ
Read A = A × List Tok × ℕ

abbrev pub Reader {ℓ} : Type ℓ → Type ℓ
Reader A = List Tok → ℕ → Result (Read A)

-- `or_` and `not_` at one depth.
pub record Level : Type 0 where
  pub or_at : Reader Node
  pub not_at : Reader Node

abbrev pub assign_leaf : Option Text → ℕ → Tok → Option Text → Result Node
assign_leaf name at t none = ok (leaf (record t { field = name; pos_field = some at }))
assign_leaf name at t (some f) = mistake values_only t.pos t.length

-- `assign`: every term takes the group's field, and none may have one of its own.
unfoldable mutual
  pub assign : Option Text → ℕ → Node → Result Node
  assign name at (leaf t) = assign_leaf name at t t.field
  assign name at (negation n) = assign name at n >>= λ n'. ok (negation n')
  assign name at (conjunction ns) = assign_all name at ns >>= λ ns'. ok (conjunction ns')
  assign name at (disjunction ns) = assign_all name at ns >>= λ ns'. ok (disjunction ns')

  pub assign_all : Option Text → ℕ → Nodes → Result Nodes
  assign_all name at no_nodes = ok no_nodes
  assign_all name at (node n ns) =
      assign name at n >>= λ n'. assign_all name at ns >>= λ ns'. ok (node n' ns')

-- tok.pos += offset
abbrev pub shift : ℕ → Tok → Tok
shift offset t = record t { pos = t.pos + offset }

-- The end of `parse`, on the token that is left.
abbrev pub check_end : Kind → Tok → Node → Result Node
check_end rp t n = mistake closes_nothing t.pos 1
check_end eof t n = ok n
check_end _ t n = mistake unexpected_text t.pos t.length

-- `parse` of the parser of a group, at the depth below.
abbrev pub read_inner : Kind → Level → Tok → List Tok → ℕ → Result (Node × ℕ)
read_inner eof below t toks terms = mistake empty_parentheses t.pos t.length
read_inner _ below t toks terms = below.or_at toks terms >>= λ (n, left, terms').
    check_end (peek left).kind (peek left) n >>= λ n'. ok (n', terms')

abbrev pub shift_all : ℕ → List Tok → List Tok
shift_all offset toks = map (shift offset) toks

unfoldable pub read_values : Level → Tok → Text → Reader Node
unfolding tokenize assign
read_values below t inner ts terms = tokenize inner >>= λ toks.
    let shifted = shift_all (t.pos + t.length - length inner - 1) toks in
    read_inner (peek shifted).kind below t shifted terms >>= λ (n, terms').
    assign t.field t.pos n >>= λ n'. ok (n', ts, terms')

-- A term's token, which is counted already, on its group.
abbrev pub read_term : Option Text → Level → Tok → Reader Node
read_term (some inner) below t ts terms = read_values below t inner ts terms
read_term none below t ts terms =
    if ltb max_value (length t.value)
    then mistake value_too_long t.pos t.length
    else ok (leaf t, ts, terms)

abbrev pub close_after : Kind → Tok → Read Node → Result (Read Node)
close_after rp t (n, ts, terms) = ok (n, rest_of ts, terms)
close_after _ t r = mistake never_closed t.pos 1

-- Behind the '(' of the token `t`, on the kind of the next token.
abbrev pub read_parentheses : Kind → Level → Tok → Reader Node
read_parentheses rp below t ts terms = mistake empty_parentheses t.pos 2
read_parentheses _ below t ts terms = below.or_at ts terms >>= λ r. close_after (peek r.1).kind t r

abbrev pub primary_on : Kind → Level → Tok → Reader Node
primary_on lp below t ts terms = read_parentheses (peek ts).kind below t ts terms
primary_on term below t ts terms =
    if ltb max_terms (terms + 1)
    then mistake too_many_terms t.pos t.length
    else read_term t.group below t ts (terms + 1)
primary_on rp below t ts terms = mistake closes_nothing t.pos 1
primary_on eof below t ts terms = mistake ends_too_soon t.pos 1
primary_on _ below t ts terms = mistake no_term_before t.pos t.length

unfoldable pub primary : Level → Reader Node
unfolding read_values
primary below ts terms = primary_on (peek ts).kind below (peek ts) (rest_of ts) terms

-- After a NOT, an AND or an OR, whose token is `t`.
abbrev pub operand : Tok → List Tok → Result (Read Node) → Result (Read Node)
operand t ts r = if ends_operand (peek ts).kind then mistake nothing_after t.pos t.length else r

abbrev pub negate : Read Node → Result (Read Node)
negate (n, ts, terms) = ok (negation n, ts, terms)

abbrev pub not_on : Kind → Level → Reader Node
not_on not_op below ts terms =
    operand (peek ts) (rest_of ts) (below.not_at (rest_of ts) terms >>= negate)
not_on _ below ts terms = primary below ts terms

unfoldable pub not_with : Level → Reader Node
unfolding primary
not_with below ts terms = not_on (peek ts).kind below ts terms

-- One more child, with those that the loop reads after it.
abbrev pub add_child : Node → Result (Read Nodes) → Result (Read Nodes)
add_child n r = r >>= λ (ns, ts, terms). ok (node n ns, ts, terms)

-- What the loop of `and_` does on the kind of the next token.
abbrev pub and_on {ℓ} : {A : Type ℓ} → Kind → A → A → A → A
and_on and_op joined beside stop = joined
and_on term joined beside stop = beside
and_on lp joined beside stop = beside
and_on not_op joined beside stop = beside
and_on _ joined beside stop = stop

-- The loop of `and_` over what is left.
unfoldable pub and_rest : ℕ → Level → Reader Nodes
unfolding not_with
and_rest zero below ts terms = ok (no_nodes, ts, terms)
and_rest (suc k) below ts terms =
    let beside : Result (Read Nodes) =
      not_with below ts terms >>= λ (n, ts', terms'). add_child n (and_rest k below ts' terms') in
    let joined : Result (Read Nodes) =
      operand (peek ts) (rest_of ts) (not_with below (rest_of ts) terms) >>= λ (n, ts', terms').
      add_child n (and_rest k below ts' terms') in
    and_on (peek ts).kind joined beside (ok (no_nodes, ts, terms))

-- children[0] if len(children) == 1 else Node('and', children)
abbrev pub conjoin : Node → Nodes → Node
conjoin n no_nodes = n
conjoin n (node m ns) = conjunction (node n (node m ns))

abbrev pub disjoin : Node → Nodes → Node
disjoin n no_nodes = n
disjoin n (node m ns) = disjunction (node n (node m ns))

unfoldable pub and_with : Level → Reader Node
unfolding and_rest
and_with below ts terms = not_with below ts terms >>= λ (n, ts', terms').
    and_rest (length ts') below ts' terms' >>= λ (ns, ts'', terms'').
    ok (conjoin n ns, ts'', terms'')

abbrev pub or_on {ℓ} : {A : Type ℓ} → Kind → A → A → A
or_on or_op another stop = another
or_on _ another stop = stop

-- The loop of `or_`.
unfoldable pub or_rest : ℕ → Level → Reader Nodes
unfolding and_with
or_rest zero below ts terms = ok (no_nodes, ts, terms)
or_rest (suc k) below ts terms =
    let another : Result (Read Nodes) =
      operand (peek ts) (rest_of ts) (and_with below (rest_of ts) terms) >>= λ (n, ts', terms').
      add_child n (or_rest k below ts' terms') in
    or_on (peek ts).kind another (ok (no_nodes, ts, terms))

unfoldable pub or_with : Level → Reader Node
unfolding or_rest
or_with below ts terms = and_with below ts terms >>= λ (n, ts', terms').
    or_rest (length ts') below ts' terms' >>= λ (ns, ts'', terms'').
    ok (disjoin n ns, ts'', terms'')

-- What the parser does beyond the limit of depth: `not_` and `primary` refuse the next token.
abbrev pub refuse : Reader Node
refuse ts terms = mistake too_deep (peek ts).pos 1

unfoldable pub level : ℕ → Level
unfolding or_with not_with
level zero = record { or_at = refuse; not_at = refuse }
level (suc d) = record { or_at = or_with (level d); not_at = not_with (level d) }

-- `parse`: the whole query's tree, or none for an empty query
abbrev pub parse_tokens : Kind → List Tok → Result (Option Node)
parse_tokens eof toks = ok none
parse_tokens _ toks = (level (max_depth + 1)).or_at toks 0 >>= λ (n, left, terms).
    check_end (peek left).kind (peek left) n >>= λ n'. ok (some n')

unfoldable pub parse : Text → Result (Option Node)
unfolding tokenize level
parse s = tokenize s >>= λ toks. parse_tokens (peek toks).kind toks
