-- ===== src/Tbql/Dsl.antt =====
-- From the syntax tree to query DSL, and what a query names, for the last part of
-- console/backend/tbconsole/search/tbql.py. `is_address` is `ip_or_net`, which asks Python's
-- ipaddress; `is_time` is the test of `_check_date`, which is not modelled.
use turkey_bite.Prelude.{
  ℕ, Bool, true, false, ◌&&◌, ◌||◌, not, Option, none, some, List, [], ◌∷◌, ◌++◌, reverse, length,
  any, if◌then◌else◌, ◌==◌, nat_eq, list_eq,
}
use turkey_bite.Text.{Text, text, lower, has_char, starts_with, drop_while}
use turkey_bite.Tbql.{
  Result, ok, failed, ◌>>=◌, mistake, empty_quotes, unknown_field, bad_address, bad_time,
  bad_boolean, not_comparable, Range, Tok,
}
use turkey_bite.Tbql.Parser.{
  Node, leaf, negation, conjunction, disjunction, Nodes, no_nodes, node, parse,
}
use turkey_bite.Tbql.Fields.{
  Field, FieldType, keyword, ip, date, boolean, resolve, find_field, fields,
}

-- A bound with whether it is included.
abbrev pub Limit : Type 0
Limit = Option (Bool × Text)

-- Query DSL. `matches` is a term without regard to case, `equals` one as it stands; `should` is
-- with a minimum of one.
mutual
  pub data Dsl : Type 0 where
    match_all : Dsl
    matches : Text → Text → Dsl
    equals : Text → Text → Dsl
    is_true : Text → Bool → Dsl
    wildcard : Text → Text → Dsl
    prefix : Text → Text → Dsl
    exists : Text → Dsl
    range : Text → Limit → Limit → Dsl
    must_not : Dsl → Dsl
    filter : Dsls → Dsl
    should : Dsls → Dsl

  pub data Dsls : Type 0 where
    no_dsls : Dsls
    dsl : Dsl → Dsls → Dsls

unfoldable pub is_wild : Text → Bool
is_wild value = has_char b'*' value || has_char b'?' value

abbrev pub free_term_fields : List Text
free_term_fields =
    text "bite.searches"
    ∷ text "bite.requested"
    ∷ text "bite.registrable_domain"
    ∷ text "bite.client_user"
    ∷ text "bite.client_hostname_short"
    ∷ text "bite.contexts"
    ∷ []

abbrev pub free_wildcard_fields : List Text
free_wildcard_fields =
    text "bite.requested"
    ∷ text "bite.client_user"
    ∷ text "bite.client_hostname_short"
    ∷ text "bite.contexts"
    ∷ []

abbrev pub each_field : (Text → Dsl) → List Text → Dsls → Dsls
each_field f [] more = more
each_field f (name ∷ names) more = dsl (f name) (each_field f names more)

-- 'now' in value
abbrev pub has_now : Text → Bool
has_now [] = false
has_now (c ∷ s) = starts_with (text "now") (c ∷ s) || has_now s

abbrev pub no_dots : Text → Text
no_dots value = reverse (drop_while (λ c. c == b'.') (reverse value))

abbrev pub limit_of : Bool → Option Text → Limit
limit_of included none = none
limit_of included (some bound) = some (included, bound)

abbrev pub bounds_pass : (Text → Bool) → Option Text → Bool
bounds_pass test none = true
bounds_pass test (some bound) = test bound

-- `_range`
abbrev pub compare_dsl : Text → Text → Text → Dsl
compare_dsl name op value =
    if op == text ">"
    then range name (some (false, value)) none
    else if op == text ">="
    then range name (some (true, value)) none
    else if op == text "<"
    then range name none (some (false, value))
    else range name none (some (true, value))

module _ (is_address is_time : Text → Bool) where
  unfoldable pub free_text : Tok → Result Dsl
  unfolding is_wild lower
  free_text t =
      let value = t.value in
      let addresses =
        if is_address value
        then dsl (equals (text "bite.client") value)
            (dsl (equals (text "bite.resolved_ips") value) no_dsls)
        else no_dsls in
      if value == text ""
      then mistake empty_quotes t.pos t.length
      else if is_wild value && not t.quoted
      then ok (should (each_field (λ f. wildcard f (lower value)) free_wildcard_fields no_dsls))
      else ok (should (each_field (λ f. matches f (lower value)) free_term_fields addresses))

  abbrev pub check_bounds : FieldType → Tok → Range → Dsl → Result Dsl
  check_bounds ip t r q =
      if bounds_pass is_address r.low && bounds_pass is_address r.high
      then ok q
      else mistake bad_address t.pos t.length
  check_bounds date t r q =
      if bounds_pass is_time r.low && bounds_pass is_time r.high
      then ok q
      else mistake bad_time t.pos t.length
  check_bounds _ t r q = ok q

  abbrev pub check_compared : FieldType → Tok → Dsl → Result Dsl
  check_compared boolean t q = mistake not_comparable t.pos t.length
  check_compared ip t q = if is_address t.value then ok q else mistake bad_address t.pos t.length
  check_compared date t q = if is_time t.value then ok q else mistake bad_time t.pos t.length
  check_compared keyword t q = ok q

  -- field:value, by the type of the field
  abbrev pub value_dsl : FieldType → Field → Tok → Result Dsl
  value_dsl boolean f t =
      if lower t.value == text "true"
      then ok (is_true f.name true)
      else if lower t.value == text "false"
      then ok (is_true f.name false)
      else mistake bad_boolean t.pos t.length
  value_dsl ip f t =
      if t.value == text "*"
      then ok (exists f.name)
      else if is_address t.value
      then ok (equals f.name t.value)
      else mistake bad_address t.pos t.length
  value_dsl date f t =
      if t.value == text "*"
      then ok (exists f.name)
      else if is_time t.value
      then ok (
          range f.name (some (true, t.value))
            (some (true, if has_now t.value then t.value else t.value ++ text "||/d")))
      else mistake bad_time t.pos t.length
  value_dsl keyword f t =
      if t.value == text "*" && not t.quoted
      then ok (exists f.name)
      else if is_wild t.value && not t.quoted
      then ok (wildcard f.name t.value)
      else if f.hierarchical
      then ok (
          should (
            dsl (matches f.name t.value)
              (dsl (prefix f.name (no_dots t.value ++ text ".")) no_dsls)))
      else ok (matches f.name t.value)

  abbrev pub field_dsl : Option Range → Field → Tok → Result Dsl
  field_dsl (some r) f t =
      check_bounds f.type t r
        (range f.name (limit_of r.include_low r.low) (limit_of r.include_high r.high))
  field_dsl none f t =
      if t.op == text ":"
      then value_dsl f.type f t
      else check_compared f.type t (compare_dsl f.name t.op t.value)

  abbrev pub exists_dsl : Option Field → Tok → Result Dsl
  exists_dsl none t = mistake unknown_field t.pos t.length
  exists_dsl (some f) t = ok (exists f.name)

  abbrev pub named_at : Option ℕ → ℕ → ℕ
  named_at none pos = pos
  named_at (some at) pos = at

  abbrev pub known_dsl : Option Field → Text → Tok → Result Dsl
  known_dsl none name t = mistake unknown_field (named_at t.pos_field t.pos) (length name)
  known_dsl (some f) name t = field_dsl t.range f t

  abbrev pub is_has : Text → Bool
  is_has name = lower name == text "has" || lower name == text "_exists_"

  abbrev pub named_dsl : Option Text → Tok → Result Dsl
  named_dsl none t = free_text t
  named_dsl (some name) t =
      if is_has name then exists_dsl (resolve t.value) t else known_dsl (resolve name) name t

  unfoldable pub term_dsl : Tok → Result Dsl
  unfolding free_text is_wild resolve lower
  term_dsl t = named_dsl t.field t

  unfoldable mutual
    pub to_dsl : Node → Result Dsl
    to_dsl (leaf t) = term_dsl t
    to_dsl (negation n) = to_dsl n >>= λ q. ok (must_not q)
    to_dsl (conjunction ns) = to_dsls ns >>= λ qs. ok (filter qs)
    to_dsl (disjunction ns) = to_dsls ns >>= λ qs. ok (should qs)

    pub to_dsls : Nodes → Result Dsls
    to_dsls no_nodes = ok no_dsls
    to_dsls (node n ns) = to_dsl n >>= λ q. to_dsls ns >>= λ qs. ok (dsl q qs)

  abbrev pub tree_dsl : Option Node → Result Dsl
  tree_dsl none = ok match_all
  tree_dsl (some n) = to_dsl n

  unfoldable pub compile_query : Text → Result Dsl
  unfolding parse to_dsl
  compile_query s = parse s >>= tree_dsl

abbrev pub field_used : Option Field → List Text
field_used none = []
field_used (some f) = f.name ∷ []

-- `node.tok.field`, where it is not empty
abbrev pub used_by : Option Text → List Text
used_by none = []
used_by (some []) = []
used_by (some (c ∷ name)) = field_used (resolve (c ∷ name))

unfoldable mutual
  pub fields_used : Node → List Text
  fields_used (leaf t) = used_by t.field
  fields_used (negation n) = fields_used n
  fields_used (conjunction ns) = fields_used_all ns
  fields_used (disjunction ns) = fields_used_all ns

  pub fields_used_all : Nodes → List Text
  fields_used_all no_nodes = []
  fields_used_all (node n ns) = fields_used n ++ fields_used_all ns

abbrev pub is_free : Option Text → Bool
is_free none = true
is_free (some []) = true
is_free (some (c ∷ name)) = false

unfoldable mutual
  pub free_text_used : Node → Bool
  free_text_used (leaf t) = is_free t.field
  free_text_used (negation n) = free_text_used n
  free_text_used (conjunction ns) = free_text_used_any ns
  free_text_used (disjunction ns) = free_text_used_any ns

  pub free_text_used_any : Nodes → Bool
  free_text_used_any no_nodes = false
  free_text_used_any (node n ns) = free_text_used n || free_text_used_any ns

abbrev pub is_identity : Option Field → Bool
is_identity none = false
is_identity (some f) = f.identity

-- F.BY_NAME[name].identity, for a name in F.BY_NAME
unfoldable pub identifies : Text → Bool
unfolding fields
identifies name = is_identity (find_field (λ f. f.name == name) fields)

abbrev pub names_in : Result (Option Node) → Bool
names_in (failed m p n) = false
names_in (ok none) = false
names_in (ok (some n)) = free_text_used n || any identifies (fields_used n)

unfoldable pub names_someone : Text → Bool
unfolding parse free_text_used fields_used identifies
names_someone s = names_in (parse s)
