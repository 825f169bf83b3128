-- ===== src/Tbql/Trees.antt =====
-- The measures of a query's tree.
use turkey_bite.Prelude.{ℕ, suc, ◌+◌, ◌≤◌, length, leb, if◌then◌else◌}
use turkey_bite.Tbql.{max_value}
use turkey_bite.Tbql.Parser.{Node, leaf, negation, conjunction, disjunction, Nodes, no_nodes, node}

abbrev pub top : ℕ → ℕ → ℕ
top a b = if leb a b then b else a

unfoldable mutual
  pub height : Node → ℕ
  height (leaf t) = 1
  height (negation n) = suc (height n)
  height (conjunction ns) = suc (height_all ns)
  height (disjunction ns) = suc (height_all ns)

  pub height_all : Nodes → ℕ
  height_all no_nodes = 0
  height_all (node n ns) = top (height n) (height_all ns)

unfoldable mutual
  pub leaves : Node → ℕ
  leaves (leaf t) = 1
  leaves (negation n) = leaves n
  leaves (conjunction ns) = leaves_all ns
  leaves (disjunction ns) = leaves_all ns

  pub leaves_all : Nodes → ℕ
  leaves_all no_nodes = 0
  leaves_all (node n ns) = leaves n + leaves_all ns

-- Every term's value is within the limit.
unfoldable mutual
  pub AllShort : Node → Type 0
  AllShort (leaf t) = length t.value ≤ max_value
  AllShort (negation n) = AllShort n
  AllShort (conjunction ns) = AllShortAll ns
  AllShort (disjunction ns) = AllShortAll ns

  pub AllShortAll : Nodes → Type 0
  AllShortAll no_nodes = Unit
  AllShortAll (node n ns) = AllShort n × AllShortAll ns
