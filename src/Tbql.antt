-- ===== src/Tbql.antt =====
-- console/backend/tbconsole/search/tbql.py: the query language of the console.
-- Positions count code points, as Python's indices do. A mistake carries which message it is, in
-- place of the message's words.
pub mod Lexer
pub mod Parser
pub mod Ensures
pub mod Trees
pub mod Quoting
pub mod Bounds
pub mod Limits
pub mod Fields
pub mod Dsl
pub mod Naming
pub mod Catalogue
pub mod Audit
mod Tests
use turkey_bite.Prelude.{ℕ, Bool, true, false, Option, none, some, leb, if◌then◌else◌}
use turkey_bite.Text.{Text, text}

-- Which message a TbqlError has.
pub data Mistake : Type 0 where
  unclosed_quote unclosed_parenthesis unclosed_range bad_range no_value : Mistake
  closes_nothing unexpected_text nothing_after too_deep empty_parentheses : Mistake
  never_closed too_many_terms value_too_long ends_too_soon no_term_before : Mistake
  values_only empty_quotes unknown_field bad_address bad_time bad_boolean : Mistake
  not_comparable : Mistake

-- A value, or a TbqlError: its message, position and length.
pub data Result {ℓ} (A : Type ℓ) : Type ℓ where
  ok : A → Result A
  failed : Mistake → ℕ → ℕ → Result A

infixl 5 ◌>>=◌
abbrev pub ◌>>=◌ {ℓ κ} : {A : Type ℓ} {B : Type κ} → Result A → (A → Result B) → Result B
ok a >>= f = f a
failed m p n >>= f = failed m p n

-- TbqlError(message, position, length)
abbrev pub mistake {ℓ} : {A : Type ℓ} → Mistake → ℕ → ℕ → Result A
mistake m p n = failed m p (if leb 1 n then n else 1)

pub data Kind : Type 0 where
  lp rp and_op or_op not_op term eof : Kind

-- (low, high, include_low, include_high)
pub record Range : Type 0 where
  pub low : Option Text
  pub high : Option Text
  pub include_low : Bool
  pub include_high : Bool

pub record Tok : Type 0 where
  pub kind : Kind
  pub pos : ℕ
  pub length : ℕ
  pub field : Option Text
  pub op : Text
  pub value : Text
  pub quoted : Bool
  pub range : Option Range
  pub group : Option Text
  pub pos_field : Option ℕ

-- Tok(kind, pos, length), with the defaults of the other fields
abbrev pub tok : Kind → ℕ → ℕ → Tok
tok k p n = record {
  kind = k;
  pos = p;
  length = n;
  field = none;
  op = text ":";
  value = text "";
  quoted = false;
  range = none;
  group = none;
  pos_field = none;
}

abbrev pub max_terms : ℕ
max_terms = 200

abbrev pub max_depth : ℕ
max_depth = 24

abbrev pub max_value : ℕ
max_value = 1024
