-- ===== src/Store/Cypher.antt =====
-- crates/esgraph-store/src/cypher.rs: Cypher literals and assignments, and what is read from the
-- cells of a result. The values of the `lbug` crate are the variants that the source names and the
-- `Other` ones, a parameter like the text that the crate displays a value as.
pub mod Literal
pub mod Script
use mathlib.Core.Option
use esgraph.Prelude.{
  ℕ, ◌+◌, ◌-◌, ◌*◌, ◌^◌, Bool, true, false, ◌&&◌, Option, none, some, List, [], ◌∷◌, ◌++◌, ltb, leb,
  ◌==◌, if◌then◌else◌,
}
use esgraph.Prelude.Int.{ℤ, pos, negsuc, show_int}
use esgraph.Prelude.Number.{parse_u64}
use esgraph.Prelude.Text.{Text, text, replace, join}

abbrev pub quote_mark : ℕ
quote_mark = 34

abbrev pub backslash : ℕ
backslash = 92

-- The two calls of `replace` in `cypher_str`.
unfoldable pub escape : Text → Text
unfolding replace
escape s =
    replace quote_mark (backslash ∷ quote_mark ∷ [])
      (replace backslash (backslash ∷ backslash ∷ []) s)

unfoldable pub cypher_str : Text → Text
unfolding escape
cypher_str s = quote_mark ∷ (escape s ++ quote_mark ∷ [])

unfoldable pub cypher_i64 : ℤ → Text
unfolding show_int
cypher_i64 v = show_int v

unfoldable pub cypher_bool : Bool → Text
cypher_bool v = if v then text "true" else text "false"

-- `{prefix}.{key} = {value}`
unfoldable pub assign : Text → Text → Text → Text
assign prefix key value = prefix ++ (text "." ++ (key ++ (text " = " ++ value)))

unfoldable pub opt_str_assign : Text → Text → Option Text → Option Text
unfolding assign cypher_str
opt_str_assign prefix key value = Option.map (λ v. assign prefix key (cypher_str v)) value

unfoldable pub opt_i64_assign : Text → Text → Option ℤ → Option Text
unfolding assign cypher_i64
opt_i64_assign prefix key value = Option.map (λ v. assign prefix key (cypher_i64 v)) value

unfoldable pub opt_bool_assign : Text → Text → Option Bool → Option Text
unfolding assign cypher_bool
opt_bool_assign prefix key value = Option.map (λ v. assign prefix key (cypher_bool v)) value

unfoldable pub join_set_clauses : List Text → Text
unfolding join
join_set_clauses clauses = join (text ", ") clauses

-- `lbug::Value`
pub data Value (Other : Type 0) : Type 0 where
  null : Value Other
  string : Text → Value Other
  int64 : ℤ → Value Other
  uint64 : ℕ → Value Other
  int32 : ℤ → Value Other
  other : Other → Value Other

module _ {Other : Type 0} (display : Value Other → Text) where
  unfoldable pub value_to_string : Value Other → Text
  value_to_string null = []
  value_to_string (string s) = s
  value_to_string v = display v

  unfoldable pub parse_count_value : Value Other → Option ℕ
  unfolding parse_u64 value_to_string
  parse_count_value (int64 (pos n)) = some n
  parse_count_value (uint64 n) = some n
  parse_count_value (int32 (pos n)) = some n
  parse_count_value v = parse_u64 (value_to_string v)
