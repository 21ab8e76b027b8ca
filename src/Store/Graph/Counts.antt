-- ===== src/Store/Graph/Counts.antt =====
-- The counts that a store reports are the numbers that the database answers with, in each of the
-- forms in which a cell may hold one.
use esgraph.Prelude.{ℕ, ◌<◌, ◌^◌, ◌≡◌, ap, ◌∙◌, some, List, ◌∷◌, ◌++◌, ok, arith}
use esgraph.Prelude.Int.{pos, negsuc, show_nat}
use esgraph.Prelude.Number.{parse_u64, parse_u64-show_nat}
use esgraph.Prelude.Text.{Text, text}
use esgraph.Store.Cypher.{
  Value, null, string, int64, uint64, int32, other, value_to_string, parse_count_value,
}
use esgraph.Store.Batch.{Driver}
use esgraph.Store.Graph.{Row, ask, first_count, count_label}

module _ {Other : Type 0} (display : Value Other → Text) where
  -- The cell holds that number: as an integer of one of the three types that the code reads, or as
  -- decimal digits.
  abbrev pub HoldsCount : ℕ → Value Other → Type 0
  HoldsCount n null = ⊥
  HoldsCount n (string s) = s ≡ show_nat n
  HoldsCount n (int64 v) = v ≡ pos n
  HoldsCount n (uint64 v) = v ≡ n
  HoldsCount n (int32 v) = v ≡ pos n
  HoldsCount n (other o) = display (other o) ≡ show_nat n

  pub parse_count_value-HoldsCount :
      (n : ℕ) (v : Value Other) → n < 2 ^ 64 → HoldsCount n v → parse_count_value display v ≡ some n
  unfolding parse_count_value value_to_string
  parse_count_value-HoldsCount n null b h = absurd h
  parse_count_value-HoldsCount n (string s) b h = ap parse_u64 h ∙ parse_u64-show_nat n b
  parse_count_value-HoldsCount n (int64 (pos m)) b h = cc
  parse_count_value-HoldsCount n (int64 (negsuc m)) b h = cc
  parse_count_value-HoldsCount n (uint64 m) b h = ap some h
  parse_count_value-HoldsCount n (int32 (pos m)) b h = cc
  parse_count_value-HoldsCount n (int32 (negsuc m)) b h = cc
  parse_count_value-HoldsCount n (other o) b h = ap parse_u64 h ∙ parse_u64-show_nat n b

module _ {Database DbError IoError Other : Type 0} (driver : Driver Database DbError (Row Other))
    (display : Value Other → Text) where
  -- Where the database can be connected to and answers the query of a label with a row whose first
  -- cell holds a number below 2^64, that number is the count.
  pub count_label-HoldsCount :
      (label : Text) (db : Database) {v : Value Other} {cells : Row Other} {rows : List (Row Other)}
      {n : ℕ}
      → driver.connect db ≡ ok tt
      → (driver.query (text "MATCH (n:" ++ (label ++ text ") RETURN count(n)")) db).0
        ≡ ok ((v ∷ cells) ∷ rows)
      → n < 2 ^ 64
      → HoldsCount display n v
      → (count_label {IoError = IoError} driver display label db).0 ≡ ok n
  unfolding count_label ask first_count
  count_label-HoldsCount label db {v} {cells} {rows} {n} connects answers bound holds =
      ground (arith, connects, answers, parse_count_value-HoldsCount display n v bound holds)
