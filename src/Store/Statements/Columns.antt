-- ===== src/Store/Statements/Columns.antt =====
-- What statements set against what the schema declares: a clause gives a column of its table a literal
-- of the type of the column.
pub mod Nodes
pub mod Edges
pub mod Written
use mathlib.Core.Option
use esgraph.Prelude.{
  ℕ, Bool, true, false, ◌||◌, ◌≡◌, refl, Option, none, some, List, [], ◌∷◌, ◌++◌, All, All-append,
  if◌then◌else◌, ◌&&◌,
}
use esgraph.Prelude.Int.{ℤ, pos, i64_saturated, i64_wrapped}
use esgraph.Prelude.Text.{Text, text, starts_with, contains_text}
use esgraph.Core.Model.{
  ProcessNode, FileNode, SocketNode, GraphNode, process, file, socket, GraphEdge, EdgeKind,
  executed, forked, exited, remote_thread_created, got_task, created, wrote, unlinked, renamed,
  opened, closed, uipc_bound, uipc_connected, EventDetails, NormalisedEvent,
}
use esgraph.Store.Cypher.{
  cypher_str, cypher_i64, cypher_bool, assign, opt_str_assign, opt_i64_assign, opt_bool_assign,
}
use esgraph.Store.Schema.{init_schema}
use esgraph.Store.Statements.{
  details_to_json, opt_list, n, pair, opt_pair, process_set_clauses, file_set_clauses,
  socket_set_clauses, ingest_event_clauses, edge_props, edge_kind_name,
}

-- A value of a column, its text in Cypher, and the name of its type in the schema.
pub data Literal : Type 0 where
  string : Text → Literal
  int64 : ℤ → Literal
  boolean : Bool → Literal

abbrev pub literal : Literal → Text
literal (string s) = cypher_str s
literal (int64 v) = cypher_i64 v
literal (boolean b) = cypher_bool b

abbrev pub type_name : Literal → Text
type_name (string s) = text "STRING"
type_name (int64 v) = text "INT64"
type_name (boolean b) = text "BOOLEAN"

-- A statement of the schema creates that table, with a column of that name and type.
abbrev declares : Text → Text → Text → Text → Text → Bool
unfolding starts_with contains_text
declares kind table column type_of ddl =
    starts_with (text "CREATE " ++ (kind ++ (text " TABLE IF NOT EXISTS " ++ (table ++ text " ("))))
      ddl
    && contains_text (10 ∷ (text "        " ++ (column ++ (text " " ++ type_of)))) ddl

abbrev any_declares : Text → Text → Text → Text → List Text → Bool
unfolding starts_with contains_text
any_declares kind table column type_of [] = false
any_declares kind table column type_of (ddl ∷ rest) =
    declares kind table column type_of ddl || any_declares kind table column type_of rest

-- `kind` is `NODE` or `REL`.
unfoldable pub declared : Text → Text → Text → Text → Bool
unfolding starts_with contains_text init_schema
declared kind table column type_of = any_declares kind table column type_of init_schema

-- The clause sets a declared column of that table of nodes to a value of its type.
abbrev pub SetsColumn : Text → Text → Type 0
SetsColumn table clause =
    (key : Text) × (v : Literal) × (clause ≡ assign n key (literal v))
    × (declared (text "NODE") table key (type_name v) ≡ true)

-- The property gives a declared column of that table of relationships a value of its type.
abbrev pub GivesColumn : Text → Text → Type 0
GivesColumn table property =
    (key : Text) × (v : Literal) × (property ≡ pair key (literal v))
    × (declared (text "REL") table key (type_name v) ≡ true)

module _ (table key : Text) where
  str-SetsColumn :
      declared (text "NODE") table key (text "STRING") ≡ true
      → (v : Option Text) → All (SetsColumn table) (opt_list (opt_str_assign n key v))
  unfolding opt_str_assign
  str-SetsColumn h none = tt
  str-SetsColumn h (some v) = ((key, string v, refl, h), tt)

  i64-SetsColumn :
      declared (text "NODE") table key (text "INT64") ≡ true
      → (v : Option ℤ) → All (SetsColumn table) (opt_list (opt_i64_assign n key v))
  unfolding opt_i64_assign
  i64-SetsColumn h none = tt
  i64-SetsColumn h (some v) = ((key, int64 v, refl, h), tt)

  bool-SetsColumn :
      declared (text "NODE") table key (text "BOOLEAN") ≡ true
      → (v : Option Bool) → All (SetsColumn table) (opt_list (opt_bool_assign n key v))
  unfolding opt_bool_assign
  bool-SetsColumn h none = tt
  bool-SetsColumn h (some v) = ((key, boolean v, refl, h), tt)

-- The columns that are set whatever the event holds.
always :
    (table key : Text) (v : Literal)
    → declared (text "NODE") table key (type_name v) ≡ true
    → SetsColumn table (assign n key (literal v))
always table key v h = (key, v, refl, h)

if-SetsColumn :
    (table : Text) (b : Bool) (clauses : List Text)
    → All (SetsColumn table) clauses
    → All (SetsColumn table) (if b then clauses else [])
if-SetsColumn table true clauses h = h
if-SetsColumn table false clauses h = tt
