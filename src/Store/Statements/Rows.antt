-- ===== src/Store/Statements/Rows.antt =====
-- What the upserts of a process make of its row. A clause is read as an assignment to a column, and
-- `MERGE … ON CREATE SET … ON MATCH SET …` as the creation of a row or a change to it.
use mathlib.Core.Option
use esgraph.Prelude.{
  Bool, true, false, not, ◌≡◌, refl, ap, Option, none, some, List, [], ◌∷◌, ◌++◌, if◌then◌else◌,
}
use esgraph.Prelude.Int.{ℤ, pos}
use esgraph.Prelude.Text.{Text, text, text_eq}
use esgraph.Core.Model.{ProcessNode, is_none}
use esgraph.Store.Cypher.{assign, opt_str_assign, opt_i64_assign, opt_bool_assign}
use esgraph.Store.Statements.{opt_list, n, process_set_clauses}
use esgraph.Store.Statements.Columns.{Literal, string, int64, boolean, literal}

-- A column with the value that it is given, if it is given one.
abbrev pub Column : Type 0
Column = Text × Option Literal

-- The clauses of the columns that are given a value.
unfoldable pub clauses_of : List Column → List Text
clauses_of [] = []
clauses_of ((key, none) ∷ rest) = clauses_of rest
clauses_of ((key, some v) ∷ rest) = assign n key (literal v) ∷ clauses_of rest

-- What the upsert of a process gives its row.
abbrev pub process_columns : ProcessNode → ℤ → Bool → List Column
process_columns p seen_ns include_args =
    (text "pid", some (int64 p.identity.pid))
    ∷ (text "path", some (string p.path))
    ∷ (text "last_seen_unix_ns", some (int64 seen_ns))
    ∷ (text "signing_id", Option.map string p.signing_id)
    ∷ (text "team_id", Option.map string p.team_id)
    ∷ (text "cdhash", Option.map string p.cdhash)
    ∷ (text "ppid", Option.map int64 p.ppid)
    ∷ (text "euid", Option.map int64 (Option.map pos p.euid))
    ∷ (text "egid", Option.map int64 (Option.map pos p.egid))
    ∷ (text "ruid", Option.map int64 (Option.map pos p.ruid))
    ∷ (text "rgid", Option.map int64 (Option.map pos p.rgid))
    ∷ (text "session_id", Option.map int64 p.session_id)
    ∷ (text "is_platform_binary", Option.map boolean p.is_platform_binary)
    ∷ (text "parent_audit_token_hex", Option.map string p.parent_audit_token_hex)
    ∷ (text "args_json", if include_args then Option.map string p.args_json else none)
    ∷ (text "exit_status", Option.map int64 p.exit_status)
    ∷ []

-- These clauses are those of the columns.
pub record Renders (clauses : List Text) (columns : List Column) : Type 0 where
  pub same : clauses ≡ clauses_of columns

module _ {clauses : List Text} {columns : List Column} where
  always-Renders :
      (key : Text) (v : Literal)
      → Renders clauses columns
      → Renders (assign n key (literal v) ∷ clauses) ((key, some v) ∷ columns)
  unfolding clauses_of
  always-Renders key v h = record { same = ap (◌∷◌ (assign n key (literal v))) h.same }

  str-Renders :
      (key : Text) (v : Option Text)
      → Renders clauses columns
      → Renders
          (opt_list (opt_str_assign n key v) ++ clauses)
          ((key, Option.map string v) ∷ columns)
  unfolding clauses_of opt_str_assign
  str-Renders key none h = record { same = h.same }
  str-Renders key (some v) h = record { same = ap (◌∷◌ (assign n key (literal (string v)))) h.same }

  i64-Renders :
      (key : Text) (v : Option ℤ)
      → Renders clauses columns
      → Renders (opt_list (opt_i64_assign n key v) ++ clauses) ((key, Option.map int64 v) ∷ columns)
  unfolding clauses_of opt_i64_assign
  i64-Renders key none h = record { same = h.same }
  i64-Renders key (some v) h = record { same = ap (◌∷◌ (assign n key (literal (int64 v)))) h.same }

  bool-Renders :
      (key : Text) (v : Option Bool)
      → Renders clauses columns
      → Renders
          (opt_list (opt_bool_assign n key v) ++ clauses)
          ((key, Option.map boolean v) ∷ columns)
  unfolding clauses_of opt_bool_assign
  bool-Renders key none h = record { same = h.same }
  bool-Renders key (some v) h = record {
    same = ap (◌∷◌ (assign n key (literal (boolean v)))) h.same;
  }

  args-Renders :
      (b : Bool) (v : Option Text)
      → Renders clauses columns
      → Renders
          ((if b then opt_list (opt_str_assign n (text "args_json") v) else []) ++ clauses)
          ((text "args_json", if b then Option.map string v else none) ∷ columns)
  unfolding clauses_of
  args-Renders true v h = str-Renders (text "args_json") v h
  args-Renders false v h = record { same = h.same }

i64-Renders_last :
    (key : Text) (v : Option ℤ)
    → Renders (opt_list (opt_i64_assign n key v)) ((key, Option.map int64 v) ∷ [])
unfolding clauses_of opt_i64_assign
i64-Renders_last key none = record { same = refl }
i64-Renders_last key (some v) = record { same = refl }

pub process_set_clauses-Renders :
    (p : ProcessNode) (seen_ns : ℤ) (include_args : Bool)
    → Renders (process_set_clauses p seen_ns include_args) (process_columns p seen_ns include_args)
unfolding process_set_clauses
process_set_clauses-Renders p seen_ns include_args =
    always-Renders (text "pid") (int64 p.identity.pid) (
      always-Renders (text "path") (string p.path) (
        always-Renders (text "last_seen_unix_ns") (int64 seen_ns) (
          str-Renders (text "signing_id") p.signing_id (
            str-Renders (text "team_id") p.team_id (
              str-Renders (text "cdhash") p.cdhash (
                i64-Renders (text "ppid") p.ppid (
                  i64-Renders (text "euid") (Option.map pos p.euid) (
                    i64-Renders (text "egid") (Option.map pos p.egid) (
                      i64-Renders (text "ruid") (Option.map pos p.ruid) (
                        i64-Renders (text "rgid") (Option.map pos p.rgid) (
                          i64-Renders (text "session_id") p.session_id (
                            bool-Renders (text "is_platform_binary") p.is_platform_binary (
                              str-Renders (text "parent_audit_token_hex") p.parent_audit_token_hex (
                                args-Renders include_args p.args_json (
                                  i64-Renders_last (text "exit_status") p.exit_status)))))))))))))))

-- A row, by the names of its columns.
abbrev pub Row : Type 0
Row = Text → Option Literal

-- `SET`, one assignment after the other.
unfoldable pub set_columns : List Column → Row → Row
set_columns [] row = row
set_columns ((key, none) ∷ rest) row = set_columns rest row
set_columns ((key, some v) ∷ rest) row =
    set_columns rest (λ name. if text_eq key name then some v else row name)

-- What is set on creation and on a match.
abbrev pub created : ProcessNode → ℤ → List Column
created p seen_ns = process_columns p seen_ns true

abbrev pub matched : ProcessNode → ℤ → List Column
matched p seen_ns = process_columns p seen_ns (not (is_none p.args_json))

-- The upsert of a process, where there is no row yet and where there is one.
abbrev pub upsert : ProcessNode × ℤ → Option Row → Row
unfolding set_columns
upsert (p, seen_ns) none = set_columns (created p seen_ns) (λ name. none)
upsert (p, seen_ns) (some row) = set_columns (matched p seen_ns) row

unfoldable pub upserts : List (ProcessNode × ℤ) → Option Row → Option Row
unfolding set_columns
upserts [] row = row
upserts (p ∷ rest) row = upserts rest (some (upsert p row))
