-- ===== src/Store/Statements/Kept.antt =====
-- What a row keeps over several upserts of a process: the last arguments and the last exit status that
-- an event has given.
use mathlib.Core.Option
use esgraph.Prelude.{
  Bool, true, false, not, ◌≡◌, ◌≢◌, refl, ok, arith, sym, ap, ◌∙◌, Option, none, some, List, [],
  ◌∷◌, if◌then◌else◌,
}
use esgraph.Prelude.Int.{ℤ}
use esgraph.Prelude.Text.{Text, text, text_eq}
use esgraph.Core.Model.{ProcessNode, is_none}
use esgraph.Store.Cypher.{cypher_str, join_set_clauses}
use esgraph.Store.Statements.{merge, merge_process_stmt}
use esgraph.Store.Statements.Columns.{Literal, string, int64}
use esgraph.Store.Statements.Rows.{
  Column, Row, clauses_of, created, matched, process_set_clauses-Renders, set_columns, upsert,
  upserts,
}

-- The first value, and the second where there is no first.
abbrev pub later_or {ℓ} : {A : Type ℓ} → Option A → Option A → Option A
later_or none b = b
later_or (some a) b = some a

module _ {A : Type 0} where
  later_or-none : (a : Option A) → later_or a none ≡ a
  later_or-none none = refl
  later_or-none (some a) = refl

  later_or_assoc : (a b c : Option A) → later_or (later_or a b) c ≡ later_or a (later_or b c)
  later_or_assoc none b c = refl
  later_or_assoc (some a) b c = refl

-- The last value that the elements give.
unfoldable pub last_given : {A B : Type 0} → (A → Option B) → List A → Option B
last_given f [] = none
last_given f (a ∷ rest) = later_or (last_given f rest) (f a)

-- The value that the columns give to a name.
abbrev value : Text → List Column → Option Literal
unfolding text_eq
value name [] = none
value name ((key, v) ∷ rest) =
    if text_eq key name then later_or (value name rest) v else value name rest

set_columns-value :
    (columns : List Column) (row : Row) (name : Text)
    → set_columns columns row name ≡ later_or (value name columns) (row name)
unfolding set_columns text_eq
set_columns-value [] row name = refl
set_columns-value ((key, none) ∷ rest) row name =
    set_columns-value rest row name ∙ ap (λ a. later_or a (row name)) (skipped (text_eq key name))
  where
    skipped :
        (b : Bool)
        → value name rest ≡ (if b then later_or (value name rest) none else value name rest)
    skipped true = sym (later_or-none (value name rest))
    skipped false = refl
set_columns-value ((key, some v) ∷ rest) row name =
    set_columns-value rest (λ m. if text_eq key m then some v else row m) name
    ∙ taken (text_eq key name)
  where
    taken :
        (b : Bool)
        → later_or (value name rest) (if b then some v else row name)
          ≡ later_or (if b then later_or (value name rest) (some v) else value name rest) (row name)
    taken true = sym (later_or_assoc (value name rest) (some v) (row name))
    taken false = refl

-- What a row holds in a column, if there is a row.
abbrev pub column : Text → Option Row → Option Literal
column name none = none
column name (some row) = row name

-- A column to which every upsert gives what the process has for it.
upserts-last_given :
    (name : Text) (f : ProcessNode × ℤ → Option Literal)
    → ((q : ProcessNode × ℤ) (row : Option Row)
        → upsert q row name ≡ later_or (f q) (column name row))
    → (ps : List (ProcessNode × ℤ)) (row : Option Row)
    → column name (upserts ps row) ≡ later_or (last_given f ps) (column name row)
unfolding upserts last_given set_columns
upserts-last_given name f step [] row = refl
upserts-last_given name f step (q ∷ rest) row =
    upserts-last_given name f step rest (some (upsert q row))
    ∙ ap (later_or (last_given f rest)) (step q row)
    ∙ sym (later_or_assoc (last_given f rest) (f q) (column name row))

if_given :
    (o : Option Text)
    → (if not (is_none o) then Option.map string o else none) ≡ Option.map string o
if_given none = refl
if_given (some s) = refl

upsert-args :
    (q : ProcessNode × ℤ) (row : Option Row)
    → upsert q row (text "args_json")
      ≡ later_or (Option.map string q.0.args_json) (column (text "args_json") row)
unfolding set_columns text_eq
upsert-args (p, seen_ns) none =
    set_columns-value (created p seen_ns) (λ name. none) (text "args_json")
upsert-args (p, seen_ns) (some row) =
    set_columns-value (matched p seen_ns) row (text "args_json")
    ∙ ap (λ a. later_or a (row (text "args_json"))) (if_given p.args_json)

upsert-exit_status :
    (q : ProcessNode × ℤ) (row : Option Row)
    → upsert q row (text "exit_status")
      ≡ later_or (Option.map int64 q.0.exit_status) (column (text "exit_status") row)
unfolding set_columns text_eq
upsert-exit_status (p, seen_ns) none =
    set_columns-value (created p seen_ns) (λ name. none) (text "exit_status")
upsert-exit_status (p, seen_ns) (some row) =
    set_columns-value (matched p seen_ns) row (text "exit_status")

abbrev pub upsert_text : Text → List Text → List Text → Text
upsert_text token on_create on_match =
    merge (text "Process") (cypher_str token) (join_set_clauses on_create)
      (join_set_clauses on_match)

merge_process_stmt-rendered :
    {DbError IoError : Type 0} (p : ProcessNode) (seen_ns : ℤ)
    → p.identity.audit_token_hex ≢ []
    → merge_process_stmt {DbError = DbError} {IoError = IoError} p seen_ns
      ≡ ok (
          upsert_text p.identity.audit_token_hex
            (clauses_of (created p seen_ns))
            (clauses_of (matched p seen_ns)))
unfolding merge_process_stmt merge
merge_process_stmt-rendered p seen_ns token =
    let on_create = (process_set_clauses-Renders p seen_ns true).same in
    let on_match = (process_set_clauses-Renders p seen_ns (not (is_none p.args_json))).same in
    ground (arith, token, on_create, on_match)

-- The upsert of a process with an audit token sets the columns `created` where it creates the row, and
-- `matched` where it finds one; and a row that is made by such upserts holds the last arguments and
-- the last exit status that one of the processes had, and nothing where none had any.
pub upserts-column :
    {DbError IoError : Type 0} (p : ProcessNode) (seen_ns : ℤ) (ps : List (ProcessNode × ℤ))
    → p.identity.audit_token_hex ≢ []
    → (merge_process_stmt {DbError = DbError} {IoError = IoError} p seen_ns
        ≡ ok (
            upsert_text p.identity.audit_token_hex
              (clauses_of (created p seen_ns))
              (clauses_of (matched p seen_ns))))
      × (column (text "args_json") (upserts ps none)
          ≡ last_given (λ q. Option.map string q.0.args_json) ps)
      × (column (text "exit_status") (upserts ps none)
          ≡ last_given (λ q. Option.map int64 q.0.exit_status) ps)
upserts-column p seen_ns ps token = (
  merge_process_stmt-rendered p seen_ns token,
  upserts-last_given (text "args_json") (λ q. Option.map string q.0.args_json) upsert-args ps none
      ∙ later_or-none _,
  upserts-last_given (text "exit_status") (λ q. Option.map int64 q.0.exit_status) upsert-exit_status
        ps none
      ∙ later_or-none _,
)
