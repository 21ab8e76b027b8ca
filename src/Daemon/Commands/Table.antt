-- ===== src/Daemon/Commands/Table.antt =====
-- What `cmd_query` prints can be read back: its lines are cut at the tabs.
use esgraph.Prelude.{
  ◌≡◌, ◌≢◌, refl, ap, ap₂, sym, ◌∙◌, List, [], ◌∷◌, ◌++◌, append_assoc, append-nil, map, length,
  All, some, ok, map_err,
}
use esgraph.Prelude.Text.{Text, join}
use esgraph.Prelude.Split.{split, Lacks, split-join}
use esgraph.Core.Config.{Config}
use esgraph.Store.Batch.{StoreState}
use esgraph.Store.Graph.{from_config}
use esgraph.Store.Query.{QueryResult, query_tabular}
use esgraph.Daemon.Console.{Terminal, Console, ◌>>=◌, follow, print, print_all}
use esgraph.Daemon.Commands.{
  World, Failure, store_error, rows_line, table_lines, print_query, with_store, cmd_query,
}

pub print_all_lem :
    {Database E : Type 0} (lines : List Text) (t : Terminal Database)
    → print_all {E = E} lines t ≡ (ok tt, record t { lines = t.lines ++ lines })
unfolding print_all
print_all_lem [] t = ap (λ ls. (ok tt, record t { lines = ls })) (sym (append-nil t.lines))
print_all_lem (line ∷ rest) t =
    print_all_lem rest (record t { lines = t.lines ++ line ∷ [] })
    ∙ ap (λ ls. (ok tt, record t { lines = ls })) (append_assoc t.lines (line ∷ []) rest)

-- A line that has a cell, and no tab in its cells.
abbrev pub IsPlain : List Text → Type 0
IsPlain cells = (cells ≢ []) × All (Lacks 9) cells

split_line : (cells : List Text) → IsPlain cells → split 9 (join (9 ∷ []) cells) ≡ cells
split_line [] h = absurd (h.0 refl)
split_line (cell ∷ cells) h = split-join 9 cell cells h.1

split_lines :
    (rows : List (List Text)) → All IsPlain rows → map (split 9) (map (join (9 ∷ [])) rows) ≡ rows
split_lines [] h = refl
split_lines (row ∷ rows) h = ap₂ ◌∷◌ (split_line row h.0) (split_lines rows h.1)

table_lines-split :
    (r : QueryResult)
    → All IsPlain (r.columns ∷ r.rows)
    → map (split 9) (table_lines r) ≡ r.columns ∷ r.rows
table_lines-split r h = named r.columns r.rows h
  where
    named :
        (columns : List Text) (rows : List (List Text))
        → All IsPlain (columns ∷ rows)
        → map (split 9) (table_lines (record { columns = columns; rows = rows })) ≡ columns ∷ rows
    named [] rows h = absurd (h.0.0 refl)
    named (c ∷ cs) rows h = ap₂ ◌∷◌ (split_line (c ∷ cs) h.0) (split_lines rows h.1)

module _ {Database DbError IoError TomlError JsonError HandlerError Other : Type 0}
    (world : World Database DbError IoError TomlError JsonError HandlerError Other) where
  -- What `cmd_query` does with a result.
  abbrev shown : QueryResult → Console Database (Failure world) (Unit {0})
  unfolding print_all
  shown r = do table ← print_all (table_lines r); print (rows_line (length r.rows))

  shown_lem :
      (r : QueryResult) (t : Terminal Database)
      → shown r t
        ≡ (ok tt, record t { lines = (t.lines ++ table_lines r) ++ rows_line (length r.rows) ∷ [] })
  unfolding print_all
  shown_lem r t =
      ap (λ p. follow p.0 p.1 (λ u. print (rows_line (length r.rows))))
        (print_all_lem (table_lines r) t)

  print_query-ok :
      (cypher : Text) (t : Terminal Database) {r : QueryResult}
      → (query_tabular {IoError = IoError} world.driver world.display world.column_names cypher
          t.db).0
        ≡ ok r
      → (db : Database) × (print_query world cypher t ≡ (
        ok tt,
        record { lines = (t.lines ++ table_lines r) ++ rows_line (length r.rows) ∷ []; db = db },
      ))
  unfolding print_query print_all
  print_query-ok cypher t {r} h =
      let db =
        (query_tabular {IoError = IoError} world.driver world.display world.column_names cypher
          t.db).1 in
      (
        db,
        ap (λ answer. follow (map_err store_error answer) (record t { db = db }) shown) h
            ∙ shown_lem r (record t { db = db }),
      )

  -- The lines that `cmd_query` prints in front of the number of rows, cut at the tabs, are the columns
  -- and the rows of the result, where every one has a cell and no cell has a tab.
  pub cmd_query-split :
      (config : Config) (cypher : Text) {opened : StoreState Database} {r : QueryResult}
      → from_config {IoError = IoError} world.driver world.display world.opener config.store
        ≡ ok opened
      → (query_tabular {IoError = IoError} world.driver world.display world.column_names cypher
          opened.db).0
        ≡ ok r
      → All IsPlain (r.columns ∷ r.rows)
      → ((cmd_query world config cypher).result ≡ ok tt)
        × (table : List Text) × ((cmd_query world config cypher).lines
            ≡ table ++ rows_line (length r.rows) ∷ [])
        × (map (split 9) table ≡ r.columns ∷ r.rows)
  unfolding cmd_query
  cmd_query-split config cypher {opened} {r} opens answers plain =
      let (db, printed) = print_query-ok cypher (record { lines = []; db = opened.db }) answers in
      let ended : cmd_query world config cypher ≡ record {
        result = ok tt;
        lines = table_lines r ++ rows_line (length r.rows) ∷ [];
        db = some db;
      } =
        ap (λ answer. with_store world answer (print_query world cypher)) opens
        ∙ ap (λ p. record { result = p.0; lines = p.1.lines; db = some p.1.db }) printed in
      (ap (λ e. e.result) ended, table_lines r, ap (λ e. e.lines) ended, table_lines-split r plain)
