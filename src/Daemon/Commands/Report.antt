-- ===== src/Daemon/Commands/Report.antt =====
-- What `cmd_status` prints.
use esgraph.Prelude.{◌≡◌, ℕ, List, [], ◌∷◌, ◌++◌, All, true, map, Outcome, ok}
use esgraph.Prelude.Text.{Text, text}
use esgraph.Store.Schema.Tables.{table_names}
use esgraph.Core.Config.Resolve.{mentions}
use esgraph.Core.Config.{Config, resolved_event_names}
use esgraph.Core.Events.{EsEventName}
use esgraph.Store.Statements.{StoreError}
use esgraph.Store.Batch.{StoreState}
use esgraph.Store.Graph.{count_label, count_relationship}
use esgraph.Daemon.Console.{Terminal}
use esgraph.Daemon.Commands.{
  World, node_labels, shown_relationships, count_line, graph_line, name_line,
}

-- The tables of relationships that the report leaves out.
abbrev pub left_out : List Text
left_out = text "OPENED" ∷ text "CLOSED" ∷ text "GOT_TASK" ∷ text "REMOTE_THREAD_CREATED" ∷ []

-- Each of the names is among the others.
abbrev pub AreAmong : List Text → List Text → Type 0
unfolding mentions
AreAmong names others = All (λ name. mentions others name ≡ true) names

-- The counts are the answers for the labels, asked in turn, the last of which leaves this database.
abbrev pub Answers :
    {Database E : Type 0}
    → (Text → Database → Outcome E ℕ × Database)
    → List Text
    → Database
    → List ℕ
    → Database
    → Type 0
Answers count [] db [] after = db ≡ after
Answers count [] db (n ∷ ns) after = ⊥
Answers count (label ∷ rest) db [] after = ⊥
Answers count (label ∷ rest) db (n ∷ ns) after =
    ((count label db).0 ≡ ok n) × Answers count rest (count label db).1 ns after

abbrev pub count_lines : List Text → List ℕ → List Text
count_lines [] ns = []
count_lines (label ∷ rest) [] = []
count_lines (label ∷ rest) (n ∷ ns) = count_line label n ∷ count_lines rest ns

module _ {Database DbError IoError TomlError JsonError HandlerError Other : Type 0}
    (world : World Database DbError IoError TomlError JsonError HandlerError Other) where
  -- From one terminal to another, the counts for the labels have been asked and printed.
  abbrev Counted :
      (Text → Database → Outcome (StoreError DbError IoError) ℕ × Database)
      → List Text
      → Terminal Database
      → Terminal Database
      → Type 0
  Counted count labels t after =
      (ns : List ℕ) × Answers count labels t.db ns after.db
      × (after.lines ≡ t.lines ++ count_lines labels ns)

  -- The report on a store that is open: the counts of the nodes, of every table of the schema, then
  -- those of the relationships, of every table but the four that are left out, and the configured
  -- events.
  pub record IsReport (config : Config) (opened : StoreState Database) (lines : List Text)
      : Type 0 where
    pub every_node : AreAmong (table_names (text "NODE")) node_labels
    pub only_nodes : AreAmong node_labels (table_names (text "NODE"))
    pub every_edge : AreAmong (table_names (text "REL")) (shown_relationships ++ left_out)
    pub only_edges : AreAmong (shown_relationships ++ left_out) (table_names (text "REL"))
    pub nodes : List ℕ
    pub edges : List ℕ
    pub between : Database
    pub after : Database
    pub names : List EsEventName
    pub counts_nodes :
        Answers
          (count_label {IoError = IoError} world.driver world.display)
          node_labels
          opened.db
          nodes
          between
    pub counts_edges :
        Answers
          (count_relationship {IoError = IoError} world.driver world.display)
          shown_relationships
          between
          edges
          after
    pub resolves :
        resolved_event_names {IoError = IoError} {TomlError = TomlError} config ≡ ok names
    pub shown :
        lines
        ≡ (graph_line config.store ∷ [] ∷ count_lines node_labels nodes)
          ++ ([]
              ∷ (count_lines shown_relationships edges
                  ++ ([] ∷ text "configured ESF subscriptions:" ∷ map name_line names)))
