-- ===== src/Daemon/Pipeline/Grammar.antt =====
-- The statements that the daemon runs, by the words of Cypher and the tables of the schema.
use esgraph.Prelude.{
  true, ◌≡◌, refl, sym, ◌∙◌, ◌⊎◌, inl, inr, List, ◌∷◌, ◌++◌, All, All-mono, ok, ok-injective,
}
use esgraph.Prelude.Text.{Text, text, join}
use esgraph.Store.Cypher.{assign, cypher_str, join_set_clauses}
use esgraph.Store.Schema.Tables.{has_rel_table}
use esgraph.Store.Statements.{node_label, merge}
use esgraph.Store.Statements.Columns.{Literal, literal, type_name, declared, SetsColumn}
use esgraph.Store.Batch.Writable.{IsKind}
use esgraph.Store.Batch.ReadBack.{table, node_label-table, node_label-IsKind-table}
use esgraph.Store.Batch.Orders.{Order, audit, upsert, stub, link}
use esgraph.Esf.Normalise.Ingestible.{HasTable}

-- `n.<column> = <literal>`, for a column of that table and a literal of its type.
abbrev pub IsClause : Text → Text → Type 0
IsClause label clause =
    (key : Text) × (v : Literal) × (clause ≡ text "n." ++ (key ++ (text " = " ++ literal v)))
    × (declared (text "NODE") label key (type_name v) ≡ true)

-- `<column>: <literal>`
abbrev pub IsGiven : Text → Text → Type 0
IsGiven rel given =
    (key : Text) × (v : Literal) × (given ≡ key ++ (text ": " ++ literal v))
    × (declared (text "REL") rel key (type_name v) ≡ true)

-- One or more of these, with commas between them.
abbrev pub IsListed : (Text → Type 0) → Text → Type 0
IsListed P s = (c : Text) × (cs : List Text) × (s ≡ join (text ", ") (c ∷ cs)) × All P (c ∷ cs)

-- `MERGE` of a node by its primary key.
pub record IsMerge (s : Text) : Type 0 where
  pub label : Text
  pub id : Literal
  pub keyed : declared (text "NODE") label (text "id") (type_name id) ≡ true
  pub is : s ≡ text "MERGE (n:" ++ (label ++ (text " {id: " ++ (literal id ++ text "})")))

pub record IsUpsert (s : Text) : Type 0 where
  pub label : Text
  pub id : Literal
  pub create : Text
  pub on_match : Text
  pub keyed : declared (text "NODE") label (text "id") (type_name id) ≡ true
  pub creates : IsListed (IsClause label) create
  pub matches : IsListed (IsClause label) on_match
  pub is :
      s
      ≡ text "MERGE (n:"
        ++ (label
            ++ (text " {id: "
                ++ (literal id
                    ++ (text "}) ON CREATE SET "
                        ++ (create ++ (text " ON MATCH SET " ++ on_match))))))

-- `MATCH … CREATE` of a relationship that the schema has between these tables.
pub record IsCreation (s : Text) : Type 0 where
  pub src : Text
  pub dst : Text
  pub src_id : Text
  pub dst_id : Text
  pub rel : Text
  pub properties : Text
  pub has_table : has_rel_table rel src dst ≡ true
  pub gives : IsListed (IsGiven rel) properties
  pub is :
      s
      ≡ text "MATCH (a:"
        ++ (src
            ++ (text " {id: "
                ++ (cypher_str src_id
                    ++ (text "}), (b:"
                        ++ (dst
                            ++ (text " {id: "
                                ++ (cypher_str dst_id
                                    ++ (text "}) CREATE (a)-[:"
                                        ++ (rel
                                            ++ (text " {"
                                                ++ (properties ++ text "}]->(b)")))))))))))

-- A statement that the database knows.
abbrev pub IsCypher : Text → Type 0
IsCypher s = IsMerge s ⊎ IsUpsert s ⊎ IsCreation s

clauses-IsClause :
    (label : Text) (clauses : List Text)
    → All (SetsColumn label) clauses
    → All (IsClause label) clauses
unfolding assign
clauses-IsClause label clauses h = All-mono (SetsColumn label) (IsClause label) clauses (λ c k. k) h

pub merge-IsUpsert :
    (label : Text) (id : Literal) (c d : Text) (cs ds : List Text)
    → declared (text "NODE") label (text "id") (type_name id) ≡ true
    → All (SetsColumn label) (c ∷ cs)
    → All (SetsColumn label) (d ∷ ds)
    → IsUpsert (merge label (literal id) (join_set_clauses (c ∷ cs)) (join_set_clauses (d ∷ ds)))
unfolding merge join_set_clauses
merge-IsUpsert label id c d cs ds keyed h k = record {
  label = label;
  id = id;
  create = join (text ", ") (c ∷ cs);
  on_match = join (text ", ") (d ∷ ds);
  keyed = keyed;
  creates = (c, cs, refl, clauses-IsClause label (c ∷ cs) h);
  matches = (d, ds, refl, clauses-IsClause label (d ∷ ds) k);
  is = refl;
}

-- An edge of a table of the schema; the other orders need nothing.
abbrev pub Fits : Order → Type 0
Fits (audit n event) = Unit
Fits (upsert node ts) = Unit
Fits (stub kind id) = Unit
Fits (link edge name n) = HasTable edge

pub table-keyed :
    (kind : Text) (k : IsKind kind)
    → declared (text "NODE") (table kind k) (text "id") (text "STRING") ≡ true
unfolding declared
table-keyed kind (inl e) = refl
table-keyed kind (inr (inl e)) = refl
table-keyed kind (inr (inr e)) = refl

pub node_label-same :
    {E F : Type 0} (kind : Text) {a b : Text}
    → node_label {E = E} kind ≡ ok a
    → node_label {E = F} kind ≡ ok b
    → a ≡ b
node_label-same {E} {F} kind h h' =
    let (k, is_table) = node_label-table kind h in
    is_table ∙ ok-injective (sym (node_label-IsKind-table {E = F} kind k) ∙ h')
