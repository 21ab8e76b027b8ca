-- ===== src/Store/Batch/Reads.antt =====
-- A reader of the statements of a batch by the words of Cypher, apart from the functions that write them:
-- the node that a `MERGE` is about, and the kind and the ends of the relationship that a
-- `MATCH … CREATE` creates.
use mathlib.Core.Option
use esgraph.Prelude.{
  Bool, true, ◌||◌, ◌≡◌, refl, List, [], ◌∷◌, ◌++◌, Option, none, some, if◌then◌else◌, arith,
}
use esgraph.Prelude.Text.{Text, text, text_eq, text_eq_refl, behind}
use esgraph.Core.Model.{
  EdgeKind, executed, forked, exited, remote_thread_created, got_task, created, wrote, unlinked,
  renamed, opened, closed, uipc_bound, uipc_connected,
}
use esgraph.Store.Cypher.Literal.{read_literal}

-- The kind of a node and its primary key.
abbrev pub Key : Type 0
Key = Text × Text

-- What a statement does to the graph: nothing for an audit row, the node that it makes sure of, or the
-- relationship from one node to another that it creates.
pub data Effect : Type 0 where
  keeps : Effect
  merges : Key → Effect
  links : Key → EdgeKind → Key → Effect

-- The first of the words that the text begins with, by what they stand for, and the text behind them.
unfoldable pub read_word : {A : Type 0} → List (Text × A) → Text → Option (A × Text)
unfolding behind
read_word [] s = none
read_word ((word, a) ∷ rest) s = elim (behind word s) [
  | some later ↦ some (a, later)
  | none ↦ read_word rest s
]

unfoldable pub ends_with : Text → Text → Bool
unfolding text_eq
ends_with word [] = text_eq [] word
ends_with word (c ∷ s) = text_eq (c ∷ s) word || ends_with word s

pub ends_with-append : (s word : Text) → ends_with word (s ++ word) ≡ true
unfolding ends_with text_eq
ends_with-append [] [] = refl
ends_with-append [] (c ∷ word) = ground (arith, text_eq_refl (c ∷ word))
ends_with-append (c ∷ s) word = ground (arith, ends_with-append s word)

-- The tables of nodes in a pattern, and the kind of their nodes.
abbrev pub tables : List (Text × Text)
tables =
    (text "Process {id: ", text "process")
    ∷ (text "File {id: ", text "file")
    ∷ (text "Socket {id: ", text "socket")
    ∷ []

abbrev pub relationships : List (Text × EdgeKind)
relationships =
    (text "EXECUTED {", executed)
    ∷ (text "FORKED {", forked)
    ∷ (text "EXITED {", exited)
    ∷ (text "REMOTE_THREAD_CREATED {", remote_thread_created)
    ∷ (text "GOT_TASK {", got_task)
    ∷ (text "CREATED {", created)
    ∷ (text "WROTE {", wrote)
    ∷ (text "UNLINKED {", unlinked)
    ∷ (text "RENAMED {", renamed)
    ∷ (text "OPENED {", opened)
    ∷ (text "CLOSED {", closed)
    ∷ (text "UIPC_BOUND {", uipc_bound)
    ∷ (text "UIPC_CONNECTED {", uipc_connected)
    ∷ []

-- A key of that kind, before the end of its pattern.
abbrev pub closed_by : Key → Option Text → Option (Key × Text)
closed_by key none = none
closed_by key (some later) = some (key, later)

abbrev pub keyed : Text → Option (Text × Text) → Option (Key × Text)
unfolding behind
keyed kind none = none
keyed kind (some (id, later)) = closed_by (kind, id) (behind (text "})") later)

-- `"<key>"})`
unfoldable pub read_key : Text → Text → Option (Key × Text)
unfolding keyed
read_key kind s = keyed kind (read_literal s)

-- `<table> {id: "<key>"})`
unfoldable pub read_node : Text → Option (Key × Text)
unfolding read_word read_key
read_node s = elim (read_word tables s) [
  | none ↦ none
  | some (kind, literal) ↦ read_key kind literal
]

-- An upsert ends behind its node, or goes on with what to set.
unfoldable pub upserted : Option (Key × Text) → Option Effect
unfolding behind
upserted none = none
upserted (some (node, [])) = some (merges node)
upserted (some (node, c ∷ later)) =
    Option.map (λ clauses. merges node) (behind (text " ON CREATE SET ") (c ∷ later))

-- The relationship between two nodes goes on to the end of the statement.
abbrev pub related : Key → Key → Option (EdgeKind × Text) → Option Effect
unfolding ends_with
related a b none = none
related a b (some (kind, given)) =
    if ends_with (text "}]->(b)") given then some (links a kind b) else none

abbrev pub arrow_behind : Key → Key → Option Text → Option Effect
unfolding read_word related
arrow_behind a b none = none
arrow_behind a b (some later) = related a b (read_word relationships later)

abbrev pub to_target : Key → Option (Key × Text) → Option Effect
unfolding arrow_behind behind
to_target a none = none
to_target a (some (b, later)) = arrow_behind a b (behind (text " CREATE (a)-[:") later)

abbrev pub target_behind : Key → Option Text → Option Effect
unfolding to_target read_node
target_behind a none = none
target_behind a (some later) = to_target a (read_node later)

abbrev pub from_source : Option (Key × Text) → Option Effect
unfolding target_behind behind
from_source none = none
from_source (some (a, later)) = target_behind a (behind (text ", (b:") later)

-- The words that a statement begins with.
pub data Verb : Type 0 where
  audits : Verb
  upserts : Verb
  matches : Verb

abbrev verbs : List (Text × Verb)
verbs =
    (text "MERGE (n:IngestEvent {id: ", audits)
    ∷ (text "MERGE (n:", upserts)
    ∷ (text "MATCH (a:", matches)
    ∷ []

abbrev pub read_verb : Option (Verb × Text) → Option Effect
unfolding read_node upserted from_source
read_verb none = none
read_verb (some (audits, later)) = some keeps
read_verb (some (upserts, later)) = upserted (read_node later)
read_verb (some (matches, later)) = from_source (read_node later)

-- What the statement does, `none` for a text that is no such statement.
unfoldable pub read_effect : Text → Option Effect
unfolding read_word read_verb
read_effect s = read_verb (read_word verbs s)
