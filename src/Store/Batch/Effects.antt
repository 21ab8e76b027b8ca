-- ===== src/Store/Batch/Effects.antt =====
-- What the statements of a batch make of a graph, and so its orders, by the meaning that Cypher gives to the statements: `MERGE`
-- creates a node of that table and key where there is none, and `MATCH … CREATE` creates an edge where
-- there are nodes for both its ends, and otherwise nothing. Audit rows stand apart from the graph.
use esgraph.Prelude.{
  Bool, true, false, ◌&&◌, ◌||◌, ◌≡◌, refl, Option, none, some, List, [], ◌∷◌, ◌++◌, if◌then◌else◌,
  Bool-cases, inl, inr, arith,
}
use esgraph.Prelude.Text.{Text, text_eq, text_eq_refl}
use esgraph.Core.Model.{GraphNode, id, kind_label, EdgeKind, GraphEdge}
use esgraph.Store.Batch.Reads.{Key, Effect, keeps, merges, links, read_effect}
use esgraph.Store.Batch.Orders.{Order, audit, upsert, stub, link}

abbrev pub key : GraphNode → Key
key node = (kind_label node, id node)

abbrev pub source : GraphEdge → Key
source edge = (edge.src_kind, edge.src_id)

abbrev pub target : GraphEdge → Key
target edge = (edge.dst_kind, edge.dst_id)

unfoldable pub same_key : Key → Key → Bool
unfolding text_eq
same_key a b = text_eq a.0 b.0 && text_eq a.1 b.1

unfoldable pub has : List Key → Key → Bool
unfolding same_key
has [] k = false
has (a ∷ rest) k = same_key a k || has rest k

-- No key stands twice in the list.
abbrev pub IsDistinct : List Key → Type 0
unfolding has
IsDistinct [] = Unit
IsDistinct (a ∷ rest) = (has rest a ≡ false) × IsDistinct rest

-- A relationship: its source, its kind and its target.
abbrev pub Arrow : Type 0
Arrow = Key × EdgeKind × Key

abbrev pub arrow : GraphEdge → Arrow
arrow edge = (source edge, edge.kind, target edge)

pub record Graph : Type 0 where
  pub nodes : List Key
  pub edges : List Arrow

-- `MERGE`
unfoldable pub merged : Key → Graph → Graph
unfolding has
merged k g = if has g.nodes k then g else record g { nodes = k ∷ g.nodes }

-- `MATCH … CREATE`
unfoldable pub linked : Key → EdgeKind → Key → Graph → Graph
unfolding has
linked a kind b g =
    if has g.nodes a && has g.nodes b then record g { edges = g.edges ++ (a, kind, b) ∷ [] } else g

unfoldable pub act : Effect → Graph → Graph
unfolding merged linked
act keeps g = g
act (merges k) g = merged k g
act (links a kind b) g = linked a kind b g

-- What a database does that runs the statements in turn; `none` where one of them is no statement that
-- it can read.
unfoldable pub execute : List Text → Graph → Option Graph
unfolding read_effect act
execute [] g = some g
execute (s ∷ ss) g = elim (read_effect s) [ none ↦ none | some e ↦ execute ss (act e g) ]

abbrev pub effect : Order → Effect
effect (audit id event) = keeps
effect (upsert node ts) = merges (key node)
effect (stub kind id) = merges (kind, id)
effect (link edge name id) = links (source edge) edge.kind (target edge)

unfoldable pub obey : Order → Graph → Graph
unfolding act
obey o g = act (effect o) g

unfoldable pub obey_all : List Order → Graph → Graph
unfolding obey
obey_all [] g = g
obey_all (o ∷ os) g = obey_all os (obey o g)

pub obey_all-append :
    (os ps : List Order) (g : Graph) → obey_all (os ++ ps) g ≡ obey_all ps (obey_all os g)
unfolding obey_all
obey_all-append [] ps g = refl
obey_all-append (o ∷ os) ps g = obey_all-append os ps (obey o g)

pub same_key_refl : (k : Key) → same_key k k ≡ true
unfolding same_key
same_key_refl (a, b) = ground (arith, text_eq_refl a, text_eq_refl b)

-- A key that is merged is there, and those that were there stay.
pub merged-has : (k : Key) (g : Graph) → has (merged k g).nodes k ≡ true
unfolding merged has
merged-has k g = ground (arith, same_key_refl k)

pub merged-keeps : (k a : Key) (g : Graph) → has g.nodes a ≡ true → has (merged k g).nodes a ≡ true
unfolding merged has
merged-keeps k a g h = ground arith

obey-keeps :
    (o : Order) (a : Key) (g : Graph) → has g.nodes a ≡ true → has (obey o g).nodes a ≡ true
unfolding obey act linked
obey-keeps (audit id event) a g h = h
obey-keeps (upsert node ts) a g h = merged-keeps (key node) a g h
obey-keeps (stub kind id) a g h = merged-keeps (kind, id) a g h
obey-keeps (link edge name id) a g h = ground arith

pub obey_all-keeps :
    (os : List Order) (a : Key) (g : Graph)
    → has g.nodes a ≡ true
    → has (obey_all os g).nodes a ≡ true
unfolding obey_all
obey_all-keeps [] a g h = h
obey_all-keeps (o ∷ os) a g h = obey_all-keeps os a (obey o g) (obey-keeps o a g h)

merged-IsDistinct : (k : Key) (g : Graph) → IsDistinct g.nodes → IsDistinct (merged k g).nodes
unfolding merged
merged-IsDistinct k g d = elim (Bool-cases (has g.nodes k)) [
  | inl there ↦ rw there d
  | inr missing ↦ rw missing (missing, d)
]

obey-IsDistinct : (o : Order) (g : Graph) → IsDistinct g.nodes → IsDistinct (obey o g).nodes
unfolding obey act linked
obey-IsDistinct (audit id event) g d = d
obey-IsDistinct (upsert node ts) g d = merged-IsDistinct (key node) g d
obey-IsDistinct (stub kind id) g d = merged-IsDistinct (kind, id) g d
obey-IsDistinct (link edge name id) g d =
    elim (Bool-cases (has g.nodes (source edge) && has g.nodes (target edge))) [
      | inl both ↦ rw both d
      | inr lone ↦ rw lone d
    ]

pub obey_all-IsDistinct :
    (os : List Order) (g : Graph) → IsDistinct g.nodes → IsDistinct (obey_all os g).nodes
unfolding obey_all
obey_all-IsDistinct [] g d = d
obey_all-IsDistinct (o ∷ os) g d = obey_all-IsDistinct os (obey o g) (obey-IsDistinct o g d)
