-- ===== src/Core/Model/Kinds.antt =====
-- crates/esgraph-core/src/model.rs: `NodeKind`, the tags of `GraphNode` for filters of queries.
use esgraph.Prelude.{◌≡◌, refl, arith}
use esgraph.Prelude.Text.{Text, text}
use esgraph.Core.Model.{GraphNode, kind_label}

pub data NodeKind : Type 0 where
  process : NodeKind
  file : NodeKind
  socket : NodeKind

-- `NodeKind::as_str`
unfoldable pub as_str : NodeKind → Text
as_str NodeKind.process = text "process"
as_str NodeKind.file = text "file"
as_str NodeKind.socket = text "socket"

-- The tag of a node.
abbrev tag : GraphNode → NodeKind
tag (GraphNode.process p) = NodeKind.process
tag (GraphNode.file f) = NodeKind.file
tag (GraphNode.socket s) = NodeKind.socket

-- The text of the tag of a node is its label, so that a filter by kind and an edge agree.
as_str-tag : (node : GraphNode) → as_str (tag node) ≡ kind_label node
unfolding as_str kind_label
as_str-tag (GraphNode.process p) = refl
as_str-tag (GraphNode.file f) = refl
as_str-tag (GraphNode.socket s) = refl

-- Different kinds have different texts.
as_str-injective : (a b : NodeKind) → as_str a ≡ as_str b → a ≡ b
unfolding as_str
as_str-injective a b h = ground arith
