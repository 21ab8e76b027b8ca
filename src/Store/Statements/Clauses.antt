-- ===== src/Store/Statements/Clauses.antt =====
-- The parts that statements are made of close their literals and hold no semicolon outside them.
use mathlib.Core.Option
use esgraph.Prelude.{
  ℕ, Bool, true, false, Option, none, some, List, [], ◌∷◌, ◌≡◌, refl, All, All-append, ok, arith,
  if◌then◌else◌,
}
use esgraph.Prelude.Int.{ℤ, pos, i64_saturated, i64_wrapped}
use esgraph.Prelude.Text.{Text, text, join, match_text-All}
use esgraph.Core.Model.{
  ProcessNode, FileNode, SocketNode, EdgeKind, executed, GraphEdge, EventDetails, NormalisedEvent,
}
use esgraph.Store.Cypher.{assign, opt_str_assign, opt_i64_assign, opt_bool_assign, join_set_clauses}
use esgraph.Store.Cypher.Script.{
  scan, IsClosed, IsClosed-append, IsClosed-cypher_str, IsClosed-cypher_i64, IsClosed-cypher_bool,
}
use esgraph.Store.Statements.{
  details_to_json, edge_kind_name, labels, node_label, opt_list, opt_pair, n, process_set_clauses,
  file_set_clauses, socket_set_clauses, ingest_event_clauses, edge_props,
}

pub IsClosed-join :
    (sep : Text) (ts : List Text) → IsClosed sep → All IsClosed ts → IsClosed (join sep ts)
unfolding join
IsClosed-join sep [] hsep h = unfold scan in refl
IsClosed-join sep (t ∷ []) hsep h = h.0
IsClosed-join sep (t ∷ u ∷ ts) hsep h =
    IsClosed-append t _ h.0 (IsClosed-append sep _ hsep (IsClosed-join sep (u ∷ ts) hsep h.1))

pub IsClosed-join_set_clauses : (ts : List Text) → All IsClosed ts → IsClosed (join_set_clauses ts)
unfolding join_set_clauses scan
IsClosed-join_set_clauses ts h = IsClosed-join (text ", ") ts refl h

-- An assignment to a property of `n` whose key and value are closed.
IsClosed-assign : (key value : Text) → IsClosed key → IsClosed value → IsClosed (assign n key value)
unfolding assign scan
IsClosed-assign key value hk hv = IsClosed-append key _ hk hv

module _ (key : Text) (hk : IsClosed key) where
  opt_str-IsClosed : (v : Option Text) → All IsClosed (opt_list (opt_str_assign n key v))
  unfolding opt_str_assign
  opt_str-IsClosed none = tt
  opt_str-IsClosed (some v) = (IsClosed-assign key _ hk (IsClosed-cypher_str v), tt)

  opt_i64-IsClosed : (v : Option ℤ) → All IsClosed (opt_list (opt_i64_assign n key v))
  unfolding opt_i64_assign
  opt_i64-IsClosed none = tt
  opt_i64-IsClosed (some v) = (IsClosed-assign key _ hk (IsClosed-cypher_i64 v), tt)

  opt_bool-IsClosed : (v : Option Bool) → All IsClosed (opt_list (opt_bool_assign n key v))
  unfolding opt_bool_assign
  opt_bool-IsClosed none = tt
  opt_bool-IsClosed (some v) = (IsClosed-assign key _ hk (IsClosed-cypher_bool v), tt)

args-IsClosed :
    (p : ProcessNode) (b : Bool)
    → All IsClosed (if b then opt_list (opt_str_assign n (text "args_json") p.args_json) else [])
unfolding scan
args-IsClosed p true = opt_str-IsClosed (text "args_json") refl p.args_json
args-IsClosed p false = tt

pub process_set_clauses-IsClosed :
    (p : ProcessNode) (seen_ns : ℤ) (b : Bool) → All IsClosed (process_set_clauses p seen_ns b)
unfolding process_set_clauses scan
process_set_clauses-IsClosed p seen_ns b = (
  IsClosed-cypher_i64 p.identity.pid,
  (
    IsClosed-cypher_str p.path,
    (
      IsClosed-cypher_i64 seen_ns,
      (All-append IsClosed _ _ (opt_str-IsClosed (text "signing_id") refl p.signing_id) (
          All-append IsClosed _ _ (opt_str-IsClosed (text "team_id") refl p.team_id) (
            All-append IsClosed _ _ (opt_str-IsClosed (text "cdhash") refl p.cdhash) (
              All-append IsClosed _ _ (opt_i64-IsClosed (text "ppid") refl p.ppid) (
                All-append IsClosed _ _
                  (opt_i64-IsClosed (text "euid") refl (Option.map pos p.euid))
                  (All-append IsClosed _ _
                    (opt_i64-IsClosed (text "egid") refl (Option.map pos p.egid))
                    (All-append IsClosed _ _
                      (opt_i64-IsClosed (text "ruid") refl (Option.map pos p.ruid))
                      (All-append IsClosed _ _
                        (opt_i64-IsClosed (text "rgid") refl (Option.map pos p.rgid))
                        (All-append IsClosed _ _
                          (opt_i64-IsClosed (text "session_id") refl p.session_id)
                          (All-append IsClosed _ _
                            (opt_bool-IsClosed (text "is_platform_binary") refl
                              p.is_platform_binary)
                            (All-append IsClosed _ _
                              (opt_str-IsClosed (text "parent_audit_token_hex") refl
                                p.parent_audit_token_hex)
                              (All-append IsClosed _ _ (args-IsClosed p b) (
                                opt_i64-IsClosed (text "exit_status") refl
                                  p.exit_status))))))))))))),
    ),
  ),
)

pub file_set_clauses-IsClosed :
    (f : FileNode) (seen_ns : ℤ) → All IsClosed (file_set_clauses f seen_ns)
unfolding file_set_clauses scan
file_set_clauses-IsClosed f seen_ns = (
  IsClosed-cypher_str f.path,
  (
    IsClosed-cypher_i64 seen_ns,
    (
      IsClosed-cypher_bool f.path_truncated,
      (All-append IsClosed _ _
          (opt_i64-IsClosed (text "inode") refl (Option.map i64_wrapped f.inode))
          (All-append IsClosed _ _ (opt_i64-IsClosed (text "mode") refl (Option.map pos f.mode)) (
            All-append IsClosed _ _
              (opt_i64-IsClosed (text "owner_uid") refl (Option.map pos f.owner_uid))
              (opt_i64-IsClosed (text "owner_gid") refl (Option.map pos f.owner_gid))))),
    ),
  ),
)

pub socket_set_clauses-IsClosed :
    (s : SocketNode) (seen_ns : ℤ) → All IsClosed (socket_set_clauses s seen_ns)
unfolding socket_set_clauses scan assign
socket_set_clauses-IsClosed s seen_ns =
    (IsClosed-cypher_str s.path, (IsClosed-cypher_i64 seen_ns, tt))

pub ingest_event_clauses-IsClosed :
    (to_json : EventDetails → Option Text) (event : NormalisedEvent)
    → All IsClosed (ingest_event_clauses to_json event)
unfolding ingest_event_clauses scan
ingest_event_clauses-IsClosed to_json event = (
  IsClosed-cypher_str event.event_name,
  (
    IsClosed-cypher_i64 event.timestamp_unix_ns,
    (All-append IsClosed _ _
        (opt_str-IsClosed (text "context_json") refl (details_to_json to_json event.details))
        (opt_str-IsClosed (text "raw_json") refl event.raw_json)),
  ),
)

pub edge_kind_name-IsClosed : (kind : EdgeKind) → IsClosed (edge_kind_name kind)
unfolding edge_kind_name scan
edge_kind_name-IsClosed executed = refl
edge_kind_name-IsClosed _ = refl

pub node_label-IsClosed :
    {E : Type 0} (kind : Text) {label : Text} → node_label {E = E} kind ≡ ok label → IsClosed label
unfolding node_label labels scan
node_label-IsClosed kind {label} h =
    match_text-All (λ _ t. IsClosed t) kind {a = label} labels (refl, (refl, (refl, tt)))
      (ground arith)

opt_pair-IsClosed : (v : Option Text) → All IsClosed (opt_pair (text "metadata") v)
unfolding scan
opt_pair-IsClosed none = tt
opt_pair-IsClosed (some v) = (IsClosed-cypher_str v, tt)

pub edge_props-IsClosed :
    (edge : GraphEdge) (name : Text) (id : ℕ) → All IsClosed (edge_props edge name id)
unfolding edge_props scan
edge_props-IsClosed edge name id = (
  IsClosed-cypher_i64 edge.timestamp_unix_ns,
  (
    IsClosed-cypher_str name,
    (IsClosed-cypher_i64 (i64_saturated id), opt_pair-IsClosed edge.metadata),
  ),
)
