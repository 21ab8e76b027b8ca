-- ===== src/Store/Statements/Columns/Nodes.antt =====
-- The columns that the upserts of nodes and the row of an event set.
use mathlib.Core.Option
use esgraph.Prelude.{Bool, refl, Option, All, All-append}
use esgraph.Prelude.Int.{ℤ, pos, i64_wrapped}
use esgraph.Prelude.Text.{Text, text}
use esgraph.Core.Model.{ProcessNode, FileNode, SocketNode, EventDetails, NormalisedEvent}
use esgraph.Store.Statements.{
  details_to_json, process_set_clauses, file_set_clauses, socket_set_clauses, ingest_event_clauses,
}
use esgraph.Store.Statements.Columns.{
  string, int64, boolean, declared, SetsColumn, str-SetsColumn, i64-SetsColumn, bool-SetsColumn,
  always, if-SetsColumn,
}

abbrev pub process_label : Text
process_label = text "Process"

abbrev pub file_label : Text
file_label = text "File"

pub process_set_clauses-SetsColumn :
    (p : ProcessNode) (seen_ns : ℤ) (include_args : Bool)
    → All (SetsColumn process_label) (process_set_clauses p seen_ns include_args)
unfolding process_set_clauses declared
process_set_clauses-SetsColumn p seen_ns b = (
  always process_label (text "pid") (int64 p.identity.pid) refl,
  (
    always process_label (text "path") (string p.path) refl,
    (
      always process_label (text "last_seen_unix_ns") (int64 seen_ns) refl,
      (All-append (SetsColumn process_label) _ _
          (str-SetsColumn process_label (text "signing_id") refl p.signing_id)
          (All-append (SetsColumn process_label) _ _
            (str-SetsColumn process_label (text "team_id") refl p.team_id)
            (All-append (SetsColumn process_label) _ _
              (str-SetsColumn process_label (text "cdhash") refl p.cdhash)
              (All-append (SetsColumn process_label) _ _
                (i64-SetsColumn process_label (text "ppid") refl p.ppid)
                (All-append (SetsColumn process_label) _ _
                  (i64-SetsColumn process_label (text "euid") refl (Option.map pos p.euid))
                  (All-append (SetsColumn process_label) _ _
                    (i64-SetsColumn process_label (text "egid") refl (Option.map pos p.egid))
                    (All-append (SetsColumn process_label) _ _
                      (i64-SetsColumn process_label (text "ruid") refl (Option.map pos p.ruid))
                      (All-append (SetsColumn process_label) _ _
                        (i64-SetsColumn process_label (text "rgid") refl (Option.map pos p.rgid))
                        (All-append (SetsColumn process_label) _ _
                          (i64-SetsColumn process_label (text "session_id") refl p.session_id)
                          (All-append (SetsColumn process_label) _ _
                            (bool-SetsColumn process_label (text "is_platform_binary") refl
                              p.is_platform_binary)
                            (All-append (SetsColumn process_label) _ _
                              (str-SetsColumn process_label (text "parent_audit_token_hex") refl
                                p.parent_audit_token_hex)
                              (All-append (SetsColumn process_label) _ _
                                (if-SetsColumn process_label b _ (
                                  str-SetsColumn process_label (text "args_json") refl p.args_json))
                                (i64-SetsColumn process_label (text "exit_status") refl
                                  p.exit_status))))))))))))),
    ),
  ),
)

pub file_set_clauses-SetsColumn :
    (f : FileNode) (seen_ns : ℤ) → All (SetsColumn file_label) (file_set_clauses f seen_ns)
unfolding file_set_clauses declared
file_set_clauses-SetsColumn f seen_ns = (
  always file_label (text "path") (string f.path) refl,
  (
    always file_label (text "last_seen_unix_ns") (int64 seen_ns) refl,
    (
      always file_label (text "path_truncated") (boolean f.path_truncated) refl,
      All-append (SetsColumn file_label) _ _
          (i64-SetsColumn file_label (text "inode") refl (Option.map i64_wrapped f.inode))
          (All-append (SetsColumn file_label) _ _
            (i64-SetsColumn file_label (text "mode") refl (Option.map pos f.mode))
            (All-append (SetsColumn file_label) _ _
              (i64-SetsColumn file_label (text "owner_uid") refl (Option.map pos f.owner_uid))
              (i64-SetsColumn file_label (text "owner_gid") refl (Option.map pos f.owner_gid)))),
    ),
  ),
)

pub socket_set_clauses-SetsColumn :
    (s : SocketNode) (seen_ns : ℤ) → All (SetsColumn (text "Socket")) (socket_set_clauses s seen_ns)
unfolding socket_set_clauses declared
socket_set_clauses-SetsColumn s seen_ns = (
  always (text "Socket") (text "path") (string s.path) refl,
  (always (text "Socket") (text "last_seen_unix_ns") (int64 seen_ns) refl, tt),
)

abbrev pub event_label : Text
event_label = text "IngestEvent"

pub ingest_event_clauses-SetsColumn :
    (to_json : EventDetails → Option Text) (event : NormalisedEvent)
    → All (SetsColumn event_label) (ingest_event_clauses to_json event)
unfolding ingest_event_clauses declared
ingest_event_clauses-SetsColumn to_json event = (
  always event_label (text "event_name") (string event.event_name) refl,
  (
    always event_label (text "timestamp_unix_ns") (int64 event.timestamp_unix_ns) refl,
    All-append (SetsColumn event_label) _ _
        (str-SetsColumn event_label (text "context_json") refl
          (details_to_json to_json event.details))
        (str-SetsColumn event_label (text "raw_json") refl event.raw_json),
  ),
)
