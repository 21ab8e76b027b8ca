-- ===== src/Tests/Samples.antt =====
-- Sample data: a process, events and messages, and a driver that records the scripts it runs.
use esgraph.Prelude.{Bool, true, false, Option, none, some, List, [], ◌∷◌, ok}
use esgraph.Prelude.Int.{pos}
use esgraph.Prelude.Text.{Text, text}
use esgraph.Core.Model.{ProcessNode, process, forked, EventDetails, NormalisedEvent}
use esgraph.Store.Batch.{Driver, StoreState}
use esgraph.Store.Graph.{Opener}
use esgraph.Esf.Endpoint.{AuditToken, File, Process, Event, EsEventType, Message}
use esgraph.Esf.Normalise.Parts.{OsText}

-- A database that keeps the scripts it has run.
abbrev pub recorder : Driver (List Text) (Unit {0}) (Unit {0})
recorder = record { connect = λ db. ok tt; query = λ script db. (ok [], script ∷ db) }

-- A file system whose databases are empty.
abbrev pub memory : Opener (List Text) (Unit {0}) (Unit {0})
memory = record {
  parent = λ path. none;
  create_dir_all = λ path. ok tt;
  new_database = λ path. ok [];
}

abbrev pub no_json : EventDetails → Option Text
no_json d = none

abbrev pub fresh_store : StoreState (List Text)
fresh_store = record { db = []; next_ingest_id = 1 }

abbrev pub process_row : Text → ProcessNode
process_row token = record {
  identity = record { pid = pos 7; audit_token_hex = token };
  path = text "/bin/a\";b";
  signing_id = none;
  team_id = none;
  cdhash = none;
  ppid = none;
  euid = some 0;
  egid = none;
  ruid = none;
  rgid = none;
  session_id = none;
  is_platform_binary = some true;
  parent_audit_token_hex = none;
  args_json = none;
  exit_status = none;
}

-- A fork of one process, whose path holds a quote and a semicolon.
abbrev pub fork_event : Text → NormalisedEvent
fork_event token = record {
  event_name = text "notify_fork";
  timestamp_unix_ns = pos 5;
  nodes = process (process_row token) ∷ [];
  edges =
      record {
        kind = forked;
        src_id = token;
        src_kind = text "process";
        dst_id = text "b2";
        dst_kind = text "process";
        timestamp_unix_ns = pos 5;
        metadata = none;
      }
      ∷ [];
  details = none;
  raw_json = none;
}

abbrev pub token : Text → AuditToken
token hex = record { lower_hex = hex; pid = pos 7; euid = 0; egid = 0; ruid = 0; rgid = 0 }

abbrev pub binary : File
binary = record {
  path = text "/bin/sh";
  path_truncated = false;
  st_ino = 3;
  st_mode = 493;
  st_uid = 0;
  st_gid = 0;
}

abbrev pub shell : Text → Process
shell hex = record {
  audit_token = token hex;
  ppid = pos 1;
  session_id = pos 1;
  is_platform_binary = true;
  signing_id = [];
  team_id = [];
  cdhash = 0 ∷ 0 ∷ [];
  executable = binary;
  parent_audit_token = none;
}

-- Text that is ASCII is decoded as itself.
abbrev pub ascii : OsText
ascii = record { to_string_lossy = λ s. s; to_json = λ args. none; debug_type = λ t. text "type" }

abbrev pub message : EsEventType → Event → Bool → Message
message type event auth = record {
  event = some event;
  event_type = type;
  since_epoch = some (record { secs = 2; subsec_nanos = 9 });
  process = shell (text "a1");
  needs_answer = auth;
}

abbrev pub fork_message : Message
fork_message = message EsEventType.notify_fork (Event.notify_fork (shell (text "b2"))) false

abbrev pub exec_message : Message
exec_message =
    message EsEventType.notify_exec
      (Event.notify_exec (shell (text "c3")) (text "sh" ∷ text "-c" ∷ [])) false

abbrev pub open_message : Message
open_message = message EsEventType.notify_open (Event.notify_open binary) false

-- An AUTH event, which is answered and not sent on.
abbrev pub auth_message : Message
auth_message = message EsEventType.auth_exec Event.unmodelled true
