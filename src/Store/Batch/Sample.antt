-- ===== src/Store/Batch/Sample.antt =====
-- `sample_write_event` of ingest.rs, the event that the tests of the crate ingest.
use esgraph.Prelude.{true, false, none, some, [], ◌∷◌}
use esgraph.Prelude.Int.{pos}
use esgraph.Prelude.Text.{Text, text}
use esgraph.Core.Model.{
  process, file, wrote, EventDetails, default_details, GraphNode, GraphEdge, NormalisedEvent,
}

abbrev token : Text
token = text "aabbccdd0011"

abbrev sample_details : EventDetails
sample_details = record default_details {
  instigator_pid = some (pos 4242);
  instigator_euid = some 501;
  instigator_egid = some 20;
  instigator_path = some (text "/bin/zsh");
  file_mode = some 33188;
  file_inode = some 12345;
  file_owner_uid = some 501;
  file_owner_gid = some 20;
  path_truncated = some false;
}

abbrev pub sample_process : GraphNode
sample_process = process (record {
  identity = record { pid = pos 4242; audit_token_hex = token };
  path = text "/bin/zsh";
  signing_id = none;
  team_id = none;
  cdhash = none;
  ppid = some (pos 1);
  euid = some 501;
  egid = some 20;
  ruid = some 501;
  rgid = some 20;
  session_id = some (pos 100);
  is_platform_binary = some true;
  parent_audit_token_hex = none;
  args_json = none;
  exit_status = none;
})

abbrev sample_file : GraphNode
sample_file = file (record {
  path = text "/tmp/research.txt";
  inode = some 12345;
  mode = some 33188;
  owner_uid = some 501;
  owner_gid = some 20;
  path_truncated = false;
})

abbrev pub sample_edge : GraphEdge
sample_edge = record {
  kind = wrote;
  src_id = token;
  src_kind = text "process";
  dst_id = text "/tmp/research.txt";
  dst_kind = text "file";
  timestamp_unix_ns = pos 1700000000000000000;
  metadata = none;
}

abbrev pub sample_write_event : NormalisedEvent
sample_write_event = record {
  event_name = text "notify_write";
  timestamp_unix_ns = pos 1700000000000000000;
  details = some sample_details;
  nodes = sample_process ∷ sample_file ∷ [];
  edges = sample_edge ∷ [];
  raw_json = some (text "{\"fixture\":\"write_event\"}");
}
