-- ===== src/Core/Model.antt =====
-- crates/esgraph-core/src/model.rs: the nodes and edges that an event is reduced to. The fields of
-- 32 and 64 bits are plain numbers here; the code that converts them writes the widths out.
pub mod Kinds
use esgraph.Prelude.{ℕ, Bool, true, false, ◌&&◌, Option, none, some, List}
use esgraph.Prelude.Int.{ℤ}
use esgraph.Prelude.Text.{Text, text}

pub record ProcessIdentity : Type 0 where
  pub audit_token_hex : Text
  pub pid : ℤ

pub record ProcessNode : Type 0 where
  pub identity : ProcessIdentity
  pub path : Text
  pub signing_id : Option Text
  pub team_id : Option Text
  pub cdhash : Option Text
  pub ppid : Option ℤ
  pub euid : Option ℕ
  pub egid : Option ℕ
  pub ruid : Option ℕ
  pub rgid : Option ℕ
  pub session_id : Option ℤ
  pub is_platform_binary : Option Bool
  pub parent_audit_token_hex : Option Text
  pub args_json : Option Text
  pub exit_status : Option ℤ

pub record FileNode : Type 0 where
  pub path : Text
  pub inode : Option ℕ
  pub mode : Option ℕ
  pub owner_uid : Option ℕ
  pub owner_gid : Option ℕ
  pub path_truncated : Bool

pub record SocketNode : Type 0 where
  pub path : Text

pub data GraphNode : Type 0 where
  process : ProcessNode → GraphNode
  file : FileNode → GraphNode
  socket : SocketNode → GraphNode

-- `GraphNode::id`
unfoldable pub id : GraphNode → Text
id (process p) = p.identity.audit_token_hex
id (file f) = f.path
id (socket s) = s.path

-- `GraphNode::kind_label`
unfoldable pub kind_label : GraphNode → Text
kind_label (process _) = text "process"
kind_label (file _) = text "file"
kind_label (socket _) = text "socket"

pub data EdgeKind : Type 0 where
  executed forked exited remote_thread_created got_task : EdgeKind
  created wrote unlinked renamed opened closed : EdgeKind
  uipc_bound uipc_connected : EdgeKind

pub record GraphEdge : Type 0 where
  pub kind : EdgeKind
  pub src_id : Text
  pub src_kind : Text
  pub dst_id : Text
  pub dst_kind : Text
  pub timestamp_unix_ns : ℤ
  pub metadata : Option Text

pub record EventDetails : Type 0 where
  pub instigator_pid : Option ℤ
  pub instigator_euid : Option ℕ
  pub instigator_egid : Option ℕ
  pub instigator_path : Option Text
  pub instigator_audit_token_hex : Option Text
  pub target_audit_token_hex : Option Text
  pub target_path : Option Text
  pub exec_args : Option (List Text)
  pub exit_status : Option ℤ
  pub file_mode : Option ℕ
  pub file_inode : Option ℕ
  pub file_owner_uid : Option ℕ
  pub file_owner_gid : Option ℕ
  pub path_truncated : Option Bool

-- `EventDetails::default`
abbrev pub default_details : EventDetails
default_details = record {
  instigator_pid = none;
  instigator_euid = none;
  instigator_egid = none;
  instigator_path = none;
  instigator_audit_token_hex = none;
  target_audit_token_hex = none;
  target_path = none;
  exec_args = none;
  exit_status = none;
  file_mode = none;
  file_inode = none;
  file_owner_uid = none;
  file_owner_gid = none;
  path_truncated = none;
}

abbrev pub is_none {ℓ} : {A : Type ℓ} → Option A → Bool
is_none none = true
is_none (some _) = false

-- `EventDetails::is_empty`
unfoldable pub is_empty_details : EventDetails → Bool
is_empty_details d =
    is_none d.instigator_pid
    && (is_none d.instigator_euid
        && (is_none d.instigator_egid
            && (is_none d.instigator_path
                && (is_none d.instigator_audit_token_hex
                    && (is_none d.target_audit_token_hex
                        && (is_none d.target_path
                            && (is_none d.exec_args
                                && (is_none d.exit_status
                                    && (is_none d.file_mode
                                        && (is_none d.file_inode
                                            && (is_none d.file_owner_uid
                                                && (is_none d.file_owner_gid
                                                    && is_none d.path_truncated))))))))))))

pub record NormalisedEvent : Type 0 where
  pub event_name : Text
  pub timestamp_unix_ns : ℤ
  pub nodes : List GraphNode
  pub edges : List GraphEdge
  pub details : Option EventDetails
  pub raw_json : Option Text
