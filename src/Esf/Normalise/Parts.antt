-- ===== src/Esf/Normalise/Parts.antt =====
-- The helpers of `normalise_message`: nodes, edges and details of processes, files and sockets.
use mathlib.Core.Option
use Prim.Native.Nat.{min}
use esgraph.Prelude.{
  ℕ, ◌+◌, ◌-◌, ◌*◌, ◌/◌, ◌%◌, ◌^◌, Bool, true, ◌&&◌, Option, none, some, List, [], ◌∷◌, ◌++◌,
  concat, map, ltb, ◌==◌, if◌then◌else◌, is_empty,
}
use esgraph.Prelude.Int.{ℤ, pos, i64_max}
use esgraph.Prelude.Text.{Text, text}
use esgraph.Core.Model.{ProcessNode, FileNode, EventDetails, default_details}
use esgraph.Esf.Endpoint.{
  OsStr, AuditToken, File, Process, RenameDestination, Duration, Message, EsEventType,
}

-- `i64::try_from(secs).unwrap_or(0).saturating_mul(10^9).saturating_add(nanos)`
unfoldable pub duration_ns : Duration → ℤ
duration_ns d =
    let secs : ℕ = if ltb d.secs (2 ^ 63) then d.secs else 0 in
    pos (min (min (secs * 1_000_000_000) i64_max + d.subsec_nanos) i64_max)

unfoldable pub msg_time_ns : Message → ℤ
unfolding duration_ns
msg_time_ns msg = elim msg.since_epoch [ some d ↦ duration_ns d | none ↦ pos 0 ]

unfoldable pub audit_token_hex : Process → Text
audit_token_hex p = p.audit_token.lower_hex

unfoldable pub hex_digit : ℕ → ℕ
hex_digit d = if ltb d 10 then b'0' + d else b'a' + (d - 10)

-- `format!("{b:02x}")` for a byte
unfoldable pub hex_byte : ℕ → Text
unfolding hex_digit
hex_byte b = hex_digit (b / 16) ∷ hex_digit (b % 16) ∷ []

unfoldable pub all_zero : List ℕ → Bool
all_zero [] = true
all_zero (b ∷ bs) = b == 0 && all_zero bs

unfoldable pub cdhash_hex : Process → Option Text
unfolding hex_byte all_zero
cdhash_hex p = if all_zero p.cdhash then none else some (concat (map hex_byte p.cdhash))

-- The methods of `EventDetailsExt`.
unfoldable pub with_exec : EventDetails → Text → List Text → EventDetails
with_exec d target_path args = record d { target_path = some target_path; exec_args = some args }

unfoldable pub with_exit : EventDetails → ℤ → EventDetails
with_exit d status = record d { exit_status = some status }

unfoldable pub merge_file : EventDetails → EventDetails → EventDetails
merge_file d f = record d {
  file_mode = f.file_mode;
  file_inode = f.file_inode;
  file_owner_uid = f.file_owner_uid;
  file_owner_gid = f.file_owner_gid;
  path_truncated = f.path_truncated;
}

-- What the standard library and `serde_json` compute for this module: `to_string_lossy`, and
-- `serde_json::to_string` on a list of texts, and the `Debug` form of an event type.
pub record OsText : Type 0 where
  pub to_string_lossy : OsStr → Text
  pub to_json : List Text → Option Text
  pub debug_type : EsEventType → Text

module _ (os : OsText) where
  open os use {to_string_lossy, to_json}

  unfoldable pub process_path : Process → Text
  process_path p = to_string_lossy p.executable.path

  unfoldable pub file_path : File → Text
  file_path f = to_string_lossy f.path

  unfoldable pub args_json : List Text → Text
  args_json args = elim (to_json args) [ some json ↦ json | none ↦ text "[]" ]

  unfoldable pub lossy_unless_empty : OsStr → Option Text
  lossy_unless_empty s = if is_empty s then none else some (to_string_lossy s)

  unfoldable pub process_node : Process → Option (List Text) → Option ℤ → ProcessNode
  unfolding process_path audit_token_hex cdhash_hex args_json lossy_unless_empty
  process_node p exec_args exit_status = record {
    identity = record { audit_token_hex = audit_token_hex p; pid = p.audit_token.pid };
    path = process_path p;
    signing_id = lossy_unless_empty p.signing_id;
    team_id = lossy_unless_empty p.team_id;
    cdhash = cdhash_hex p;
    ppid = some p.ppid;
    euid = some p.audit_token.euid;
    egid = some p.audit_token.egid;
    ruid = some p.audit_token.ruid;
    rgid = some p.audit_token.rgid;
    session_id = some p.session_id;
    is_platform_binary = some p.is_platform_binary;
    parent_audit_token_hex = Option.map (λ (t : AuditToken). t.lower_hex) p.parent_audit_token;
    args_json = Option.map args_json exec_args;
    exit_status = exit_status;
  }

  unfoldable pub file_from_esf : File → FileNode × EventDetails
  unfolding file_path
  file_from_esf f = (
    record {
      path = file_path f;
      inode = some f.st_ino;
      mode = some f.st_mode;
      owner_uid = some f.st_uid;
      owner_gid = some f.st_gid;
      path_truncated = f.path_truncated;
    },
    record default_details {
      file_mode = some f.st_mode;
      file_inode = some f.st_ino;
      file_owner_uid = some f.st_uid;
      file_owner_gid = some f.st_gid;
      path_truncated = some f.path_truncated;
    },
  )

  unfoldable pub instigator_details : Process → EventDetails
  unfolding process_path audit_token_hex
  instigator_details p = record default_details {
    instigator_pid = some p.audit_token.pid;
    instigator_euid = some p.audit_token.euid;
    instigator_egid = some p.audit_token.egid;
    instigator_path = some (process_path p);
    instigator_audit_token_hex = some (audit_token_hex p);
  }

  unfoldable pub join_dir_filename : File → OsStr → Text
  join_dir_filename dir name = to_string_lossy (dir.path ++ (b'/' ∷ name))

  unfoldable pub rename_dest_path : Option RenameDestination → Text
  unfolding file_path join_dir_filename
  rename_dest_path (some (RenameDestination.existing_file f)) = file_path f
  rename_dest_path (some (RenameDestination.new_path directory filename)) =
      join_dir_filename directory filename
  rename_dest_path (some RenameDestination.other) = []
  rename_dest_path none = []
