-- ===== src/Esf/Endpoint.antt =====
-- What the program reads of a message through the accessors of the `endpoint_sec` crate. The crate
-- is not modelled: a record here holds the answers of the accessors, which may be any, and no
-- relation between them is assumed. Paths and names are bytes of an `OsStr`.
use esgraph.Prelude.{ℕ, Bool, Option, List}
use esgraph.Prelude.Int.{ℤ}
use esgraph.Prelude.Text.{Text}

-- An `OsStr`, as bytes.
abbrev pub OsStr : Type 0
OsStr = List ℕ

-- `lower_hex` is what `format!("{:x}", token)` gives.
pub record AuditToken : Type 0 where
  pub lower_hex : Text
  pub pid : ℤ
  pub euid : ℕ
  pub egid : ℕ
  pub ruid : ℕ
  pub rgid : ℕ

-- `st_…` are the fields of `stat()`.
pub record File : Type 0 where
  pub path : OsStr
  pub path_truncated : Bool
  pub st_ino : ℕ
  pub st_mode : ℕ
  pub st_uid : ℕ
  pub st_gid : ℕ

pub record Process : Type 0 where
  pub audit_token : AuditToken
  pub ppid : ℤ
  pub session_id : ℤ
  pub is_platform_binary : Bool
  pub signing_id : OsStr
  pub team_id : OsStr
  pub cdhash : List ℕ
  pub executable : File
  pub parent_audit_token : Option AuditToken

-- The destinations of `notify_create` and `notify_rename`; the source also allows for further ones.
pub data CreateDestination : Type 0 where
  existing_file : File → CreateDestination
  new_path : File → OsStr → ℕ → CreateDestination
  other : CreateDestination

pub data RenameDestination : Type 0 where
  existing_file : File → RenameDestination
  new_path : File → OsStr → RenameDestination
  other : RenameDestination

-- The events that the source names, with what their accessors give, and all others.
pub data Event : Type 0 where
  notify_exec : Process → List OsStr → Event
  notify_fork : Process → Event
  notify_exit : ℤ → Event
  notify_remote_thread_create : Process → Event
  notify_get_task : Process → Event
  notify_create : Option CreateDestination → Event
  notify_write : File → Event
  notify_unlink : File → Event
  notify_rename : File → Option RenameDestination → Event
  notify_open : File → Event
  notify_close : File → Event
  notify_uipc_bind : File → OsStr → ℕ → Event
  notify_uipc_connect : File → Event
  unmodelled : Event

-- The constants of `es_event_type_t` that the source names, and all others by their number.
pub data EsEventType : Type 0 where
  notify_exec notify_fork notify_exit notify_remote_thread_create notify_get_task : EsEventType
  auth_exec : EsEventType
  notify_create notify_write notify_unlink notify_rename notify_open notify_close : EsEventType
  auth_open : EsEventType
  notify_uipc_bind notify_uipc_connect : EsEventType
  other : ℕ → EsEventType

-- A `Duration`.
pub record Duration : Type 0 where
  pub secs : ℕ
  pub subsec_nanos : ℕ

-- `since_epoch` is `time().duration_since(UNIX_EPOCH)`, `none` for a time before it. `event` is
-- `none` where the crate does not support the version of the message. `needs_answer` says that
-- `action()` is an `Action::Auth`.
pub record Message : Type 0 where
  pub event : Option Event
  pub event_type : EsEventType
  pub since_epoch : Option Duration
  pub process : Process
  pub needs_answer : Bool
