-- ===== src/Esf/Subscribe.antt =====
-- crates/esgraph-esf/src/subscribe.rs: the event types that are subscribed to, and back.
use esgraph.Prelude.{◌≡◌, refl, Option, none, some, List, map}
use esgraph.Prelude.Text.{Text, text}
use esgraph.Core.Events.{EsEventName, to_string}
use esgraph.Esf.Endpoint.{EsEventType}

-- The source wraps the type in `Ok` on every arm.
unfoldable pub es_event_name_to_type : EsEventName → EsEventType
es_event_name_to_type EsEventName.notify_exec = EsEventType.notify_exec
es_event_name_to_type EsEventName.notify_fork = EsEventType.notify_fork
es_event_name_to_type EsEventName.notify_exit = EsEventType.notify_exit
es_event_name_to_type EsEventName.notify_remote_thread_create =
    EsEventType.notify_remote_thread_create
es_event_name_to_type EsEventName.notify_get_task = EsEventType.notify_get_task
es_event_name_to_type EsEventName.auth_exec = EsEventType.auth_exec
es_event_name_to_type EsEventName.notify_create = EsEventType.notify_create
es_event_name_to_type EsEventName.notify_write = EsEventType.notify_write
es_event_name_to_type EsEventName.notify_unlink = EsEventType.notify_unlink
es_event_name_to_type EsEventName.notify_rename = EsEventType.notify_rename
es_event_name_to_type EsEventName.notify_open = EsEventType.notify_open
es_event_name_to_type EsEventName.notify_close = EsEventType.notify_close
es_event_name_to_type EsEventName.auth_open = EsEventType.auth_open
es_event_name_to_type EsEventName.notify_uipc_bind = EsEventType.notify_uipc_bind
es_event_name_to_type EsEventName.notify_uipc_connect = EsEventType.notify_uipc_connect

unfoldable pub event_names_to_es_types : List EsEventName → List EsEventType
unfolding es_event_name_to_type
event_names_to_es_types names = map es_event_name_to_type names

unfoldable pub es_type_to_event_name : EsEventType → Option Text
es_type_to_event_name EsEventType.notify_exec = some (text "notify_exec")
es_type_to_event_name EsEventType.notify_fork = some (text "notify_fork")
es_type_to_event_name EsEventType.notify_exit = some (text "notify_exit")
es_type_to_event_name EsEventType.notify_remote_thread_create =
    some (text "notify_remote_thread_create")
es_type_to_event_name EsEventType.notify_get_task = some (text "notify_get_task")
es_type_to_event_name EsEventType.auth_exec = some (text "auth_exec")
es_type_to_event_name EsEventType.notify_create = some (text "notify_create")
es_type_to_event_name EsEventType.notify_write = some (text "notify_write")
es_type_to_event_name EsEventType.notify_unlink = some (text "notify_unlink")
es_type_to_event_name EsEventType.notify_rename = some (text "notify_rename")
es_type_to_event_name EsEventType.notify_open = some (text "notify_open")
es_type_to_event_name EsEventType.notify_close = some (text "notify_close")
es_type_to_event_name EsEventType.auth_open = some (text "auth_open")
es_type_to_event_name EsEventType.notify_uipc_bind = some (text "notify_uipc_bind")
es_type_to_event_name EsEventType.notify_uipc_connect = some (text "notify_uipc_connect")
es_type_to_event_name (EsEventType.other code) = none

-- The type that is subscribed to for a name is reported under that name's text.
pub es_type_to_event_name-es_event_name_to_type :
    (name : EsEventName)
    → es_type_to_event_name (es_event_name_to_type name) ≡ some (to_string name)
unfolding es_type_to_event_name es_event_name_to_type to_string
es_type_to_event_name-es_event_name_to_type EsEventName.notify_exec = refl
es_type_to_event_name-es_event_name_to_type _ = refl
