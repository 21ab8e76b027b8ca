-- ===== src/Core/Events/Names.antt =====
-- `EsEventName` with its methods, `Display` and `FromStr`.
use esgraph.Prelude.{
  ◌≡◌, refl, ◌↔◌, Bool, true, false, none, some, List, [], ◌∷◌, ◌++◌, Outcome, ok, err,
}
use esgraph.Prelude.Text.{Text, text, join, match_text}
use esgraph.Core.Errors.{ConfigError, validation}

pub data EsEventName : Type 0 where
  notify_exec notify_fork notify_exit notify_remote_thread_create notify_get_task : EsEventName
  auth_exec : EsEventName
  notify_create notify_write notify_unlink notify_rename notify_open notify_close : EsEventName
  auth_open : EsEventName
  notify_uipc_bind notify_uipc_connect : EsEventName

unfoldable pub is_auth : EsEventName → Bool
is_auth auth_exec = true
is_auth auth_open = true
is_auth _ = false

unfoldable pub default_subscription_set : List EsEventName
default_subscription_set =
    notify_exec ∷ notify_fork ∷ notify_exit ∷ notify_create ∷ notify_write ∷ notify_unlink
    ∷ notify_rename ∷ notify_uipc_bind ∷ notify_uipc_connect ∷ []

unfoldable pub all_names : List Text
all_names =
    text "notify_exec"
    ∷ text "notify_fork"
    ∷ text "notify_exit"
    ∷ text "notify_remote_thread_create"
    ∷ text "notify_get_task"
    ∷ text "auth_exec"
    ∷ text "notify_create"
    ∷ text "notify_write"
    ∷ text "notify_unlink"
    ∷ text "notify_rename"
    ∷ text "notify_open"
    ∷ text "notify_close"
    ∷ text "auth_open"
    ∷ text "notify_uipc_bind"
    ∷ text "notify_uipc_connect"
    ∷ []

-- `Display::fmt`
unfoldable pub to_string : EsEventName → Text
to_string notify_exec = text "notify_exec"
to_string notify_fork = text "notify_fork"
to_string notify_exit = text "notify_exit"
to_string notify_remote_thread_create = text "notify_remote_thread_create"
to_string notify_get_task = text "notify_get_task"
to_string auth_exec = text "auth_exec"
to_string notify_create = text "notify_create"
to_string notify_write = text "notify_write"
to_string notify_unlink = text "notify_unlink"
to_string notify_rename = text "notify_rename"
to_string notify_open = text "notify_open"
to_string notify_close = text "notify_close"
to_string auth_open = text "auth_open"
to_string notify_uipc_bind = text "notify_uipc_bind"
to_string notify_uipc_connect = text "notify_uipc_connect"

-- The arms of the `match` in `from_str`.
unfoldable pub arms : List (Text × EsEventName)
arms =
    (text "notify_exec", notify_exec)
    ∷ (text "notify_fork", notify_fork)
    ∷ (text "notify_exit", notify_exit)
    ∷ (text "notify_remote_thread_create", notify_remote_thread_create)
    ∷ (text "notify_get_task", notify_get_task)
    ∷ (text "auth_exec", auth_exec)
    ∷ (text "notify_create", notify_create)
    ∷ (text "notify_write", notify_write)
    ∷ (text "notify_unlink", notify_unlink)
    ∷ (text "notify_rename", notify_rename)
    ∷ (text "notify_open", notify_open)
    ∷ (text "notify_close", notify_close)
    ∷ (text "auth_open", auth_open)
    ∷ (text "notify_uipc_bind", notify_uipc_bind)
    ∷ (text "notify_uipc_connect", notify_uipc_connect)
    ∷ []

module _ {IoError TomlError : Type 0} where
  -- `FromStr::from_str`
  unfoldable pub from_str : Text → Outcome (ConfigError IoError TomlError) EsEventName
  unfolding match_text all_names arms join
  from_str s = elim (match_text s arms) [
    | some name ↦ ok name
    | none ↦ err (
        validation (
          text "unknown ESF event name '"
          ++ (s ++ (text "'; valid names: " ++ join (text ", ") all_names))))
  ]

-- The derived `PartialEq`.
pub EsEventName-discrete : Discrete EsEventName
EsEventName-discrete = hlevel

unfoldable pub name_eq : EsEventName → EsEventName → Bool
unfolding EsEventName-discrete
name_eq a b = elim (EsEventName-discrete a b) [ yes _ ↦ true | no _ ↦ false ]

pub name_eq_iff : (a b : EsEventName) → (name_eq a b ≡ true) ↔ (a ≡ b)
unfolding name_eq
name_eq_iff a b =
    elim (EsEventName-discrete a b)
      as (λ d. ((elim d as (λ _. Bool) [ yes _ ↦ true | no _ ↦ false ]) ≡ true) ↔ (a ≡ b)) [
        | yes p ↦ ((λ _. p), (λ _. refl))
        | no q ↦ ((λ e. cc), (λ p. absurd (q p)))
      ]
