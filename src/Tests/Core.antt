-- ===== src/Tests/Core.antt =====
-- Event names and the configuration at concrete inputs.
use esgraph.Prelude.{◌≡◌, refl, ◌↔◌, List, [], ◌∷◌, Outcome, ok, ◌>>=◌}
use esgraph.Prelude.Text.{Text, text, trim}
use esgraph.Core.Errors.{ConfigError}
use esgraph.Core.Events
use esgraph.Core.Events.{EsEventName, to_string, default_subscription_set, name_eq}
use esgraph.Core.Events.RoundTrip.{from_str_iff}
use esgraph.Core.Config.{
  Config, default_config, configured_names, contains, resolve_names, resolved_event_names, validate,
  from_str,
}
use esgraph.Core.Config.Dedup.{nub}
use esgraph.Core.Config.Resolve.{parse_all, resolved_event_names-nub}
use esgraph.Core.Config.Validate.{IsValid, validate_iff}

abbrev resolve : Config → Outcome (ConfigError (Unit {0}) (Unit {0})) (List EsEventName)
resolve c = resolved_event_names c

abbrev check : Config → Outcome (ConfigError (Unit {0}) (Unit {0})) (Unit {0})
check c = validate c

-- A configuration that names one event twice.
abbrev twice : Config
twice = record default_config {
  events = record {
    process = text "notify_exec" ∷ text "notify_fork" ∷ [];
    file = text "notify_exec" ∷ [];
    network = [];
  };
}

abbrev twice_names : List EsEventName
twice_names = EsEventName.notify_exec ∷ EsEventName.notify_fork ∷ []

default_is_resolved : resolve default_config ≡ ok default_subscription_set
unfolding default_config resolved_event_names resolve_names default_subscription_set Events.from_str
    contains name_eq
default_is_resolved = refl

twice_is_resolved : resolve twice ≡ ok twice_names
unfolding resolved_event_names resolve_names Events.from_str contains name_eq default_config
twice_is_resolved = refl

check_default : check default_config ≡ ok tt
unfolding validate default_config resolved_event_names resolve_names Events.from_str contains
    name_eq trim
check_default = refl

from_str_iff_example :
    (Events.from_str {IoError = Unit {0}} {TomlError = Unit {0}} (text "notify_exec")
      ≡ ok EsEventName.notify_exec)
    ↔ (text "notify_exec" ≡ to_string EsEventName.notify_exec)
from_str_iff_example = from_str_iff (text "notify_exec") EsEventName.notify_exec

resolved_event_names-nub_example :
    resolve twice ≡ (do names ← parse_all (configured_names twice); ok (nub names))
resolved_event_names-nub_example = resolved_event_names-nub twice

validate_iff_example : (check default_config ≡ ok tt) ↔ IsValid default_config
validate_iff_example = validate_iff default_config

abbrev read_default : Text → Outcome (Unit {0}) Config
read_default s = ok default_config

load_default : from_str {IoError = Unit {0}} read_default [] ≡ ok default_config
unfolding from_str validate default_config resolved_event_names resolve_names Events.from_str
    contains name_eq trim
load_default = refl
