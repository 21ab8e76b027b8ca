-- ===== src/Tests/Collector.antt =====
-- The collector over a client that keeps a list of its calls and a file system of absolute paths.
use esgraph.Prelude.{
  Bool, false, ◌≡◌, refl, none, some, List, [], ◌∷◌, ◌++◌, ok, err, ◌==◌, if◌then◌else◌,
}
use esgraph.Prelude.Text.{Text, text, text_eq}
use esgraph.Core.Config.{Config, default_config}
use esgraph.Esf.Errors.{EsfError, client}
use esgraph.Esf.Collector.Mutes.{FileSystem, muted_paths}
use esgraph.Esf.Collector.Session.{
  ClientApi, Session, Collected, run_collector, event_types, set_up,
}
use esgraph.Esf.Collector.Subscribed.{run_collector_refused}

abbrev begins_at_root : Text → Bool
begins_at_root [] = false
begins_at_root (c ∷ s) = c == 47

abbrev pub disk : FileSystem Text
disk = record {
  path = λ p. p;
  is_empty = λ p. text_eq p [];
  is_absolute = begins_at_root;
  parent = λ p. if text_eq p (text "data/db") then some (text "data") else none;
  file_name = λ p. some (text "data");
  join = λ p q. p ++ (text "/" ++ q);
  exists = begins_at_root;
  canonicalize = λ p. if begins_at_root p then some p else none;
  current_dir = some (text "/home");
  to_str = λ p. some p;
}

-- A configuration whose store is in a directory.
abbrev pub collecting : List Text → Config
collecting paths = record default_config {
  mute = record { paths = paths };
  store = record default_config.store { path = text "data/db" };
}

-- A client that keeps what it mutes, and refuses one path.
abbrev pub api : ClientApi (List Text) Text Text
api = record {
  new_client = ok [];
  mute_path =
      λ p c. if text_eq p (text "/bad") then (err (text "refused"), c) else (ok tt, c ++ p ∷ []);
  subscribe = λ types c. (ok tt, c);
  new_error_text = λ e. e;
  error_text = λ e. e;
}

abbrev collect : List Text → List Bool → Collected (List Text)
collect paths polls =
    run_collector disk api (λ (e : Text). e) (λ (e : Text). e) none (collecting paths) polls

-- The session that a refused path leaves.
abbrev untouched : Session (List Text)
untouched = record { client = []; muted = []; subscribed = none }

abbrev refusal : EsfError
refusal = client (text "mute_path /bad: refused")

bad_path_fails : (collect (text "/bad" ∷ []) []).result ≡ some (err refusal)
unfolding run_collector event_types set_up default_config esgraph.Core.Events.from_str muted_paths
    text_eq
bad_path_fails = refl

bad_path_session : (collect (text "/bad" ∷ []) []).session ≡ some untouched
unfolding run_collector event_types set_up default_config esgraph.Core.Events.from_str muted_paths
    text_eq
bad_path_session = refl

run_collector_refused_example : untouched.subscribed ≡ none
run_collector_refused_example =
    run_collector_refused disk api (λ e. e) (λ e. e) none (collecting (text "/bad" ∷ [])) []
      {s = untouched} bad_path_fails bad_path_session
