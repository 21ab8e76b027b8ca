-- ===== src/Core/Config/Validate.antt =====
-- What `validate` and the loaders accept.
use esgraph.Prelude.{
  ◌≡◌, ◌≢◌, refl, sym, ◌↔◌, List, [], ◌∷◌, ◌++◌, All, Outcome, ok, bind-eq-ok, if◌then◌else◌, arith,
}
use esgraph.Prelude.Text.{Text, trim}
use esgraph.Core.Events
use esgraph.Core.Events.{EsEventName, to_string}
use esgraph.Core.Events.RoundTrip.{from_str-to_string, to_string-from_str}
use esgraph.Core.Config.Defs.{Config, configured_names, contains, resolve_names, validate, from_str}

-- The text names an event.
abbrev pub IsEventName : Text → Type 0
IsEventName raw = (name : EsEventName) × (raw ≡ to_string name)

-- A configuration that the daemon can run on.
pub record IsValid (c : Config) : Type 0 where
  pub batches : c.store.batch_size ≢ 0
  pub has_path : trim c.store.path ≢ []
  pub names : All IsEventName (configured_names c)

module _ {IoError TomlError : Type 0} where
  resolve_names-All :
      (out : List EsEventName) (raws : List Text) {names : List EsEventName}
      → resolve_names {IoError = IoError} {TomlError = TomlError} out raws ≡ ok names
      → All IsEventName raws
  unfolding resolve_names
  resolve_names-All out [] h = tt
  resolve_names-All out (raw ∷ rest) h =
      let (name, read, later) = bind-eq-ok (Events.from_str raw) _ h in
      (
        (name, sym (to_string-from_str raw read)),
        resolve_names-All (if contains out name then out else out ++ name ∷ []) rest later,
      )

  All-resolve_names :
      (out : List EsEventName) (raws : List Text)
      → All IsEventName raws
      → (names : List EsEventName) × (resolve_names {IoError = IoError} {TomlError = TomlError} out
            raws
          ≡ ok names)
  unfolding resolve_names
  All-resolve_names out [] h = (out, refl)
  All-resolve_names out (raw ∷ rest) ((name, is), h) =
      let (names, e) =
        All-resolve_names (if contains out name then out else out ++ name ∷ []) rest h in
      (names, rw (is, from_str-to_string name) e)

  validate-resolved :
      (c : Config)
      → validate {IoError = IoError} {TomlError = TomlError} c ≡ ok tt
      → (names : List EsEventName) × (resolve_names {IoError = IoError} {TomlError = TomlError} []
            (configured_names c)
          ≡ ok names)
  unfolding validate
  validate-resolved c h = ground arith

  -- `validate` accepts a configuration exactly when its batch size is not zero, its store path is
  -- not blank, and every configured text names an event.
  pub validate_iff :
      (c : Config) → (validate {IoError = IoError} {TomlError = TomlError} c ≡ ok tt) ↔ IsValid c
  unfolding validate
  validate_iff c = (
    (λ h. record {
      batches = ground arith;
      has_path = ground arith;
      names = let (names, e) = validate-resolved c h in resolve_names-All [] (configured_names c) e;
    }),
    (λ v. let (names, e) = All-resolve_names [] (configured_names c) v.names in ground (arith, e)),
  )

  -- A configuration that `from_str` returns is valid, and is the one that the deserialiser read.
  pub from_str-IsValid :
      (toml : Text → Outcome TomlError Config) (s : Text) {c : Config}
      → from_str {IoError = IoError} toml s ≡ ok c
      → (toml s ≡ ok c) × IsValid c
  unfolding from_str
  from_str-IsValid toml s {c} h =
      let accepted : validate {IoError = IoError} {TomlError = TomlError} c ≡ ok tt =
        ground arith in
      (ground arith, (validate_iff c).0 accepted)
