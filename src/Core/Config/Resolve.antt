-- ===== src/Core/Config/Resolve.antt =====
-- What `resolved_event_names` computes: the first occurrences of the configured names, in order.
use esgraph.Prelude.{
  Bool, false, ◌||◌, ◌≡◌, refl, sym, ap, subst, fun_ext, ◌∙◌, inl, inr, List, [], ◌∷◌, ◌++◌,
  Outcome, ok, err, panic, ◌>>=◌, bind-eq-ok, if◌then◌else◌, Bool-cases, append_assoc, append-nil,
  arith,
}
use esgraph.Prelude.Text.{Text, text_eq, text_eq_iff}
use esgraph.Core.Errors.{ConfigError}
use esgraph.Core.Events
use esgraph.Core.Events.{EsEventName, to_string, name_eq, name_eq_iff}
use esgraph.Core.Events.RoundTrip.{to_string-from_str, to_string-injective}
use esgraph.Core.Config.Defs.{
  Config, configured_names, contains, resolve_names, resolved_event_names,
}
use esgraph.Core.Config.Dedup.{fresh, nub, fresh-nil, fresh-fresh, fresh_contained, contains-append}

-- The text stands in the list.
unfoldable pub mentions : List Text → Text → Bool
mentions [] s = false
mentions (t ∷ ts) s = text_eq t s || mentions ts s

-- No name stands twice in the list.
abbrev pub Distinct : List EsEventName → Type 0
Distinct [] = Unit
Distinct (x ∷ xs) = (contains xs x ≡ false) × Distinct xs

Distinct-concat :
    (xs : List EsEventName) (n : EsEventName)
    → Distinct xs
    → contains xs n ≡ false
    → Distinct (xs ++ n ∷ [])
unfolding contains
Distinct-concat [] n d h = (refl, tt)
Distinct-concat (x ∷ xs) n d h = (
  ground (arith, contains-append xs (n ∷ []) x, name_eq_iff x n, name_eq_iff n x),
  Distinct-concat xs n d.1 (ground arith),
)

module _ {IoError TomlError : Type 0} where
  -- All the texts read as names, up to the first that is not one.
  unfoldable pub parse_all : List Text → Outcome (ConfigError IoError TomlError) (List EsEventName)
  parse_all [] = ok []
  parse_all (raw ∷ rest) = do name ← Events.from_str raw; names ← parse_all rest; ok (name ∷ names)

  abbrev appended :
      List EsEventName
      → Outcome (ConfigError IoError TomlError) (List EsEventName)
      → Outcome (ConfigError IoError TomlError) (List EsEventName)
  appended out names = names >>= λ ns. ok (out ++ fresh out (nub ns))

  -- One name in front of those that are left is appended if the loop has not met it.
  appended-cons :
      (out : List EsEventName) (name : EsEventName)
      (rest : Outcome (ConfigError IoError TomlError) (List EsEventName))
      → appended (if contains out name then out else out ++ name ∷ []) rest
        ≡ appended out (rest >>= λ ns. ok (name ∷ ns))
  unfolding fresh nub
  appended-cons out name (ok ns) = elim (Bool-cases (contains out name)) [
    | inl old ↦ rw old (
        ap (λ l. ok (out ++ l))
          (sym (fresh_contained out name (nub ns) old)
            ∙ sym (fresh-fresh out (name ∷ []) (nub ns))))
    | inr new ↦ rw new (
        ap ok (
          append_assoc out (name ∷ []) _
          ∙ ap (λ l. out ++ name ∷ l) (sym (fresh-fresh out (name ∷ []) (nub ns)))))
  ]
  appended-cons out name (err e) = refl
  appended-cons out name panic = refl

  resolve_names-cons :
      (out : List EsEventName) (rest : List Text)
      → ((o : List EsEventName) → resolve_names o rest ≡ appended o (parse_all rest))
      → (m : Outcome (ConfigError IoError TomlError) EsEventName)
      → (m >>= λ name. resolve_names (if contains out name then out else out ++ name ∷ []) rest)
        ≡ appended out (m >>= λ name. parse_all rest >>= λ names. ok (name ∷ names))
  resolve_names-cons out rest ih (ok name) = ih _ ∙ appended-cons out name (parse_all rest)
  resolve_names-cons out rest ih (err e) = refl
  resolve_names-cons out rest ih panic = refl

  resolve_names-eq :
      (out : List EsEventName) (raws : List Text)
      → resolve_names out raws ≡ appended out (parse_all raws)
  unfolding resolve_names parse_all
  resolve_names-eq out [] = unfold fresh nub in ap ok (sym (append-nil out))
  resolve_names-eq out (raw ∷ rest) =
      resolve_names-cons out rest (λ o. resolve_names-eq o rest) (Events.from_str raw)

  -- `resolved_event_names` returns the first occurrences of the configured names in their order,
  -- and the error of the first text that is no name where there is one.
  pub resolved_event_names-nub :
      (c : Config)
      → resolved_event_names {IoError = IoError} {TomlError = TomlError} c
        ≡ (do names ← parse_all (configured_names c); ok (nub names))
  unfolding resolved_event_names
  resolved_event_names-nub c =
      resolve_names-eq [] (configured_names c)
      ∙ ap (λ f. parse_all (configured_names c) >>= f) (fun_ext λ ns. ap ok (fresh-nil (nub ns)))

  resolve_names-mentions :
      (out : List EsEventName) (raws : List Text) {names : List EsEventName} (n : EsEventName)
      → resolve_names {IoError = IoError} {TomlError = TomlError} out raws ≡ ok names
      → contains names n ≡ (contains out n || mentions raws (to_string n))
  unfolding resolve_names mentions contains
  resolve_names-mentions out [] n h = ground arith
  resolve_names-mentions out (raw ∷ rest) {names} n h =
      let (name, read, later) = bind-eq-ok (Events.from_str raw) _ h in
      let printed : to_string name ≡ raw = to_string-from_str raw read in
      let ih =
        resolve_names-mentions (if contains out name then out else out ++ name ∷ []) rest n later in
      ground (
        arith,
        contains-append out (name ∷ []) n,
        name_eq_iff name n,
        text_eq_iff raw (to_string n),
        to_string-injective name n,
      )

  -- A name is subscribed to exactly when its text stands in the configuration.
  pub resolved_event_names-mentions :
      (c : Config) {names : List EsEventName} (n : EsEventName)
      → resolved_event_names {IoError = IoError} {TomlError = TomlError} c ≡ ok names
      → contains names n ≡ mentions (configured_names c) (to_string n)
  unfolding resolved_event_names contains
  resolved_event_names-mentions c n h = resolve_names-mentions [] (configured_names c) n h

  resolve_names-Distinct :
      (out : List EsEventName) (raws : List Text) {names : List EsEventName}
      → Distinct out
      → resolve_names {IoError = IoError} {TomlError = TomlError} out raws ≡ ok names
      → Distinct names
  unfolding resolve_names
  resolve_names-Distinct out [] d h = subst Distinct (cc) d
  resolve_names-Distinct out (raw ∷ rest) d h =
      let (name, read, later) = bind-eq-ok (Events.from_str raw) _ h in
      let kept : Distinct (if contains out name then out else out ++ name ∷ []) =
        elim (Bool-cases (contains out name)) [
          | inl old ↦ rw old d
          | inr new ↦ rw new (Distinct-concat out name d new)
        ] in
      resolve_names-Distinct (if contains out name then out else out ++ name ∷ []) rest kept later

  -- No event is subscribed to twice.
  pub resolved_event_names-Distinct :
      (c : Config) {names : List EsEventName}
      → resolved_event_names {IoError = IoError} {TomlError = TomlError} c ≡ ok names
      → Distinct names
  unfolding resolved_event_names
  resolved_event_names-Distinct c h = resolve_names-Distinct [] (configured_names c) tt h
