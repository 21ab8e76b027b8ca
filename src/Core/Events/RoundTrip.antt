-- ===== src/Core/Events/RoundTrip.antt =====
-- The text of an event name and its parser are inverse to one another.
use esgraph.Prelude.{◌≡◌, refl, sym, ap, ◌∙◌, ◌↔◌, Outcome, ok, All, arith}
use esgraph.Prelude.Text.{Text, match_text-All}
use esgraph.Core.Errors.{ConfigError}
use esgraph.Core.Events.Names.{EsEventName, notify_exec, to_string, from_str, arms}

-- Each arm of `from_str` carries the text of its name.
arms_agree : All (λ (arm : Text × EsEventName). to_string arm.1 ≡ arm.0) arms
unfolding to_string arms
arms_agree = (
  refl,
  (
    refl,
    (
      refl,
      (
        refl,
        (refl, (refl, (refl, (refl, (refl, (refl, (refl, (refl, (refl, (refl, (refl, tt))))))))))),
      ),
    ),
  ),
)

module _ {IoError TomlError : Type 0} where
  -- A name that is printed is read back.
  pub from_str-to_string :
      (name : EsEventName)
      → from_str {IoError = IoError} {TomlError = TomlError} (to_string name) ≡ ok name
  unfolding from_str to_string
  from_str-to_string notify_exec = refl
  from_str-to_string _ = refl

  -- Only the text of a name is read as that name.
  pub to_string-from_str :
      (s : Text) {name : EsEventName}
      → from_str {IoError = IoError} {TomlError = TomlError} s ≡ ok name
      → to_string name ≡ s
  unfolding from_str
  to_string-from_str s {name} h =
      match_text-All (λ t n. to_string n ≡ t) s arms arms_agree (ground arith)

-- `from_str` accepts a text exactly when it is the text of the name that it returns.
pub from_str_iff :
    {IoError TomlError : Type 0} (s : Text) (name : EsEventName)
    → (from_str {IoError = IoError} {TomlError = TomlError} s ≡ ok name) ↔ (s ≡ to_string name)
from_str_iff {IoError} {TomlError} s name =
    ((λ h. sym (to_string-from_str s h)), (λ e. rw e (from_str-to_string name)))

-- Two names have the same text only if they are the same.
pub to_string-injective : (a b : EsEventName) → to_string a ≡ to_string b → a ≡ b
to_string-injective a b e =
    let read : ◌≡◌ {A = Outcome (ConfigError (Unit {0}) (Unit {0})) EsEventName} (ok a) (ok b) =
      sym (from_str-to_string a)
      ∙ ap (from_str {IoError = Unit {0}} {TomlError = Unit {0}}) e
      ∙ from_str-to_string b in
    cc
