-- ===== src/Esf/Errors.antt =====
-- crates/esgraph-esf/src/error.rs: `EsfError`.
use esgraph.Prelude.Text.{Text}

pub data EsfError : Type 0 where
  unsupported_platform : EsfError
  client : Text → EsfError
  normalise : Text → EsfError
  subscription : Text → EsfError
