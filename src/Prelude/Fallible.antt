-- ===== src/Prelude/Fallible.antt =====
-- What a call of fallible Rust code comes to: a value, an error that `?` hands on, or a panic.
use mathlib.Core.Path.{◌≡◌, refl}
use mathlib.Core.Logic.{◌⊎◌, inl, inr}

pub data Outcome {ℓ κ} (E : Type ℓ) (A : Type κ) : Type (ℓ ⊔ κ) where
  ok : A → Outcome E A
  err : E → Outcome E A
  panic : Outcome E A

module _ {ℓ κ μ} {E : Type ℓ} {A : Type κ} {B : Type μ} where
  infixl 5 ◌>>=◌
  abbrev pub ◌>>=◌ : Outcome E A → (A → Outcome E B) → Outcome E B
  ok a >>= f = f a
  err e >>= f = err e
  panic >>= f = panic

  -- Inversion of a block that succeeds.
  pub bind-eq-ok :
      (m : Outcome E A) (f : A → Outcome E B) {b : B}
      → (m >>= f) ≡ ok b
      → (a : A) × (m ≡ ok a) × (f a ≡ ok b)
  bind-eq-ok (ok a) f h = (a, refl, h)
  bind-eq-ok (err e) f h = cc
  bind-eq-ok panic f h = cc

pub ok-injective {ℓ κ} :
    {E : Type ℓ} {A : Type κ} {a b : A} → ◌≡◌ {A = Outcome E A} (ok a) (ok b) → a ≡ b
ok-injective h = cc

-- The three ends of a call, each with its equation.
pub Outcome-cases {ℓ κ} :
    {E : Type ℓ} {A : Type κ} (m : Outcome E A)
    → ((a : A) × (m ≡ ok a)) ⊎ (((e : E) × (m ≡ err e)) ⊎ (m ≡ panic))
Outcome-cases (ok a) = inl (a, refl)
Outcome-cases (err e) = inr (inl (e, refl))
Outcome-cases panic = inr (inr refl)

-- `r.map_err(f)`
abbrev pub map_err : {E F A : Type 0} → (E → F) → Outcome E A → Outcome F A
map_err f (ok a) = ok a
map_err f (err e) = err (f e)
map_err f panic = panic

pub map_err-eq-ok :
    {E F A : Type 0} (f : E → F) (m : Outcome E A) {a : A} → map_err f m ≡ ok a → m ≡ ok a
map_err-eq-ok f (ok b) h = cc
map_err-eq-ok f (err e) h = cc
map_err-eq-ok f panic h = cc
