-- ===== src/Prelude/Int.antt =====
-- Signed integers over the native numbers, the conversions between machine widths that the
-- program makes, and the decimal form that `Display` gives.
use Prim.Native.Nat.{ℕ, zero, suc, ◌+◌, ◌-◌, ◌/◌, ◌%◌, ◌^◌}
use mathlib.Core.Bool.{true, false}
use mathlib.Core.List.{List, [], ◌∷◌, ◌++◌}
use esgraph.Prelude.Tests.{ltb, if◌then◌else◌}

-- `negsuc n` is -(n + 1).
pub data ℤ : Type 0 where
  pos : ℕ → ℤ
  negsuc : ℕ → ℤ

abbrev pub i64_max : ℕ
i64_max = 2 ^ 63 - 1

-- `i64::try_from(v).unwrap_or(i64::MAX)` for a `u64`.
unfoldable pub i64_saturated : ℕ → ℤ
i64_saturated v = if ltb v (2 ^ 63) then pos v else pos i64_max

-- `v as i64` for a `u64`: the bit pattern read as two's complement.
unfoldable pub i64_wrapped : ℕ → ℤ
i64_wrapped v = if ltb v (2 ^ 63) then pos v else negsuc (2 ^ 64 - 1 - v)

-- The digits of a number, the first argument being a bound on the rounds left. A round divides
-- by ten, so the number itself is enough.
unfoldable pub show_digits : ℕ → ℕ → List ℕ
show_digits zero n = (b'0' + n % 10) ∷ []
show_digits (suc f) n = elim (ltb n 10) [
  | true ↦ (b'0' + n) ∷ []
  | false ↦ show_digits f (n / 10) ++ (b'0' + n % 10) ∷ []
]

-- `v.to_string()`
unfoldable pub show_nat : ℕ → List ℕ
unfolding show_digits
show_nat n = show_digits n n

unfoldable pub show_int : ℤ → List ℕ
unfolding show_nat
show_int (pos n) = show_nat n
show_int (negsuc n) = b'-' ∷ show_nat (suc n)
