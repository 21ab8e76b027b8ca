-- ===== src/Prelude/Number.antt =====
-- `str::parse` at `u64`, and that it reads back what `Display` prints.
use esgraph.Prelude.Tests.{leb, ltb, ◌==◌, if◌then◌else◌, Bool-cases}
use Prim.Native.Nat.{ℕ, zero, suc, ◌+◌, ◌-◌, ◌*◌, ◌/◌, ◌%◌, ◌^◌, ◌≤◌, ◌<◌}
use mathlib.Core.Path.{◌≡◌, refl, sym, ap, ◌∙◌}
use mathlib.Core.Logic.{inl, inr}
use mathlib.Core.Bool.{◌&&◌}
use mathlib.Core.Option.{Option, none, some}
use mathlib.Core.List.{[], ◌∷◌, ◌++◌, append_assoc, append-nil}
use native.Mathlib.Omega.{arith}
use esgraph.Prelude.Lists.{All, All-append}
use esgraph.Prelude.Text.{Text}
use esgraph.Prelude.Int.{show_digits, show_nat}

-- The digits of a `u64` behind the first, or `none` at a byte that is no digit or on overflow.
unfoldable pub parse_digits : ℕ → Text → Option ℕ
parse_digits n [] = some n
parse_digits n (c ∷ cs) =
    let m = n * 10 + (c - b'0') in
    let rest = parse_digits m cs in
    if leb b'0' c && (leb c b'9' && ltb m (2 ^ 64)) then rest else none

-- `s.parse::<u64>()`: digits, with a plus sign before them at most.
unfoldable pub parse_u64 : Text → Option ℕ
unfolding parse_digits
parse_u64 [] = none
parse_u64 (c ∷ []) = if c == b'+' then none else parse_digits 0 (c ∷ [])
parse_u64 (c ∷ d ∷ cs) = parse_digits 0 (if c == b'+' then d ∷ cs else c ∷ d ∷ cs)

-- The text begins with a character from the digit zero on.
abbrev pub StartsDigit : Text → Type 0
StartsDigit [] = ⊥
StartsDigit (c ∷ cs) = b'0' ≤ c

pub StartsDigit-append : (s t : Text) → StartsDigit s → StartsDigit (s ++ t)
StartsDigit-append [] t h = elim h [ ]
StartsDigit-append (c ∷ s) t h = h

show_digits-StartsDigit : (f n : ℕ) → StartsDigit (show_digits f n)
unfolding show_digits
show_digits-StartsDigit zero n = omega arith
show_digits-StartsDigit (suc f) n = elim (Bool-cases (ltb n 10)) [
  | inl small ↦ rw (small, show_digits) (omega arith)
  | inr large ↦
      rw (large, show_digits)
        (StartsDigit-append (show_digits f (n / 10)) _ (show_digits-StartsDigit f (n / 10)))
]

abbrev pub IsDigit : ℕ → Type 0
IsDigit c = (b'0' ≤ c) × (c ≤ b'9')

show_digits-IsDigit : (f n : ℕ) → All IsDigit (show_digits f n)
unfolding show_digits
show_digits-IsDigit zero n = omega arith
show_digits-IsDigit (suc f) n = elim (Bool-cases (ltb n 10)) [
  | inl small ↦ rw (small, show_digits) (ground arith)
  | inr large ↦
      rw (large, show_digits)
        (All-append IsDigit (show_digits f (n / 10)) _ (show_digits-IsDigit f (n / 10))
          (omega arith))
]

pub show_nat-IsDigit : (n : ℕ) → All IsDigit (show_nat n)
unfolding show_nat
show_nat-IsDigit n = show_digits-IsDigit n n

pub show_nat-StartsDigit : (n : ℕ) → StartsDigit (show_nat n)
unfolding show_nat
show_nat-StartsDigit n = show_digits-StartsDigit n n

-- A digit that is read behind a number continues it.
parse_digits-cons :
    (n d m : ℕ) (rest : Text)
    → d < 10
    → m ≡ n * 10 + d
    → m < 2 ^ 64
    → parse_digits n ((b'0' + d) ∷ rest) ≡ parse_digits m rest
unfolding parse_digits
parse_digits-cons n d m rest small is fits = ground arith

parse_digits-show_digits :
    (f n : ℕ) (rest : Text)
    → n ≤ f
    → n < 2 ^ 64
    → parse_digits 0 (show_digits f n ++ rest) ≡ parse_digits n rest
unfolding show_digits
parse_digits-show_digits zero n rest h fits =
    parse_digits-cons 0 (n % 10) n rest (omega arith) (omega arith) fits
parse_digits-show_digits (suc f) n rest h fits = elim (Bool-cases (ltb n 10)) [
  | inl small ↦
      rw (small, show_digits) (parse_digits-cons 0 n n rest (ground arith) (omega arith) fits)
  | inr large ↦
      let ih =
        parse_digits-show_digits f (n / 10) ((b'0' + n % 10) ∷ rest) (ground arith) (omega arith) in
      rw (large, show_digits)
        (rw append_assoc
          (ih ∙ parse_digits-cons (n / 10) (n % 10) n rest (omega arith) (omega arith) fits))
]

parse_u64-digits : (s : Text) → StartsDigit s → parse_u64 s ≡ parse_digits 0 s
unfolding parse_u64
parse_u64-digits [] h = elim h [ ]
parse_u64-digits (c ∷ []) h = ground arith
parse_u64-digits (c ∷ d ∷ cs) h = ground arith

parse_digits-nil : (n : ℕ) → parse_digits n [] ≡ some n
unfolding parse_digits
parse_digits-nil n = refl

-- Every `u64` is read back from its decimal form.
pub parse_u64-show_nat : (n : ℕ) → n < 2 ^ 64 → parse_u64 (show_nat n) ≡ some n
unfolding show_nat
parse_u64-show_nat n fits =
    parse_u64-digits (show_digits n n) (show_digits-StartsDigit n n)
    ∙ ap (parse_digits 0) (sym (append-nil (show_digits n n)))
    ∙ parse_digits-show_digits n n [] (omega arith) fits
    ∙ parse_digits-nil n
