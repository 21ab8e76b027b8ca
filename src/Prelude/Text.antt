-- ===== src/Prelude/Text.antt =====
-- Text as its code points: Rust's `String` and `&str`, with the operations of the standard
-- library that the program calls on them.
use Prim.Native.Char.{code}
use Prim.Native.String.{String}
use Prim.Native.Nat.{ℕ}
use mathlib.Core.Path.{◌≡◌, refl, subst}
use mathlib.Core.Logic.{◌↔◌, inl, inr}
use mathlib.Core.Bool.{Bool, true, false, ◌&&◌, ◌||◌}
use mathlib.Core.Option.{Option, none, some}
use mathlib.Core.List.{List, [], ◌∷◌, ◌++◌, reverse}
use native.Mathlib.Omega.{arith}
use esgraph.Prelude.Tests.{leb, ◌==◌, Bool-cases, if◌then◌else◌}
use esgraph.Prelude.Lists.{All}

abbrev pub Text : Type 0
Text = List ℕ

-- The code points of a literal.
abbrev pub text : String → Text
text String.[] = []
text (String.◌∷◌ c s) = code c ∷ text s

-- `a == b`
unfoldable pub text_eq : Text → Text → Bool
text_eq [] [] = true
text_eq (x ∷ xs) (y ∷ ys) = x == y && text_eq xs ys
text_eq _ _ = false

pub text_eq_iff : (a b : Text) → (text_eq a b ≡ true) ↔ (a ≡ b)
unfolding text_eq
text_eq_iff (x ∷ a) (y ∷ b) = ground (arith, text_eq_iff a b)
text_eq_iff _ _ = ground arith

pub text_eq_refl : (a : Text) → text_eq a a ≡ true
text_eq_refl a = (text_eq_iff a a).1 refl

-- The second text begins with the first.
unfoldable pub starts_with : Text → Text → Bool
starts_with [] t = true
starts_with (c ∷ s) [] = false
starts_with (c ∷ s) (d ∷ t) = c == d && starts_with s t

-- `s.strip_prefix(prefix)`
unfoldable pub behind : Text → Text → Option Text
behind [] s = some s
behind (c ∷ cs) [] = none
behind (c ∷ cs) (d ∷ ds) = if c == d then behind cs ds else none

-- `s.contains(pattern)`
unfoldable pub contains_text : Text → Text → Bool
unfolding starts_with
contains_text pattern [] = starts_with pattern []
contains_text pattern (c ∷ s) = starts_with pattern (c ∷ s) || contains_text pattern s

-- `s.replace(c, t)` for a character `c`.
unfoldable pub replace : ℕ → Text → Text → Text
replace c t [] = []
replace c t (x ∷ xs) = (if x == c then t else x ∷ []) ++ replace c t xs

-- `parts.join(sep)`
unfoldable pub join : Text → List Text → Text
join sep [] = []
join sep (t ∷ []) = t
join sep (t ∷ u ∷ ts) = t ++ (sep ++ join sep (u ∷ ts))

-- `char::is_whitespace`: the code points with the property White_Space.
unfoldable pub is_whitespace : ℕ → Bool
is_whitespace c =
    (leb 9 c && leb c 13)
    || (c == 32
        || (c == 0x85
            || (c == 0xa0
                || (c == 0x1680
                    || ((leb 0x2000 c && leb c 0x200a)
                        || (c == 0x2028
                            || (c == 0x2029 || (c == 0x202f || (c == 0x205f || c == 0x3000)))))))))

unfoldable pub trim_start : Text → Text
unfolding is_whitespace
trim_start [] = []
trim_start (c ∷ s) = if is_whitespace c then trim_start s else c ∷ s

-- `s.trim()`
unfoldable pub trim : Text → Text
unfolding trim_start
trim s = reverse (trim_start (reverse (trim_start s)))

-- A `match` of a text on literals: the value of the first arm that fits.
module _ {ℓ} {A : Type ℓ} where
  unfoldable pub match_text : Text → List (Text × A) → Option A
  unfolding text_eq
  match_text s [] = none
  match_text s ((t, a) ∷ arms) = if text_eq s t then some a else match_text s arms

  -- What holds of every arm holds of the value that is found, at the text itself.
  pub match_text-All :
      (P : Text → A → Type 0) (s : Text) {a : A} (arms : List (Text × A))
      → All (λ (arm : Text × A). P arm.0 arm.1) arms
      → match_text s arms ≡ some a
      → P s a
  unfolding match_text
  match_text-All P s [] h e = cc
  match_text-All P s {a} ((t, x) ∷ arms) h e = elim (Bool-cases (text_eq s t)) [
    | inl same ↦
        let found : some x ≡ some a = rw (same, match_text) at e in
        let head : P s x = rw ((text_eq_iff s t).0 same) h.0 in subst (P s) (cc) head
    | inr differs ↦ match_text-All P s arms h.1 (rw (differs, match_text) at e)
  ]
