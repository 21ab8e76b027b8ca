-- ===== src/Prelude/Split.antt =====
-- `str::split` at a character, and that it undoes `join`; `trim` of a line.
use Prim.Native.Nat.{ℕ}
use mathlib.Core.Path.{◌≡◌, refl, ap, ◌∙◌}
use mathlib.Core.Logic.{◌≢◌}
use mathlib.Core.Bool.{false}
use mathlib.Core.List.{List, [], ◌∷◌, ◌++◌, reverse, reverse-append, reverse-cons, reverse-reverse}
use native.Mathlib.Omega.{arith}
use esgraph.Prelude.Tests.{◌==◌, if◌then◌else◌}
use esgraph.Prelude.Lists.{All, All-append}
use esgraph.Prelude.Text.{Text, join, is_whitespace, trim_start, trim}

-- A character in front of the first part.
abbrev put : ℕ → List Text → List Text
put c [] = (c ∷ []) ∷ []
put c (p ∷ ps) = (c ∷ p) ∷ ps

-- `s.split(sep)`
unfoldable pub split : ℕ → Text → List Text
split sep [] = [] ∷ []
split sep (c ∷ s) = let rest = split sep s in if c == sep then [] ∷ rest else put c rest

-- The character is not in the text.
abbrev pub Lacks : ℕ → Text → Type 0
Lacks sep = All (λ c. c ≢ sep)

module _ (sep : ℕ) where
  split_one : (p : Text) → Lacks sep p → split sep p ≡ p ∷ []
  unfolding split
  split_one [] h = refl
  split_one (c ∷ p) h = ground (arith, h.0, split_one p h.1)

  split_at_sep : (p s : Text) → Lacks sep p → split sep (p ++ sep ∷ s) ≡ p ∷ split sep s
  unfolding split
  split_at_sep [] s h = ground arith
  split_at_sep (c ∷ p) s h = ground (arith, h.0, split_at_sep p s h.1)

  -- Parts without the separator are found again in their join, if there is one.
  pub split-join :
      (p : Text) (ps : List Text)
      → All (Lacks sep) (p ∷ ps)
      → split sep (join (sep ∷ []) (p ∷ ps)) ≡ p ∷ ps
  unfolding join
  split-join p [] h = split_one p h.0
  split-join p (q ∷ ps) h =
      split_at_sep p (join (sep ∷ []) (q ∷ ps)) h.0 ∙ ap (◌∷◌ p) (split-join q ps h.1)

  pub All-join :
      (P : ℕ → Type 0) (ps : List Text) → P sep → All (All P) ps → All P (join (sep ∷ []) ps)
  unfolding join
  All-join P [] k h = tt
  All-join P (p ∷ []) k h = h.0
  All-join P (p ∷ q ∷ ps) k h = All-append P p _ h.0 (k, All-join P (q ∷ ps) k h.1)

All-reverse {ℓ κ} : {A : Type ℓ} (P : A → Type κ) (xs : List A) → All P xs → All P (reverse xs)
All-reverse P [] h = tt
All-reverse P (x ∷ xs) h =
    rw (reverse-cons x xs) (All-append P (reverse xs) (x ∷ []) (All-reverse P xs h.1) (h.0, tt))

-- No character of the text is white space.
abbrev pub HasNoSpace : Text → Type 0
HasNoSpace = All (λ c. is_whitespace c ≡ false)

trim_start_same : (s : Text) → HasNoSpace s → trim_start s ≡ s
unfolding trim_start
trim_start_same [] h = refl
trim_start_same (c ∷ s) h = rw h.0

trim_start-cons : (c : ℕ) (s : Text) → is_whitespace c ≡ false → trim_start (c ∷ s) ≡ c ∷ s
unfolding trim_start
trim_start-cons c s h = rw h

trim_start_feed : (s : Text) → trim_start (10 ∷ s) ≡ trim_start s
unfolding trim_start is_whitespace
trim_start_feed s = refl

trim_line-cons : (c : ℕ) (s : Text) → HasNoSpace (c ∷ s) → trim ((c ∷ s) ++ 10 ∷ []) ≡ c ∷ s
unfolding trim
trim_line-cons c s h =
    ap (λ t. reverse (trim_start (reverse t))) (trim_start-cons c (s ++ 10 ∷ []) h.0)
    ∙ ap (λ t. reverse (trim_start t)) (reverse-append (c ∷ s) (10 ∷ []))
    ∙ ap reverse (trim_start_feed (reverse (c ∷ s)))
    ∙ ap reverse
        (trim_start_same (reverse (c ∷ s)) (All-reverse (λ d. is_whitespace d ≡ false) (c ∷ s) h))
    ∙ reverse-reverse (c ∷ s)

-- The line feed behind a text without spaces is trimmed, and nothing else.
pub trim_line : (s : Text) → s ≢ [] → HasNoSpace s → trim (s ++ 10 ∷ []) ≡ s
trim_line [] ne h = absurd (ne refl)
trim_line (c ∷ s) ne h = trim_line-cons c s h
