-- ===== src/Store/Cypher/Script.antt =====
-- A script is cut into statements at the semicolons that stand outside its string literals. A text
-- that closes its literals and has no such semicolon stays whole.
use esgraph.Prelude.{
  ℕ, zero, suc, ◌+◌, ◌/◌, ◌%◌, ◌<◌, Bool, true, false, ◌≡◌, refl, sym, ap, ap₂, ◌∙◌, Option, none,
  some, List, [], ◌∷◌, ◌++◌, map, ◌==◌, ltb, if◌then◌else◌, Bool-cases, inl, inr, All, All-mono,
  append_assoc, append-nil, arith,
}
use esgraph.Prelude.Int.{ℤ, pos, negsuc, show_digits}
use esgraph.Prelude.Text.{Text, text, join}
use esgraph.Store.Cypher.{quote_mark, backslash, escape, cypher_str, cypher_i64, cypher_bool}
use esgraph.Store.Cypher.Literal.{escape_char, escape-cons, escape-nil}

-- Where a reader of Cypher text stands: outside literals, in one, or behind a backslash in one.
pub data Lex : Type 0 where
  plain quoted escaped : Lex

unfoldable pub lex_step : Lex → ℕ → Lex
lex_step plain c = if c == quote_mark then quoted else plain
lex_step quoted c = if c == backslash then escaped else if c == quote_mark then plain else quoted
lex_step escaped c = quoted

-- The statement ends here.
unfoldable pub is_end : Lex → ℕ → Bool
is_end plain c = c == b';'
is_end quoted c = false
is_end escaped c = false

-- Where the reader stands behind the text; `none` if a statement ends inside it.
unfoldable pub scan : Lex → Text → Option Lex
unfolding lex_step is_end
scan m [] = some m
scan m (c ∷ cs) = if is_end m c then none else scan (lex_step m c) cs

-- The text cut at the semicolons that end a statement.
unfoldable pub cut : Lex → Text → Text → List Text
unfolding lex_step is_end
cut m taken [] = taken ∷ []
cut m taken (c ∷ cs) =
    let next = cut plain [] cs in
    let further = cut (lex_step m c) (taken ++ c ∷ []) cs in
    if is_end m c then taken ∷ next else further

unfoldable pub drop_newline : Text → Text
drop_newline [] = []
drop_newline (c ∷ cs) = if c == b'\n' then cs else c ∷ cs

-- The statements of a script, without the newline that follows a semicolon.
unfoldable pub statements_of : Text → List Text
unfolding cut drop_newline
statements_of script = map drop_newline (cut plain [] script)

abbrev pub IsClosed : Text → Type 0
IsClosed t = scan plain t ≡ some plain

pub scan-append : (m : Lex) (a b : Text) {n : Lex} → scan m a ≡ some n → scan m (a ++ b) ≡ scan n b
unfolding scan
scan-append m [] b h = cc
scan-append m (c ∷ a) b {n} h = elim (Bool-cases (is_end m c)) [
  | inl ends ↦ absurd (ground arith)
  | inr goes ↦ rw goes (scan-append (lex_step m c) a b (rw goes at h))
]

pub IsClosed-append : (a b : Text) → IsClosed a → IsClosed b → IsClosed (a ++ b)
IsClosed-append a b h k = scan-append plain a b h ∙ k

scan-escape : (s : Text) → scan quoted (escape s) ≡ some quoted
unfolding scan escape_char
scan-escape [] = rw escape-nil
scan-escape (c ∷ s) = rw escape-cons (ground (arith, scan-escape s))

pub IsClosed-cypher_str : (s : Text) → IsClosed (cypher_str s)
unfolding cypher_str scan
IsClosed-cypher_str s = scan-append quoted (escape s) _ (scan-escape s)

IsClosed-digit : (n : ℕ) → n < 10 → IsClosed ((b'0' + n) ∷ [])
unfolding scan
IsClosed-digit n h = ground arith

IsClosed-show_digits : (f n : ℕ) → IsClosed (show_digits f n)
unfolding show_digits
IsClosed-show_digits zero n = IsClosed-digit (n % 10) (omega arith)
IsClosed-show_digits (suc f) n = elim (Bool-cases (ltb n 10)) [
  | inl small ↦ rw (small, show_digits) (IsClosed-digit n (ground arith))
  | inr large ↦
      rw (large, show_digits)
        (IsClosed-append _ _ (IsClosed-show_digits f (n / 10))
          (IsClosed-digit (n % 10) (omega arith)))
]

pub IsClosed-cypher_i64 : (v : ℤ) → IsClosed (cypher_i64 v)
unfolding cypher_i64
IsClosed-cypher_i64 (pos n) = IsClosed-show_digits n n
IsClosed-cypher_i64 (negsuc n) =
    IsClosed-append (b'-' ∷ []) _ (unfold scan in refl) (IsClosed-show_digits (suc n) (suc n))

pub IsClosed-cypher_bool : (v : Bool) → IsClosed (cypher_bool v)
unfolding cypher_bool scan
IsClosed-cypher_bool true = refl
IsClosed-cypher_bool false = refl

cut-append :
    (m : Lex) (taken a b : Text) {n : Lex}
    → scan m a ≡ some n
    → cut m taken (a ++ b) ≡ cut n (taken ++ a) b
unfolding scan cut
cut-append m taken [] b {n} h = let same : m ≡ n = cc in rw (append-nil, same)
cut-append m taken (c ∷ a) b {n} h = elim (Bool-cases (is_end m c)) [
  | inl ends ↦ absurd (ground arith)
  | inr goes ↦
      rw goes (cut-append (lex_step m c) (taken ++ c ∷ []) a b (rw goes at h) ∙ rw append_assoc)
]

-- A text that can stand as one statement of a script.
pub record IsStatement (s : Text) : Type 0 where
  pub closed : IsClosed s
  pub starts : drop_newline s ≡ s

abbrev pub separator : Text
separator = text ";\n"

cut-join :
    (taken s : Text) (ss : List Text)
    → IsClosed s
    → All IsClosed ss
    → cut plain taken (join separator (s ∷ ss)) ≡ (taken ++ s) ∷ map (◌∷◌ b'\n') ss
unfolding join cut
cut-join taken s [] h hs = ap (cut plain taken) (sym (append-nil s)) ∙ cut-append plain taken s [] h
cut-join taken s (t ∷ ts) h hs =
    cut-append plain taken s (separator ++ join separator (t ∷ ts)) h
    ∙ ap (λ later. (taken ++ s) ∷ later) (cut-join (b'\n' ∷ []) t ts hs.0 hs.1)

drop_newlines : (ss : List Text) → map drop_newline (map (◌∷◌ b'\n') ss) ≡ ss
unfolding drop_newline
drop_newlines [] = refl
drop_newlines (s ∷ ss) = rw (drop_newlines ss)

-- Statements that are joined to a script are the statements of the script.
pub statements_of-join :
    (s : Text) (ss : List Text)
    → All IsStatement (s ∷ ss)
    → statements_of (join separator (s ∷ ss)) ≡ s ∷ ss
unfolding statements_of
statements_of-join s ss h =
    let closed = All-mono IsStatement IsClosed (s ∷ ss) (λ t st. st.closed) h in
    ap (map drop_newline) (cut-join [] s ss closed.0 closed.1)
    ∙ ap₂ ◌∷◌ h.0.starts (drop_newlines ss)
