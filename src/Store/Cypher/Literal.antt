-- ===== src/Store/Cypher/Literal.antt =====
-- A reader of double-quoted literals with backslash escapes, and that it undoes `cypher_str`.
use esgraph.Prelude.{
  ℕ, ◌≡◌, refl, Option, none, some, [], ◌∷◌, ◌++◌, ◌==◌, if◌then◌else◌, append_assoc, arith, true,
  false,
}
use esgraph.Prelude.Text.{Text}
use esgraph.Store.Cypher.{quote_mark, backslash, escape, cypher_str}

abbrev prepended : ℕ → Option (Text × Text) → Option (Text × Text)
prepended c none = none
prepended c (some (s, rest)) = some (c ∷ s, rest)

-- The text of the literal whose opening quote is behind us, and what follows its closing quote. A
-- backslash stands for the character after it; `none` says that the literal does not end.
mutual
  pub read_body : Text → Option (Text × Text)
  read_body [] = none
  read_body (c ∷ cs) = elim (c == quote_mark) [
    | true ↦ some ([], cs)
    | false ↦ elim (c == backslash) [ true ↦ read_escaped cs | false ↦ prepended c (read_body cs) ]
  ]

  pub read_escaped : Text → Option (Text × Text)
  read_escaped [] = none
  read_escaped (c ∷ cs) = prepended c (read_body cs)

unfoldable pub read_literal : Text → Option (Text × Text)
unfolding read_body
read_literal [] = none
read_literal (c ∷ cs) = if c == quote_mark then read_body cs else none

-- What a character is written as inside a literal.
unfoldable pub escape_char : ℕ → Text
escape_char c =
    if c == backslash
    then backslash ∷ backslash ∷ []
    else if c == quote_mark
    then backslash ∷ quote_mark ∷ []
    else c ∷ []

-- The two passes of `escape` are one pass over the characters.
pub escape-cons : (c : ℕ) (s : Text) → escape (c ∷ s) ≡ escape_char c ++ escape s
unfolding escape escape_char
escape-cons c s = ground arith

pub escape-nil : escape [] ≡ []
unfolding escape
escape-nil = refl

read_body-escape : (s rest : Text) → read_body (escape s ++ (quote_mark ∷ rest)) ≡ some (s, rest)
unfolding read_body escape_char
read_body-escape [] rest = rw escape-nil
read_body-escape (c ∷ s) rest = rw escape-cons (ground (arith, read_body-escape s rest))

-- A literal that `cypher_str` writes is read back as the text it was written from, and ends where
-- it was meant to, whatever the text holds and whatever follows.
pub read_literal-cypher_str : (s rest : Text) → read_literal (cypher_str s ++ rest) ≡ some (s, rest)
unfolding read_literal cypher_str
read_literal-cypher_str s rest = rw append_assoc (read_body-escape s rest)
