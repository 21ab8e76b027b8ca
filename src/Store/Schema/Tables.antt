-- ===== src/Store/Schema/Tables.antt =====
-- What a statement may name: the tables of the schema, looked up in its text.
use esgraph.Prelude.{
  Bool, false, ◌||◌, ◌==◌, if◌then◌else◌, Option, none, some, List, [], ◌∷◌, ◌++◌,
}
use esgraph.Prelude.Text.{Text, text, starts_with, behind}
use esgraph.Store.Schema.{init_schema}

unfoldable pub any_starts_with : Text → List Text → Bool
unfolding starts_with
any_starts_with s [] = false
any_starts_with s (t ∷ ts) = starts_with s t || any_starts_with s ts

-- The schema has a table of relationships of that name between nodes of those labels.
unfoldable pub has_rel_table : Text → Text → Text → Bool
unfolding any_starts_with init_schema
has_rel_table rel src dst =
    any_starts_with
      (text "CREATE REL TABLE IF NOT EXISTS "
        ++ (rel ++ (text " (\n        FROM " ++ (src ++ (text " TO " ++ (dst ++ text ",\n"))))))
      init_schema

-- The text up to a space.
unfoldable pub word : Text → Text
word [] = []
word (c ∷ cs) = let rest = word cs in if c == b' ' then [] else c ∷ rest

abbrev named : Option Text → List Text → List Text
unfolding word
named none names = names
named (some rest) names = word rest ∷ names

abbrev names_in : Text → List Text → List Text
unfolding behind word
names_in kind [] = []
names_in kind (ddl ∷ rest) =
    named (behind (text "CREATE " ++ (kind ++ text " TABLE IF NOT EXISTS ")) ddl)
      (names_in kind rest)

-- The tables of that kind, `NODE` or `REL`, that the schema creates.
unfoldable pub table_names : Text → List Text
unfolding behind word init_schema
table_names kind = names_in kind init_schema
