-- ===== src/Esf/Collector/Version.antt =====
-- `init_runtime_version` of collector.rs: the version of the host, from the output of `sw_vers`.
use mathlib.Core.Option
use esgraph.Prelude.{ℕ, ◌++◌, Option, none, some, List, [], ◌∷◌, map, get_or}
use esgraph.Prelude.Text.{Text, text, trim, join}
use esgraph.Prelude.Int.{show_nat}
use esgraph.Prelude.Number.{parse_u64}
use esgraph.Prelude.Split.{split}

-- `filter_map(|p| p.parse().ok())`
unfoldable pub parse_parts : List Text → List ℕ
unfolding parse_u64
parse_parts [] = []
parse_parts (p ∷ ps) = elim (parse_u64 p) [ some n ↦ n ∷ parse_parts ps | none ↦ parse_parts ps ]

pub record Version : Type 0 where
  pub major : ℕ
  pub minor : ℕ
  pub patch : ℕ

-- The three components, where those that are missing have their defaults.
abbrev pub version_of : List ℕ → Version
version_of parts = record {
  major = get_or parts 0 10;
  minor = get_or parts 1 15;
  patch = get_or parts 2 0;
}

-- The arguments of `set_runtime_version`, from what `sw_vers` printed; `none` where the program could
-- not be run or printed no UTF-8, and the version stays as it was.
unfoldable pub runtime_version : Option Text → Option Version
unfolding trim split parse_parts
runtime_version output =
    Option.map (λ version. version_of (parse_parts (split b'.' (trim version)))) output

-- The line that `sw_vers` prints for a version.
abbrev pub version_line : List ℕ → Text
version_line ns = join (text ".") (map show_nat ns) ++ 10 ∷ []
