-- ===== src/Esf/Collector/Mutes.antt =====
-- `apply_path_mutes` of collector.rs, with `store_mute_prefix` and `canonicalize_prefix`: the
-- prefixes of paths whose events are muted. Paths, the file system and the current directory are
-- parameters; `mute_path` of the client is one too.
use esgraph.Prelude.{
  Bool, true, false, ◌||◌, ◌≡◌, refl, ap, subst, Option, none, some, List, [], ◌∷◌, ◌++◌,
  Bool-cases, inl, inr, ◌∙◌, if◌then◌else◌, arith,
}
use esgraph.Prelude.Text.{Text, text_eq, text_eq_iff, trim}
use esgraph.Core.Config.{Config}
use esgraph.Core.Config.Resolve.{mentions}

-- What the code calls of `Path`, of the file system and of `env`. An error of `canonicalize` or of
-- `current_dir` is only tested for, so these return an option.
pub record FileSystem (FilePath : Type 0) : Type 0 where
  pub path : Text → FilePath
  pub is_empty : FilePath → Bool
  pub is_absolute : FilePath → Bool
  pub parent : FilePath → Option FilePath
  pub file_name : FilePath → Option FilePath
  pub join : FilePath → FilePath → FilePath
  pub exists : FilePath → Bool
  pub canonicalize : FilePath → Option FilePath
  pub current_dir : Option FilePath
  pub to_str : FilePath → Option Text

-- `and_then`, and `?` on an option.
infixl 5 ◌>>=◌
abbrev ◌>>=◌ : {A B : Type 0} → Option A → (A → Option B) → Option B
none >>= f = none
some a >>= f = f a

-- `o.or(Some(p))`
abbrev or_else : {A : Type 0} → Option A → A → A
or_else none p = p
or_else (some q) p = q

-- The option holds that text.
abbrev pub is_prefix : Option Text → Text → Bool
is_prefix none path = false
is_prefix (some prefix) path = text_eq prefix path

-- The prefix of the store is put behind the configured paths, if it is not among them.
unfoldable pub with_prefix : List Text → Option Text → List Text
unfolding mentions
with_prefix muted none = muted
with_prefix muted (some prefix) = if mentions muted prefix then muted else muted ++ prefix ∷ []

mentions-append :
    (xs ys : List Text) (path : Text)
    → mentions (xs ++ ys) path ≡ (mentions xs path || mentions ys path)
unfolding mentions
mentions-append [] ys path = refl
mentions-append (x ∷ xs) ys path = ground (arith, mentions-append xs ys path)

mentions_one : (x path : Text) → mentions (x ∷ []) path ≡ text_eq x path
unfolding mentions
mentions_one x path = ground arith

mentions_known :
    (muted : List Text) (prefix path : Text)
    → mentions muted prefix ≡ true
    → mentions muted path ≡ (mentions muted path || text_eq prefix path)
mentions_known muted prefix path old = elim (Bool-cases (text_eq prefix path)) [
  | inl same ↦
      let there : mentions muted path ≡ true =
        subst (λ t. mentions muted t ≡ true) ((text_eq_iff prefix path).0 same) old in
      ground (arith, there, same)
  | inr differs ↦ ground (arith, differs)
]

mentions-with_prefix :
    (muted : List Text) (prefix : Option Text) (path : Text)
    → mentions (with_prefix muted prefix) path ≡ (mentions muted path || is_prefix prefix path)
unfolding with_prefix
mentions-with_prefix muted none path = ground arith
mentions-with_prefix muted (some prefix) path = behind (mentions muted prefix) refl
  where
    behind :
        (b : Bool)
        → mentions muted prefix ≡ b
        → mentions (if b then muted else muted ++ prefix ∷ []) path
          ≡ (mentions muted path || text_eq prefix path)
    behind true old = mentions_known muted prefix path old
    behind false new =
        mentions-append muted (prefix ∷ []) path
        ∙ ap (◌||◌ (mentions muted path)) (mentions_one prefix path)

module _ {FilePath : Type 0} (fs : FileSystem FilePath) where
  -- The parent of a path that does not exist, with the last name put back behind it.
  abbrev rebuilt : FilePath → Option FilePath
  rebuilt p = do
    above ← fs.parent p
    real ← fs.canonicalize above
    name ← fs.file_name p
    some (fs.join real name)

  -- The source wraps the path in `Some` on both branches.
  unfoldable pub canonicalize_prefix : FilePath → Option FilePath
  canonicalize_prefix p =
      if fs.exists p then some (or_else (fs.canonicalize p) p) else some (or_else (rebuilt p) p)

  -- `path.parent().filter(|p| !p.as_os_str().is_empty())`
  abbrev directory : FilePath → Option FilePath
  directory p = elim (fs.parent p) [
    | none ↦ none
    | some above ↦ if fs.is_empty above then none else some above
  ]

  abbrev absolute : FilePath → FilePath
  absolute p =
      if fs.is_absolute p then p else elim (fs.current_dir) [ some cwd ↦ fs.join cwd p | none ↦ p ]

  unfoldable pub store_mute_prefix : Text → Option Text
  unfolding canonicalize_prefix trim
  store_mute_prefix store_path = do
    parent ← directory (fs.path (trim store_path))
    prefix ← canonicalize_prefix (absolute parent)
    fs.to_str prefix

  -- `muted`, when the loop of `apply_path_mutes` begins.
  unfoldable pub muted_paths : Config → List Text
  unfolding store_mute_prefix with_prefix
  muted_paths config = with_prefix config.mute.paths (store_mute_prefix config.store.path)

  -- A prefix is muted exactly when the configuration names it or it is that of the store directory.
  pub mentions-muted_paths :
      (config : Config) (path : Text)
      → mentions (muted_paths config) path
        ≡ (mentions config.mute.paths path || is_prefix (store_mute_prefix config.store.path) path)
  unfolding muted_paths
  mentions-muted_paths config path =
      mentions-with_prefix config.mute.paths (store_mute_prefix config.store.path) path
