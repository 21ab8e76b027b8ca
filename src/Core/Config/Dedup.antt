-- ===== src/Core/Config/Dedup.antt =====
-- Lists without repetition, described by their first occurrences.
use esgraph.Prelude.{true, ◌≡◌, refl, ◌||◌, List, [], ◌∷◌, ◌++◌, if◌then◌else◌, arith}
use esgraph.Core.Events.{EsEventName, name_eq_iff}
use esgraph.Core.Config.Defs.{contains}

-- The members of the second list that the first does not contain.
unfoldable pub fresh : List EsEventName → List EsEventName → List EsEventName
fresh out [] = []
fresh out (x ∷ xs) = if contains out x then fresh out xs else x ∷ fresh out xs

-- Every first occurrence, in the order of the list.
unfoldable pub nub : List EsEventName → List EsEventName
unfolding fresh
nub [] = []
nub (x ∷ xs) = x ∷ fresh (x ∷ []) (nub xs)

pub fresh-nil : (xs : List EsEventName) → fresh [] xs ≡ xs
unfolding fresh contains
fresh-nil [] = refl
fresh-nil (x ∷ xs) = rw (fresh-nil xs)

pub contains-append :
    (xs ys : List EsEventName) (n : EsEventName)
    → contains (xs ++ ys) n ≡ (contains xs n || contains ys n)
unfolding contains
contains-append [] ys n = refl
contains-append (x ∷ xs) ys n = ground (arith, contains-append xs ys n)

-- To remove one list and then another is to remove both.
pub fresh-fresh : (out ys xs : List EsEventName) → fresh out (fresh ys xs) ≡ fresh (out ++ ys) xs
unfolding fresh
fresh-fresh out ys [] = refl
fresh-fresh out ys (x ∷ xs) = ground (arith, contains-append out ys x, fresh-fresh out ys xs)

-- A name that is there already removes nothing more.
pub fresh_contained :
    (out : List EsEventName) (x : EsEventName) (xs : List EsEventName)
    → contains out x ≡ true
    → fresh (out ++ x ∷ []) xs ≡ fresh out xs
unfolding fresh contains
fresh_contained out x [] h = refl
fresh_contained out x (y ∷ ys) h =
    ground (arith, contains-append out (x ∷ []) y, name_eq_iff x y, fresh_contained out x ys h)
