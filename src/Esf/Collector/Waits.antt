-- ===== src/Esf/Collector/Waits.antt =====
-- The wait for the shutdown flag in `run_collector`.
use esgraph.Prelude.{
  Bool, true, false, ◌≡◌, ◌≢◌, refl, none, some, List, [], ◌∷◌, ◌++◌, Outcome, ok, err, panic,
}
use esgraph.Esf.Errors.{EsfError}
use esgraph.Esf.Collector.Session.{wait, waited}

pub wait_ends : (before after : List Bool) → wait (before ++ true ∷ after) ≡ some (ok tt)
unfolding wait
wait_ends [] after = refl
wait_ends (true ∷ before) after = refl
wait_ends (false ∷ before) after = wait_ends before after

pub wait-ok :
    (polls : List Bool) {r : Outcome EsfError (Unit {0})} → wait polls ≡ some r → r ≡ ok tt
unfolding wait
wait-ok [] h = cc
wait-ok (true ∷ polls) h = cc
wait-ok (false ∷ polls) h = wait-ok polls h

pub waited_ends :
    (before after : List Bool) (answer : Outcome EsfError (Unit {0}))
    → waited (before ++ true ∷ after) answer ≢ none
waited_ends before after (ok u) h = let e = wait_ends before after in cc
waited_ends before after (err e) h = cc
waited_ends before after panic h = cc

-- The wait behind the answer of the set-up.
pub waited-ok :
    (polls : List Bool) (answer : Outcome EsfError (Unit {0}))
    → waited polls answer ≡ some (ok tt)
    → answer ≡ ok tt
waited-ok polls (ok u) h = refl
waited-ok polls (err e) h = cc
waited-ok polls panic h = cc

pub waited-err :
    (polls : List Bool) (answer : Outcome EsfError (Unit {0})) {e : EsfError}
    → waited polls answer ≡ some (err e)
    → answer ≡ err e
waited-err polls (ok u) h = let r = wait-ok polls h in cc
waited-err polls (err e) h = cc
waited-err polls panic h = cc
