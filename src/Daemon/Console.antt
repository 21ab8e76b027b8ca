-- ===== src/Daemon/Console.antt =====
-- What a command of crates/esgraphd/src/main.rs does once its store is open: it prints lines and
-- calls the store, and `?` ends it at the first error.
use esgraph.Prelude.{◌≡◌, refl, List, [], ◌∷◌, ◌++◌, Outcome, ok, err, panic}
use esgraph.Prelude.Text.{Text}

-- What has been printed, and the database.
pub record Terminal (Database : Type 0) : Type 0 where
  pub lines : List Text
  pub db : Database

abbrev pub Console : Type 0 → Type 0 → Type 0 → Type 0
Console Database E A = Terminal Database → Outcome E A × Terminal Database

module _ {Database E : Type 0} where
  -- The rest of a block behind one of its calls.
  abbrev pub follow :
      {A B : Type 0}
      → Outcome E A
      → Terminal Database
      → (A → Console Database E B)
      → Outcome E B × Terminal Database
  follow (ok a) t f = f a t
  follow (err e) t f = (err e, t)
  follow panic t f = (panic, t)

  infixl 5 ◌>>=◌
  abbrev pub ◌>>=◌ :
      {A B : Type 0} → Console Database E A → (A → Console Database E B) → Console Database E B
  (m >>= f) t = follow (m t).0 (m t).1 f

  -- `println!`
  abbrev pub print : Text → Console Database E (Unit {0})
  print line t = (ok tt, record t { lines = t.lines ++ line ∷ [] })

  -- A call that touches neither the terminal nor the database.
  abbrev pub lift : {A : Type 0} → Outcome E A → Console Database E A
  lift answer t = (answer, t)

  follow-ok :
      {A B : Type 0} (answer : Outcome E A) (t : Terminal Database) (f : A → Console Database E B)
      {b : B}
      → (follow answer t f).0 ≡ ok b
      → (a : A) × (answer ≡ ok a) × ((f a t).0 ≡ ok b) × ((follow answer t f).1 ≡ (f a t).1)
  follow-ok (ok a) t f h = (a, refl, h, refl)
  follow-ok (err e) t f h = cc
  follow-ok panic t f h = cc

  -- Inversion of a block that succeeds.
  pub bind-ok :
      {A B : Type 0} (m : Console Database E A) (f : A → Console Database E B)
      (t : Terminal Database) {b : B}
      → ((m >>= f) t).0 ≡ ok b
      → (a : A) × ((m t).0 ≡ ok a) × ((f a (m t).1).0 ≡ ok b) × (((m >>= f) t).1 ≡ (f a (m t).1).1)
  bind-ok m f t h = follow-ok (m t).0 (m t).1 f h

  -- `for line in lines { println!(…) }`
  unfoldable pub print_all : List Text → Console Database E (Unit {0})
  print_all [] t = (ok tt, t)
  print_all (line ∷ rest) t = print_all rest (record t { lines = t.lines ++ line ∷ [] })
