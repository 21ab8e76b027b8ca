-- ===== src/Daemon/Commands/Reads.antt =====
-- A reader of the line of counters that `cmd_run` and `cmd_replay` print, apart from what prints it.
use esgraph.Prelude.{
  ℕ, zero, suc, ◌+◌, ◌-◌, ◌*◌, ◌/◌, ◌%◌, ◌≤◌, ◌<◌, Bool-cases, inl, inr, ◌&&◌, leb, ltb,
  if◌then◌else◌, ◌≡◌, refl, ap, ◌∙◌, List, [], ◌∷◌, ◌++◌, append_assoc, Option, none, some, arith,
}
use esgraph.Prelude.Int.{show_digits, show_nat}
use esgraph.Prelude.Text.{Text, text, behind}
use esgraph.Store.Batch.{IngestStats}
use esgraph.Daemon.Commands.Live.{ingested_line}

-- A decimal number that is begun, and the text behind its last digit.
unfoldable pub read_digits : ℕ → Text → ℕ × Text
read_digits n [] = (n, [])
read_digits n (c ∷ cs) =
    let rest = read_digits (n * 10 + (c - b'0')) cs in
    if leb b'0' c && leb c b'9' then rest else (n, c ∷ cs)

-- A number in front of others.
abbrev pub first : ℕ → Option (List ℕ) → Option (List ℕ)
first n none = none
first n (some ns) = some (n ∷ ns)

-- A number in front of those that are read behind it.
abbrev pub read_rest : ℕ → (Text → Option (List ℕ)) → Option Text → Option (List ℕ)
read_rest n read none = none
read_rest n read (some rest) = first n (read rest)

-- Numbers, each with these words behind it.
unfoldable pub read_numbers : List Text → Text → Option (List ℕ)
unfolding behind read_digits
read_numbers [] [] = some []
read_numbers [] (c ∷ cs) = none
read_numbers (word ∷ words) s =
    let number = read_digits 0 s in read_rest number.0 (read_numbers words) (behind word number.1)

-- The numbers of events, of upserts and of edges that the line tells.
unfoldable pub read_counts : Text → Option (List ℕ)
unfolding behind read_numbers
read_counts line = elim (behind (text "ingested ") line) [
  | none ↦ none
  | some numbers ↦
      read_numbers (text " event(s), " ∷ text " node upsert(s), " ∷ text " edge(s)" ∷ []) numbers
]

read_digits-cons :
    (n d m : ℕ) (rest : Text)
    → d < 10
    → m ≡ n * 10 + d
    → read_digits n ((b'0' + d) ∷ rest) ≡ read_digits m rest
unfolding read_digits
read_digits-cons n d m rest small is = ground arith

read_digits-show_digits :
    (f n : ℕ) (rest : Text) → n ≤ f → read_digits 0 (show_digits f n ++ rest) ≡ read_digits n rest
unfolding show_digits
read_digits-show_digits zero n rest h =
    read_digits-cons 0 (n % 10) n rest (omega arith) (omega arith)
read_digits-show_digits (suc f) n rest h = elim (Bool-cases (ltb n 10)) [
  | inl small ↦ rw (small, show_digits) (read_digits-cons 0 n n rest (ground arith) (omega arith))
  | inr large ↦
      let ih = read_digits-show_digits f (n / 10) ((b'0' + n % 10) ∷ rest) (ground arith) in
      rw (large, show_digits)
        (rw append_assoc
          (ih ∙ read_digits-cons (n / 10) (n % 10) n rest (omega arith) (omega arith)))
]

-- A number that is printed is read back up to a space behind it.
read_digits-show_nat :
    (n : ℕ) (rest : Text) → read_digits 0 (show_nat n ++ b' ' ∷ rest) ≡ (n, b' ' ∷ rest)
unfolding show_nat
read_digits-show_nat n rest =
    read_digits-show_digits n n (b' ' ∷ rest) (omega arith) ∙ unfold read_digits in refl

behind-append : (word rest : Text) → behind word (word ++ rest) ≡ some rest
unfolding behind
behind-append [] rest = refl
behind-append (c ∷ word) rest = ground (arith, behind-append word rest)

read_numbers-show_nat :
    (word : Text) (words : List Text) (n : ℕ) (rest : Text)
    → read_numbers ((b' ' ∷ word) ∷ words) (show_nat n ++ b' ' ∷ (word ++ rest))
      ≡ first n (read_numbers words rest)
unfolding read_numbers behind
read_numbers-show_nat word words n rest =
    ap (λ (p : ℕ × Text). read_rest p.0 (read_numbers words) (behind (b' ' ∷ word) p.1))
      (read_digits-show_nat n (word ++ rest))
    ∙ ap (read_rest n (read_numbers words)) (behind-append (b' ' ∷ word) rest)

nothing_else : read_numbers [] [] ≡ some []
unfolding read_numbers
nothing_else = refl

-- The three counters, as the line tells them.
abbrev pub counts : IngestStats → List ℕ
counts stats = stats.events ∷ stats.node_upserts ∷ stats.edges_inserted ∷ []

-- The line tells the three counters.
pub read_counts-ingested_line :
    (stats : IngestStats) → read_counts (ingested_line stats) ≡ some (counts stats)
unfolding read_counts behind
read_counts-ingested_line stats =
    let edges = show_nat stats.edges_inserted ++ text " edge(s)" in
    let upserts = show_nat stats.node_upserts ++ (text " node upsert(s), " ++ edges) in
    let last =
      read_numbers-show_nat (text "edge(s)") [] stats.edges_inserted []
      ∙ ap (first stats.edges_inserted) {x = read_numbers [] []} {y = some []} nothing_else in
    let middle =
      read_numbers-show_nat (text "node upsert(s), ") (text " edge(s)" ∷ []) stats.node_upserts
        edges
      ∙ ap (first stats.node_upserts) last in
    read_numbers-show_nat (text "event(s), ") (text " node upsert(s), " ∷ text " edge(s)" ∷ [])
      stats.events upserts
    ∙ ap (first stats.events) middle
