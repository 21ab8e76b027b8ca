-- ===== src/Store/Statements/Upserts.antt =====
-- What the upsert of a process keeps: its arguments, which only an event that has them may set.
use mathlib.Core.Option
use esgraph.Prelude.{
  Bool, true, false, Option, none, some, [], ◌≡◌, refl, All, All-append, if◌then◌else◌,
}
use esgraph.Prelude.Int.{ℤ, pos}
use esgraph.Prelude.Text.{Text, text, starts_with}
use esgraph.Core.Model.{ProcessNode}
use esgraph.Store.Cypher.{assign, opt_str_assign, opt_i64_assign, opt_bool_assign}
use esgraph.Store.Statements.{opt_list, n, process_set_clauses}

-- The clause does not set the arguments.
abbrev pub KeepsArgs : Text → Type 0
KeepsArgs clause = starts_with (text "n.args_json") clause ≡ false

module _ (key : Text) (hk : (v : Text) → KeepsArgs (assign n key v)) where
  opt_str-keeps : (v : Option Text) → All KeepsArgs (opt_list (opt_str_assign n key v))
  unfolding opt_str_assign
  opt_str-keeps none = tt
  opt_str-keeps (some v) = (hk _, tt)

  opt_i64-keeps : (v : Option ℤ) → All KeepsArgs (opt_list (opt_i64_assign n key v))
  unfolding opt_i64_assign
  opt_i64-keeps none = tt
  opt_i64-keeps (some v) = (hk _, tt)

  opt_bool-keeps : (v : Option Bool) → All KeepsArgs (opt_list (opt_bool_assign n key v))
  unfolding opt_bool_assign
  opt_bool-keeps none = tt
  opt_bool-keeps (some v) = (hk _, tt)

args-keeps :
    (b : Bool) (args : Option Text)
    → args ≡ none
    → All KeepsArgs (if b then opt_list (opt_str_assign n (text "args_json") args) else [])
unfolding opt_str_assign
args-keeps true none h = tt
args-keeps true (some v) h = cc
args-keeps false args h = tt

-- No clause that the upsert of a process without arguments sets, on creation or on a match, assigns
-- the arguments.
pub process_set_clauses-KeepsArgs :
    (p : ProcessNode) (seen_ns : ℤ) (include_args : Bool)
    → p.args_json ≡ none
    → All KeepsArgs (process_set_clauses p seen_ns include_args)
unfolding process_set_clauses starts_with assign
process_set_clauses-KeepsArgs p seen_ns b h = (
  refl,
  (
    refl,
    (
      refl,
      All-append KeepsArgs _ _ (opt_str-keeps (text "signing_id") (λ v. refl) p.signing_id) (
          All-append KeepsArgs _ _ (opt_str-keeps (text "team_id") (λ v. refl) p.team_id) (
            All-append KeepsArgs _ _ (opt_str-keeps (text "cdhash") (λ v. refl) p.cdhash) (
              All-append KeepsArgs _ _ (opt_i64-keeps (text "ppid") (λ v. refl) p.ppid) (
                All-append KeepsArgs _ _
                  (opt_i64-keeps (text "euid") (λ v. refl) (Option.map pos p.euid))
                  (All-append KeepsArgs _ _
                    (opt_i64-keeps (text "egid") (λ v. refl) (Option.map pos p.egid))
                    (All-append KeepsArgs _ _
                      (opt_i64-keeps (text "ruid") (λ v. refl) (Option.map pos p.ruid))
                      (All-append KeepsArgs _ _
                        (opt_i64-keeps (text "rgid") (λ v. refl) (Option.map pos p.rgid))
                        (All-append KeepsArgs _ _
                          (opt_i64-keeps (text "session_id") (λ v. refl) p.session_id)
                          (All-append KeepsArgs _ _
                            (opt_bool-keeps (text "is_platform_binary") (λ v. refl)
                              p.is_platform_binary)
                            (All-append KeepsArgs _ _
                              (opt_str-keeps (text "parent_audit_token_hex") (λ v. refl)
                                p.parent_audit_token_hex)
                              (All-append KeepsArgs _ _ (args-keeps b p.args_json h) (
                                opt_i64-keeps (text "exit_status") (λ v. refl)
                                  p.exit_status)))))))))))),
    ),
  ),
)
