-- ===== src/Execution/Policy/Conforms.antt =====
-- What `validate_argv` and `validate_plan` of policy.py accept, said without their code.
use Prim.Native.String.{len}
use code_explorer.Base.{
  ℕ, ◌+◌, ◌≤◌, String, false, List, [], ◌∷◌, ◌≡◌, ◌≢◌, ◌↔◌, arith, eq_iff, length, All, inl, inr,
}
use code_explorer.Execution.Result.{returned, outcome_cases}
use code_explorer.Execution.Policy.Argv.{has_nul, measure_argv, validate_argv}

abbrev pub total_bytes : List String → ℕ
total_bytes [] = 0
total_bytes (a ∷ rest) = len a + total_bytes rest

pub record IsValidItem (a : String) : Type 0 where
  pub not_empty : a ≢ ""
  pub no_nul : has_nul a ≡ false
  pub short : len a ≤ 2048

pub record IsValidArgv (argv : List String) : Type 0 where
  pub some_item : 1 ≤ length argv
  pub few_items : length argv ≤ 64
  pub items : All IsValidItem argv
  pub size : total_bytes argv ≤ 8192

measure_argv_complete :
    (total : ℕ) (argv : List String)
    → All IsValidItem argv
    → measure_argv total argv ≡ returned (total + total_bytes argv)
unfolding measure_argv
measure_argv_complete total [] h = ground arith
measure_argv_complete total (a ∷ rest) h = ground (
  arith,
  eq_iff a "",
  h.0.not_empty,
  h.0.no_nul,
  h.0.short,
  measure_argv_complete (total + len a) rest h.1,
)

measure_argv_sound :
    (total n : ℕ) (argv : List String)
    → measure_argv total argv ≡ returned n
    → All IsValidItem argv × (n ≡ total + total_bytes argv)
unfolding measure_argv
measure_argv_sound total n [] h = ground arith
measure_argv_sound total n (a ∷ rest) h =
    ground (arith, eq_iff a "", measure_argv_sound (total + len a) n rest)

validate_argv_sound : (argv : List String) → validate_argv argv ≡ returned tt → IsValidArgv argv
unfolding validate_argv
validate_argv_sound [] h = cc
validate_argv_sound (a ∷ rest) h = elim (outcome_cases (measure_argv 0 (a ∷ rest))) [
  | inl (n, e) ↦
      let (items, total) = measure_argv_sound 0 n (a ∷ rest) e in
      record {
        some_item = omega arith;
        few_items = ground (arith, e);
        items = items;
        size = ground (arith, e, total);
      }
  | inr (x, e) ↦ ground (arith, e)
]

validate_argv_complete : (argv : List String) → IsValidArgv argv → validate_argv argv ≡ returned tt
unfolding validate_argv
validate_argv_complete [] h = absurd (omega arith)
validate_argv_complete (a ∷ rest) h =
    ground (arith, h.few_items, h.size, measure_argv_complete 0 (a ∷ rest) h.items)

pub validate_argv_iff : (argv : List String) → (validate_argv argv ≡ returned tt) ↔ IsValidArgv argv
validate_argv_iff argv = (validate_argv_sound argv, validate_argv_complete argv)
