-- ===== src/Register/Tests.antt =====
-- Runs of include/vosp/error.hpp, `Register`, and the theorems at concrete inputs.
use micro_error_framework.Prelude.{◌≡◌, refl, true, none, List, [], ◌∷◌, arith, codes}
use micro_error_framework.Error.{Error, network, database, ok, err}
use micro_error_framework.Register.{
  Register, add, already_registered, capacity_reached, category_mismatch, code_not_registered, Call,
  adds, removes, contains_errors, removes_code, finds, clears, status, answer, found, count, step,
  run,
}
use micro_error_framework.Register.Invariant.{IsValid, step-IsValid}
use micro_error_framework.Register.Catalog
use micro_error_framework.Register.Table.{lookup}
use micro_error_framework.Register.Refine.{view, run_refines}

abbrev timeout : Error
timeout = record { message = codes "Timeout"; code = 1; category = network }

abbrev reset : Error
reset = record { message = codes "Reset"; code = 2; category = network }

abbrev small : Register
small = record { category = network; capacity_limit = 1; errors = [] }

abbrev script : List Call
script =
    adds timeout
    ∷ adds reset
    ∷ adds timeout
    ∷ contains_errors timeout
    ∷ finds 2
    ∷ removes_code 2
    ∷ removes timeout
    ∷ clears
    ∷ []

-- A full register reports a duplicate as such.
run-small :
    (run small script).1
    ≡ status (ok tt)
      ∷ status (err (capacity_reached network))
      ∷ status (err (already_registered network))
      ∷ answer true
      ∷ found none
      ∷ status (err (code_not_registered network))
      ∷ status (ok tt)
      ∷ count 0
      ∷ []
unfolding run
run-small = refl

add-other_category :
    (add small (record timeout { category = database })).1 ≡ err (category_mismatch network)
unfolding add
add-other_category = refl

small-IsValid : IsValid small
small-IsValid = omega arith

holding-IsValid : IsValid (record small { errors = (1, timeout) ∷ [] })
unfolding lookup
holding-IsValid = record {
  positive = omega arith;
  limited = omega arith;
  within = omega arith;
  distinct = (refl, tt);
  filed = ((refl, refl), tt);
}

step-IsValid_example : IsValid (step small (adds timeout)).0
step-IsValid_example = step-IsValid small (adds timeout) small-IsValid

run_refines_example : (run small script).1 ≡ Catalog.run network 1 (view small) script
run_refines_example = run_refines small script small-IsValid
