-- ===== src/Fuzz/Tests.antt =====
-- Runs of the fuzz target of fuzz/vosp_error_fuzzer.cpp.
use micro_error_framework.Prelude.{ℕ, ◌≡◌, refl, List, [], ◌∷◌, map, All}
use micro_error_framework.Register
use micro_error_framework.Register.{Register}
use micro_error_framework.Register.Invariant.{IsValid}
use micro_error_framework.Fuzz.{Ending, ended, test_one_input}
use micro_error_framework.Fuzz.Target.{test_one_input_lem}

-- The byte 0 adds an error of the first category and the byte 6 adds one of the second twice.
abbrev input : List ℕ
input = 0 ∷ 7 ∷ 0 ∷ 6 ∷ []

abbrev sizes_of : Ending → List ℕ
sizes_of (ended store) = map (λ r. Register.size r) store
sizes_of _ = []

sizes-input : sizes_of (test_one_input input) ≡ 1 ∷ 1 ∷ 0 ∷ []
unfolding test_one_input Register.size
sizes-input = refl

test_one_input_lem_example :
    (store : List Register) × (test_one_input input ≡ ended store) × All IsValid store
test_one_input_lem_example = test_one_input_lem input
