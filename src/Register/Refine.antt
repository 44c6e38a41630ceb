-- ===== src/Register/Refine.antt =====
-- A register (include/vosp/error.hpp) against the catalog of its entries.
use micro_error_framework.Prelude.{
  ℕ, ◌-◌, ◌≡◌, refl, ap, ap₂, fun_ext, ◌∙◌, true, none, List, [], ◌∷◌, arith, length,
}
use micro_error_framework.Error.{Error}
use micro_error_framework.Register.Table.{lookup, contains, erase, lookup-erase, length-erase}
use micro_error_framework.Register.{
  Register, add, remove, remove_code, contains_error, contains_code, find, clear, size, Call, adds,
  removes, contains_errors, removes_code, contains_codes, finds, clears, sizes, status, step, run,
}
use micro_error_framework.Register.Invariant.{IsValid, step-IsValid}
use micro_error_framework.Register.Catalog
use micro_error_framework.Register.Catalog.{Catalog, update}

-- The entries of a register, without their order.
abbrev pub view : Register → Catalog
view r = record { entries = λ k. lookup k r.errors; total = length r.errors }

-- The state that a method leaves, seen as a catalog, and what it returns.
abbrev seen {ℓ} : {A : Type ℓ} → Register × A → Catalog × A
seen (r, a) = (view r, a)

add_refines :
    (r : Register) (e : Error)
    → IsValid r
    → seen (add r e) ≡ Catalog.admit r.category r.capacity_limit (view r) e
unfolding add Catalog.admit lookup
add_refines r e v = ground arith

view-erase :
    (r : Register) (k : ℕ)
    → IsValid r
    → contains k r.errors ≡ true
    → view (record r { errors = erase k r.errors })
      ≡ record { entries = update (λ j. lookup j r.errors) k none; total = length r.errors - 1 }
view-erase r k v h =
    let entries_eq : (λ j. lookup j (erase k r.errors)) ≡ update (λ j. lookup j r.errors) k none =
      fun_ext (λ j. lookup-erase k j r.errors v.distinct) in
    let total_eq : length (erase k r.errors) ≡ length r.errors - 1 =
      ground (arith, length-erase k r.errors) in
    λ i. record { entries = entries_eq i; total = total_eq i }

remove_refines :
    (r : Register) (e : Error)
    → IsValid r
    → seen (remove r e) ≡ Catalog.withdraw r.category r.capacity_limit (view r) e
unfolding remove Catalog.withdraw contains
remove_refines r e v = ground (arith, view-erase r e.code v)

remove_code_refines :
    (r : Register) (k : ℕ)
    → IsValid r
    → (view (step r (removes_code k)).0, (step r (removes_code k)).1)
      ≡ Catalog.step r.category r.capacity_limit (view r) (removes_code k)
unfolding step Catalog.step contains
remove_code_refines r k v = ground (arith, view-erase r k v)

-- Each method returns what the catalog returns, and leaves the register holding what the catalog
-- then holds.
pub step_refines :
    (r : Register) (c : Call)
    → IsValid r
    → (view (step r c).0, (step r c).1) ≡ Catalog.step r.category r.capacity_limit (view r) c
unfolding step Catalog.step
step_refines r (adds e) v = ap (λ p. (p.0, status p.1)) (add_refines r e v)
step_refines r (removes e) v = ap (λ p. (p.0, status p.1)) (remove_refines r e v)
step_refines r (removes_code k) v = remove_code_refines r k v
step_refines r (contains_errors e) v = unfold contains_error in refl
step_refines r (contains_codes k) v = unfold contains_code in refl
step_refines r (finds k) v = unfold find in refl
step_refines r clears v = unfold clear lookup in refl
step_refines r sizes v = unfold size in refl

-- The parameters of the register never change.
step-fixed :
    (r : Register) (c : Call)
    → ((step r c).0.category ≡ r.category) × ((step r c).0.capacity_limit ≡ r.capacity_limit)
unfolding step add remove remove_code clear
step-fixed r c = ground arith

-- On a valid register, any sequence of calls is answered as the catalog of its entries answers it.
pub run_refines :
    (r : Register) (cs : List Call)
    → IsValid r
    → (run r cs).1 ≡ Catalog.run r.category r.capacity_limit (view r) cs
unfolding run Catalog.run
run_refines r [] v = refl
run_refines r (c ∷ cs) v =
    let r' = (step r c).0 in
    let rest : (run r' cs).1 ≡ Catalog.run r'.category r'.capacity_limit (view r') cs =
      run_refines r' cs (step-IsValid r c v) in
    let fixed = step-fixed r c in
    let next = step_refines r c v in
    let moved : (run r' cs).1 ≡ Catalog.run r.category r.capacity_limit (view r') cs =
      rest ∙ (λ i. Catalog.run (fixed.0 i) (fixed.1 i) (view r') cs) in
    ap₂ ◌∷◌ (ap (λ p. p.1) next)
      (moved ∙ ap (λ p. Catalog.run r.category r.capacity_limit p.0 cs) next)
