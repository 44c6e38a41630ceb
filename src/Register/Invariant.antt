-- ===== src/Register/Invariant.antt =====
-- What holds of a register at all times (include/vosp/error.hpp, `Register`).
use micro_error_framework.Prelude.{ℕ, ◌≤◌, ◌≡◌, ◌↔◌, List, [], ◌∷◌, arith, length, All}
use micro_error_framework.Error.{Category, Error, returned, max_register_capacity}
use micro_error_framework.Error.Equality.{category_eq_iff}
use micro_error_framework.Register.Table.{
  erase, HasDistinctKeys, erase-HasDistinctKeys, length-erase, erase-All,
}
use micro_error_framework.Register.{
  Register, construct, add, remove, remove_code, clear, Call, adds, removes, contains_errors,
  removes_code, contains_codes, finds, clears, sizes, step, run,
}

-- An entry stands under its own code, and belongs to the register's category.
abbrev pub IsFiled : Category → ℕ × Error → Type 0
IsFiled c entry = (entry.0 ≡ entry.1.code) × (entry.1.category ≡ c)

pub record IsValid (r : Register) : Type 0 where
  pub positive : 1 ≤ r.capacity_limit
  pub limited : r.capacity_limit ≤ max_register_capacity
  pub within : length r.errors ≤ r.capacity_limit
  pub distinct : HasDistinctKeys r.errors
  pub filed : All (IsFiled r.category) r.errors

-- The constructor gives an empty register with the category and the limit asked for exactly if the
-- limits are in range.
pub construct-returned_iff :
    (c : Category) (expected_size capacity_limit : ℕ)
    → ((1 ≤ capacity_limit)
        × (capacity_limit ≤ max_register_capacity)
        × (expected_size ≤ capacity_limit))
      ↔ (construct c expected_size capacity_limit
          ≡ returned (record { category = c; capacity_limit = capacity_limit; errors = [] }))
unfolding construct
construct-returned_iff c expected_size capacity_limit = (λ h. ground arith, λ h. ground arith)

pub construct-IsValid :
    (c : Category) (expected_size capacity_limit : ℕ) (r : Register)
    → construct c expected_size capacity_limit ≡ returned r
    → IsValid r
unfolding construct
construct-IsValid c expected_size capacity_limit r h = ground arith

add-IsValid : (r : Register) (e : Error) → IsValid r → IsValid (add r e).0
unfolding add
add-IsValid r e v = ground (arith, (category_eq_iff e.category r.category).0)

erased-IsValid :
    (r : Register) (k : ℕ) → IsValid r → IsValid (record r { errors = erase k r.errors })
erased-IsValid r k v = record {
  positive = v.positive;
  limited = v.limited;
  within = omega (arith, length-erase k r.errors, v.within);
  distinct = erase-HasDistinctKeys k r.errors v.distinct;
  filed = erase-All (IsFiled r.category) k r.errors v.filed;
}

remove-IsValid : (r : Register) (e : Error) → IsValid r → IsValid (remove r e).0
unfolding remove
remove-IsValid r e v = ground (arith, erased-IsValid r e.code v)

remove_code-IsValid : (r : Register) (k : ℕ) → IsValid r → IsValid (remove_code r k).0
unfolding remove_code
remove_code-IsValid r k v = ground (arith, erased-IsValid r k v)

-- Every method keeps a valid register valid: within its limit, no code twice, every error under its
-- own code and of the register's category.
pub step-IsValid : (r : Register) (c : Call) → IsValid r → IsValid (step r c).0
unfolding step clear
step-IsValid r (adds e) v = add-IsValid r e v
step-IsValid r (removes e) v = remove-IsValid r e v
step-IsValid r (removes_code k) v = remove_code-IsValid r k v
step-IsValid r (contains_errors e) v = v
step-IsValid r (contains_codes k) v = v
step-IsValid r (finds k) v = v
step-IsValid r clears v = omega arith
step-IsValid r sizes v = v

pub run-IsValid : (r : Register) (cs : List Call) → IsValid r → IsValid (run r cs).0
unfolding run
run-IsValid r [] v = v
run-IsValid r (c ∷ cs) v = run-IsValid (step r c).0 cs (step-IsValid r c v)
