-- ===== src/Register.antt =====
-- include/vosp/error.hpp, `Register`: the bounded store of the errors of one category.
-- Every public method holds the register's mutex for its whole body, so concurrent calls act one after
-- the other; a policy only selects the mutex. The category is the template's parameter.
pub mod Table
pub mod Invariant
pub mod Catalog
pub mod Refine
pub mod Snapshot
mod Tests
use micro_error_framework.Prelude.{
  ℕ, zero, suc, ◌+◌, ◌-◌, ◌*◌, ◌/◌, ◌%◌, ◌^◌, ◌≤◌, ◌<◌, min, compare, Ordering, bit_xor, String,
  ◌≡◌, refl, sym, ap, ap₂, subst, fun_ext, ◌∙◌, ◌≡⟨◌⟩◌, ◌∎, ◌≢◌, ◌↔◌, ◌⊎◌, inl, inr, Bool, true,
  false, not, ◌&&◌, ◌||◌, Option, none, some, List, [], ◌∷◌, ◌++◌, map, append-nil, append_assoc,
  arith, dec_lt, ℕ_discrete, ltb, leb, ◌==◌, if◌then◌else◌, ltb→lt, lt→ltb, leb→le, ==_iff, ==_refl,
  Bool-cases, Option-cases, is_some, Text, codes, text_eq, text_eq_refl, text_eq_iff, length,
  get_elem?, set, take, drop, length-append, length-set, get_elem?-set_self, get_elem?-set_ne,
  length-take, length-drop, take-append-drop, length-map, All,
}
use micro_error_framework.Error.{
  Category, Error, OperationResult, ok, err, Outcome, returned, threw_exception, category_eq,
  error_eq, duplicate_error_code, missing_error_code, register_capacity_error_code,
  register_category_error_code, max_register_capacity,
}
use Table.{lookup, contains, try_emplace, erase}

pub record Register : Type 0 where
  pub category : Category
  pub capacity_limit : ℕ
  pub errors : List (ℕ × Error)

-- The errors that the methods return.
unfoldable pub category_mismatch : Category → Error
category_mismatch c = record {
  message = codes "Error category does not match this register";
  code = register_category_error_code;
  category = c;
}

unfoldable pub already_registered : Category → Error
already_registered c = record {
  message = codes "Error is already registered";
  code = duplicate_error_code;
  category = c;
}

unfoldable pub capacity_reached : Category → Error
capacity_reached c = record {
  message = codes "Error register capacity limit reached";
  code = register_capacity_error_code;
  category = c;
}

unfoldable pub not_registered : Category → Error
not_registered c = record {
  message = codes "Error is not registered";
  code = missing_error_code;
  category = c;
}

unfoldable pub code_not_registered : Category → Error
code_not_registered c = record {
  message = codes "Error code is not registered";
  code = missing_error_code;
  category = c;
}

unfoldable pub validate_limits : ℕ → ℕ → Outcome (Unit {0})
validate_limits expected_size capacity_limit =
    if (capacity_limit == 0) || ltb max_register_capacity capacity_limit
    then threw_exception (some (codes "Register capacity must be in [1, max_register_capacity]"))
    else if ltb capacity_limit expected_size
    then threw_exception (some (codes "Register expected size exceeds its capacity limit"))
    else returned tt

-- The constructor. `errors_.reserve` changes no element.
unfoldable pub construct : Category → ℕ → ℕ → Outcome Register
unfolding validate_limits
construct c expected_size capacity_limit = elim (validate_limits expected_size capacity_limit) [
  | returned _ ↦ returned (record { category = c; capacity_limit = capacity_limit; errors = [] })
  | threw_exception what ↦ threw_exception what
  | Outcome.threw_unknown ↦ Outcome.threw_unknown
]

unfoldable pub reserve : Register → ℕ → Outcome Register
unfolding validate_limits
reserve r expected_size = elim (validate_limits expected_size r.capacity_limit) [
  | returned _ ↦ returned r
  | threw_exception what ↦ threw_exception what
  | Outcome.threw_unknown ↦ Outcome.threw_unknown
]

-- `add`
unfoldable pub add : Register → Error → Register × OperationResult
unfolding category_eq contains try_emplace
add r error =
    if not (category_eq error.category r.category)
    then (r, err (category_mismatch r.category))
    else if leb r.capacity_limit (length r.errors)
    then (if contains error.code r.errors
        then (r, err (already_registered r.category))
        else (r, err (capacity_reached r.category)))
    else (let (errors, inserted) = try_emplace error.code error r.errors in
        if inserted
        then (record r { errors = errors }, ok tt)
        else (record r { errors = errors }, err (already_registered r.category)))

-- `remove(const Error&)`
unfoldable pub remove : Register → Error → Register × OperationResult
unfolding category_eq lookup erase error_eq
remove r error =
    if not (category_eq error.category r.category)
    then (r, err (category_mismatch r.category))
    else elim (lookup error.code r.errors) [
      | none ↦ (r, err (not_registered r.category))
      | some stored ↦
          if not (error_eq stored error)
          then (r, err (not_registered r.category))
          else (record r { errors = erase error.code r.errors }, ok tt)
    ]

-- `remove(std::uint32_t)`: `erase` returns the number of entries removed.
unfoldable pub remove_code : Register → ℕ → Register × OperationResult
unfolding contains erase
remove_code r code =
    if contains code r.errors
    then (record r { errors = erase code r.errors }, ok tt)
    else (r, err (code_not_registered r.category))

-- `contains(const Error&)`
unfoldable pub contains_error : Register → Error → Bool
unfolding lookup error_eq
contains_error r error = elim (lookup error.code r.errors) [
  | none ↦ false
  | some stored ↦ error_eq stored error
]

-- `contains(std::uint32_t)`
unfoldable pub contains_code : Register → ℕ → Bool
unfolding contains
contains_code r code = contains code r.errors

unfoldable pub find : Register → ℕ → Option Error
unfolding lookup
find r code = lookup code r.errors

unfoldable pub snapshot : Register → List Error
snapshot r = map (λ entry. entry.1) r.errors

unfoldable pub clear : Register → Register × ℕ
clear r = (record r { errors = [] }, length r.errors)

unfoldable pub size : Register → ℕ
size r = length r.errors

-- A client's call, and what it is told.
pub data Call : Type 0 where
  adds removes contains_errors : Error → Call
  removes_code contains_codes finds : ℕ → Call
  clears sizes : Call

pub data Reply : Type 0 where
  status : OperationResult → Reply
  answer : Bool → Reply
  found : Option Error → Reply
  count : ℕ → Reply

unfoldable pub step : Register → Call → Register × Reply
unfolding add remove remove_code contains_error contains_code find clear size
step r (adds e) = let (r', s) = add r e in (r', status s)
step r (removes e) = let (r', s) = remove r e in (r', status s)
step r (removes_code c) = let (r', s) = remove_code r c in (r', status s)
step r (contains_errors e) = (r, answer (contains_error r e))
step r (contains_codes c) = (r, answer (contains_code r c))
step r (finds c) = (r, found (find r c))
step r clears = let (r', n) = clear r in (r', count n)
step r sizes = (r, count (size r))

-- A history of calls, in the order in which they take the lock.
unfoldable pub run : Register → List Call → Register × List Reply
unfolding step
run r [] = (r, [])
run r (c ∷ cs) =
    let (r', reply) = step r c in let (r'', replies) = run r' cs in (r'', reply ∷ replies)
