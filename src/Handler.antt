-- ===== src/Handler.antt =====
-- include/vosp/error.hpp, `IRegister` and `detail::BasicHandler`: routing of an error to the first
-- register of its category. Handler and ConcurrentHandler differ in the locks alone: an operation
-- holds the lock of its register for its whole length.
pub mod Routing
pub mod Commute
pub mod Registers
mod Tests
use micro_error_framework.Prelude.{
  ℕ, zero, suc, ◌+◌, ◌-◌, ◌*◌, ◌/◌, ◌%◌, ◌^◌, ◌≤◌, ◌<◌, min, compare, Ordering, bit_xor, String,
  ◌≡◌, refl, sym, ap, ap₂, subst, fun_ext, ◌∙◌, ◌≡⟨◌⟩◌, ◌∎, ◌≢◌, ◌↔◌, ◌⊎◌, inl, inr, Bool, true,
  false, not, ◌&&◌, ◌||◌, Option, none, some, List, [], ◌∷◌, ◌++◌, map, append-nil, append_assoc,
  arith, dec_lt, ℕ_discrete, ltb, leb, ◌==◌, if◌then◌else◌, ltb→lt, lt→ltb, leb→le, ==_iff, ==_refl,
  Bool-cases, Option-cases, is_some, Text, codes, text_eq, text_eq_refl, text_eq_iff, length,
  get_elem?, set, take, drop, length-append, length-set, get_elem?-set_self, get_elem?-set_ne,
  length-take, length-drop, take-append-drop, length-map, All,
}
use micro_error_framework.Error.{
  Category, Error, OperationResult, ok, err, category_eq, missing_register_code,
}

-- `IRegister`: the virtual methods. That a register's category is fixed is the contract of
-- `CategoryRegister`, whose `category` is final.
pub record RegisterMethods (R : Type 0) : Type 0 where
  pub category : R → Category
  pub add : R → Error → R × OperationResult
  pub remove : R → Error → R × OperationResult
  pub category-add : (r : R) (e : Error) → category (add r e).0 ≡ category r
  pub category-remove : (r : R) (e : Error) → category (remove r e).0 ≡ category r

-- The pointer to member that `dispatch` takes.
pub data Operation : Type 0 where
  adds removes : Operation

unfoldable pub missing_register : Category → Error
missing_register c = record {
  message = codes "No register is configured for this category";
  code = missing_register_code;
  category = c;
}

module _ {R : Type 0} (methods : RegisterMethods R) where
  unfoldable pub invoke : Operation → R → Error → R × OperationResult
  invoke adds = methods.add
  invoke removes = methods.remove

  -- `dispatch`: the registers live outside the handler, in `store`; the handler holds references to
  -- them, which are places in the store and may coincide. `none` is a use of a dangling reference.
  unfoldable pub dispatch : List R → List ℕ → Error → Operation → Option (List R × OperationResult)
  unfolding invoke category_eq
  dispatch store [] error operation = some (store, err (missing_register error.category))
  dispatch store (i ∷ references) error operation = elim (get_elem? store i) [
    | none ↦ none
    | some r ↦ elim (category_eq (methods.category r) error.category) [
      | false ↦ dispatch store references error operation
      | true ↦ let (r', result) = invoke operation r error in some (set store i r', result)
    ]
  ]

  unfoldable pub add : List R → List ℕ → Error → Option (List R × OperationResult)
  unfolding dispatch
  add store references error = dispatch store references error adds

  unfoldable pub remove : List R → List ℕ → Error → Option (List R × OperationResult)
  unfolding dispatch
  remove store references error = dispatch store references error removes
