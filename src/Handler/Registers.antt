-- ===== src/Handler/Registers.antt =====
-- The handler over the registers of the library (include/vosp/error.hpp, `Register` behind
-- `IRegister`).
use micro_error_framework.Prelude.{
  ℕ, ◌≡◌, refl, sym, subst, ◌⊎◌, inl, inr, some, List, arith, set, All, All-set, All-get,
}
use micro_error_framework.Error.{Category, Error, OperationResult, ok, err}
use micro_error_framework.Error.Equality.{category_eq_iff}
use micro_error_framework.Register
use micro_error_framework.Register.{Register}
use micro_error_framework.Register.Invariant.{IsValid, step-IsValid}
use micro_error_framework.Register.{already_registered, capacity_reached, not_registered}
use micro_error_framework.Handler.{
  RegisterMethods, Operation, adds, removes, invoke, dispatch, missing_register,
}
use micro_error_framework.Handler.Routing.{IsBound, dispatch-first, dispatch-missing, route-cases}

pub category-register_add : (r : Register) (e : Error) → (Register.add r e).0.category ≡ r.category
unfolding Register.add
category-register_add r e = ground arith

pub category-register_remove :
    (r : Register) (e : Error) → (Register.remove r e).0.category ≡ r.category
unfolding Register.remove
category-register_remove r e = ground arith

-- A `Register` is an `IRegister`.
abbrev pub register_methods : RegisterMethods Register
register_methods = record {
  category = λ r. r.category;
  add = Register.add;
  remove = Register.remove;
  category-add = category-register_add;
  category-remove = category-register_remove;
}

invoke-IsValid :
    (operation : Operation) (r : Register) (e : Error)
    → IsValid r
    → IsValid (invoke register_methods operation r e).0
unfolding invoke Register.step
invoke-IsValid adds r e v = step-IsValid r (Register.adds e) v
invoke-IsValid removes r e v = step-IsValid r (Register.removes e) v

-- The results that a register of the error's category can give.
abbrev pub IsOwnReply : Category → OperationResult → Type 0
IsOwnReply c result =
    (result ≡ ok tt)
    ⊎ (result ≡ err (already_registered c))
    ⊎ (result ≡ err (capacity_reached c))
    ⊎ (result ≡ err (not_registered c))

invoke-IsOwnReply :
    (operation : Operation) (r : Register) (e : Error)
    → r.category ≡ e.category
    → IsOwnReply r.category (invoke register_methods operation r e).1
unfolding invoke Register.add Register.remove
invoke-IsOwnReply adds r e h = ground (arith, (category_eq_iff e.category r.category).1 (sym h))
invoke-IsOwnReply removes r e h = ground (arith, (category_eq_iff e.category r.category).1 (sym h))

-- With no dangling reference and valid registers the handler always answers, and keeps every
-- register valid. Its answer is success, or the error that the code is taken, that the register is
-- full, that the error is not there or that no register is configured: a register never refuses an
-- error that is routed to it for its category.
pub dispatch-answers :
    (store : List Register) (references : List ℕ) (e : Error) (operation : Operation)
    → IsBound register_methods store references
    → All IsValid store
    → (store' : List Register) × (result : OperationResult) × (dispatch register_methods store
          references e operation
        ≡ some (store', result))
      × All IsValid store'
      × (IsOwnReply e.category result ⊎ (result ≡ err (missing_register e.category)))
dispatch-answers store references e operation bound v =
    elim (route-cases register_methods store e.category references bound) [
      | inl misses ↦ (
        store,
        err (missing_register e.category),
        dispatch-missing register_methods store references e operation misses,
        v,
        inr refl,
      )
      | inr hit ↦
          let call = invoke register_methods operation hit.register e in
          (
            set store hit.place call.0,
            call.1,
            dispatch-first register_methods store references e operation hit,
            All-set IsValid store hit.place call.0 v (
                invoke-IsValid operation hit.register e
                  (All-get IsValid store hit.place hit.register v hit.found)),
            inl (
                subst (λ c. IsOwnReply c call.1) hit.matches
                  (invoke-IsOwnReply operation hit.register e hit.matches)),
          )
    ]
