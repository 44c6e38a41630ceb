-- ===== src/Register/Snapshot.antt =====
-- Snapshots, and a removal after a registration (include/vosp/error.hpp, `Register`).
use mathlib.Core.List.{Mem, mem-cons, not-mem-nil}
use mathlib.Core.Logic.Or
use micro_error_framework.Prelude.{
  ℕ, ◌≡◌, sym, ◌↔◌, inl, inr, Bool, true, false, none, some, List, [], ◌∷◌, map, arith, ◌==◌,
  ==_refl, Bool-cases, length, length-map, All,
}
use micro_error_framework.Error.{Category, Error, ok, error_eq}
use micro_error_framework.Error.Equality.{error_eq_iff, error_eq_refl}
use micro_error_framework.Register.Table.{lookup, HasDistinctKeys}
use micro_error_framework.Register.{Register, add, remove, contains_error, snapshot, size}
use micro_error_framework.Register.Invariant.{IsValid, IsFiled}

Bool-set : IsSet Bool
Bool-set = hlevel

module _ (c : Category) (e : Error) where
  abbrev registered : List (ℕ × Error) → Bool
  registered t = elim (lookup e.code t) [ none ↦ false | some stored ↦ error_eq stored e ]

  registered_of_mem :
      (t : List (ℕ × Error))
      → HasDistinctKeys t
      → All (IsFiled c) t
      → Mem e (map (λ entry. entry.1) t)
      → registered t ≡ true
  unfolding lookup
  registered_of_mem [] d f m = absurd (not-mem-nil m)
  registered_of_mem ((k, v) ∷ t) d f m =
      Or.elim (Bool-set _ _) (mem-cons.0 m) (λ same. ground (arith, error_eq_refl e))
        (λ later. ground (arith, registered_of_mem t d.1 f.1 later))

  mem_of_registered :
      (t : List (ℕ × Error)) → registered t ≡ true → Mem e (map (λ entry. entry.1) t)
  unfolding lookup
  mem_of_registered [] h = cc
  mem_of_registered ((k, v) ∷ t) h = elim (Bool-cases (k == e.code)) [
    | inl here ↦ mem-cons.1 (Or.inl (sym ((error_eq_iff v e).0 (ground arith))))
    | inr later ↦ mem-cons.1 (Or.inr (mem_of_registered t (ground arith)))
  ]

-- A snapshot of a valid register holds an error exactly if `contains` finds it, and has as many
-- entries as `size` says.
pub snapshot_lem :
    (r : Register) (e : Error)
    → IsValid r
    → (Mem e (snapshot r) ↔ (contains_error r e ≡ true)) × (length (snapshot r) ≡ size r)
unfolding snapshot contains_error size
snapshot_lem r e v = (
  (
    registered_of_mem r.category e r.errors v.distinct v.filed,
    mem_of_registered r.category e r.errors,
  ),
  length-map (λ entry. entry.1) r.errors,
)

-- After a successful `add` of an error, `contains` finds it, and `remove` of it succeeds and leaves
-- the register as it was before.
pub add-remove :
    (r : Register) (e : Error)
    → (add r e).1 ≡ ok tt
    → (contains_error (add r e).0 e ≡ true) × (remove (add r e).0 e ≡ (r, ok tt))
unfolding add remove contains_error
add-remove r e h = ground (arith, error_eq_refl e, ==_refl e.code)
