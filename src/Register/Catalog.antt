-- ===== src/Register/Catalog.antt =====
-- What a register promises: a partial map from codes to errors of one category, with a bound on its
-- size. There is no storage here, and no order.
use micro_error_framework.Prelude.{
  ℕ, ◌+◌, ◌-◌, Bool, false, Option, none, some, List, [], ◌∷◌, ltb, ◌==◌, if◌then◌else◌, is_some,
}
use micro_error_framework.Error.{Category, Error, OperationResult, ok, err, category_eq, error_eq}
use micro_error_framework.Register.{
  category_mismatch, already_registered, capacity_reached, not_registered, code_not_registered,
  Call, adds, removes, contains_errors, removes_code, contains_codes, finds, clears, sizes, Reply,
  status, answer, found, count,
}

pub record Catalog : Type 0 where
  pub entries : ℕ → Option Error
  pub total : ℕ

-- The map changed at one code.
abbrev pub update : (ℕ → Option Error) → ℕ → Option Error → ℕ → Option Error
update f k v j = if k == j then v else f j

abbrev pub holds : Catalog → Error → Bool
holds g e = elim (g.entries e.code) [ none ↦ false | some stored ↦ error_eq stored e ]

module _ (category : Category) (limit : ℕ) where
  -- A code that is taken is reported as such, also when the catalog is full.
  unfoldable pub admit : Catalog → Error → Catalog × OperationResult
  admit g e =
      if category_eq e.category category
      then (if is_some (g.entries e.code)
          then (g, err (already_registered category))
          else if ltb g.total limit
          then (record { entries = update g.entries e.code (some e); total = g.total + 1 }, ok tt)
          else (g, err (capacity_reached category)))
      else (g, err (category_mismatch category))

  abbrev without : Catalog → ℕ → Catalog
  without g k = record { entries = update g.entries k none; total = g.total - 1 }

  unfoldable pub withdraw : Catalog → Error → Catalog × OperationResult
  withdraw g e =
      if category_eq e.category category
      then (if holds g e then (without g e.code, ok tt) else (g, err (not_registered category)))
      else (g, err (category_mismatch category))

  unfoldable pub step : Catalog → Call → Catalog × Reply
  unfolding admit withdraw
  step g (adds e) = let (g', s) = admit g e in (g', status s)
  step g (removes e) = let (g', s) = withdraw g e in (g', status s)
  step g (removes_code k) =
      if is_some (g.entries k)
      then (without g k, status (ok tt))
      else (g, status (err (code_not_registered category)))
  step g (contains_errors e) = (g, answer (holds g e))
  step g (contains_codes k) = (g, answer (is_some (g.entries k)))
  step g (finds k) = (g, found (g.entries k))
  step g clears = (record { entries = λ k. none; total = 0 }, count g.total)
  step g sizes = (g, count g.total)

  unfoldable pub run : Catalog → List Call → List Reply
  unfolding step
  run g [] = []
  run g (c ∷ cs) = let (g', reply) = step g c in reply ∷ run g' cs
