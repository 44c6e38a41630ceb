-- ===== src/Handler/Routing.antt =====
-- Where `dispatch` sends an error (include/vosp/error.hpp, `detail::BasicHandler`).
use micro_error_framework.Prelude.{
  ℕ, zero, suc, ◌<◌, ◌≡◌, refl, sym, ap, ◌∙◌, ◌≢◌, ◌⊎◌, inl, inr, true, false, Option, some, List,
  [], ◌∷◌, ◌++◌, arith, Bool-cases, length, get_elem?, set, All,
}
use micro_error_framework.Error.{Category, Error, OperationResult, err, category_eq}
use micro_error_framework.Error.Equality.{category_eq_iff}
use micro_error_framework.Handler.{RegisterMethods, Operation, missing_register, invoke, dispatch}

module _ {R : Type 0} (methods : RegisterMethods R) where
  -- Each of these references leads to a register of another category.
  abbrev pub Misses : List R → Category → List ℕ → Type 0
  Misses store c = All (λ i. (r : R) × (get_elem? store i ≡ some r) × (methods.category r ≢ c))

  -- The first reference that leads to a register of the category.
  pub record Hit (store : List R) (c : Category) (references : List ℕ) : Type 0 where
    pub before : List ℕ
    pub place : ℕ
    pub after : List ℕ
    pub register : R
    pub split : references ≡ before ++ (place ∷ after)
    pub passed : Misses store c before
    pub found : get_elem? store place ≡ some register
    pub matches : methods.category register ≡ c

  -- What `dispatch` does at a hit.
  abbrev pub delivered : List R → ℕ → R → Error → Operation → Option (List R × OperationResult)
  delivered store i r error operation =
      some (set store i (invoke methods operation r error).0, (invoke methods operation r error).1)

  category_eq-ne : (c d : Category) → c ≢ d → category_eq c d ≡ false
  category_eq-ne c d h = elim (Bool-cases (category_eq c d)) [
    | inl e ↦ absurd (h ((category_eq_iff c d).0 e))
    | inr e ↦ e
  ]

  dispatch-skip :
      (store : List R) (before rest : List ℕ) (error : Error) (operation : Operation)
      → Misses store error.category before
      → dispatch methods store (before ++ rest) error operation
        ≡ dispatch methods store rest error operation
  unfolding dispatch
  dispatch-skip store [] rest error operation h = refl
  dispatch-skip store (i ∷ before) rest error operation h =
      let (r, at, ne) = h.0 in
      let miss = category_eq-ne (methods.category r) error.category ne in
      ground (arith, at, miss, dispatch-skip store before rest error operation h.1)

  -- If the references lead to a register of the error's category, the error goes to the first of
  -- them, and only there: the operation is invoked once, its result is returned, and no other
  -- register of the store changes.
  pub dispatch-first :
      (store : List R) (references : List ℕ) (error : Error) (operation : Operation)
      (hit : Hit store error.category references)
      → dispatch methods store references error operation
        ≡ delivered store hit.place hit.register error operation
  unfolding dispatch
  dispatch-first store references error operation hit =
      let open_refs =
        dispatch-skip store hit.before (hit.place ∷ hit.after) error operation hit.passed in
      let same = (category_eq_iff (methods.category hit.register) error.category).1 hit.matches in
      ap (λ refs. dispatch methods store refs error operation) hit.split
      ∙ open_refs
      ∙ ground (arith, hit.found, same)

  -- With no register of the category, `dispatch` changes nothing and returns the error that says so,
  -- under the category of the error that was given.
  pub dispatch-missing :
      (store : List R) (references : List ℕ) (error : Error) (operation : Operation)
      → Misses store error.category references
      → dispatch methods store references error operation
        ≡ some (store, err (missing_register error.category))
  unfolding dispatch
  dispatch-missing store [] error operation h = refl
  dispatch-missing store (i ∷ references) error operation h =
      let (r, at, ne) = h.0 in
      let miss = category_eq-ne (methods.category r) error.category ne in
      ground (arith, at, miss, dispatch-missing store references error operation h.1)

  -- No reference dangles.
  abbrev pub IsBound : List R → List ℕ → Type 0
  IsBound store = All (λ i. i < length store)

  get_elem?-lt :
      {A : Type 0} (xs : List A) (i : ℕ) → i < length xs → (a : A) × (get_elem? xs i ≡ some a)
  get_elem?-lt [] i h = elim h [ ]
  get_elem?-lt (x ∷ xs) zero h = (x, refl)
  get_elem?-lt (x ∷ xs) (suc i) h = get_elem?-lt xs i (omega arith)

  Hit-later :
      (store : List R) (c : Category) (i : ℕ) (references : List ℕ) (r : R)
      → get_elem? store i ≡ some r
      → methods.category r ≢ c
      → Hit store c references
      → Hit store c (i ∷ references)
  Hit-later store c i references r at ne hit = record {
    before = i ∷ hit.before;
    place = hit.place;
    after = hit.after;
    register = hit.register;
    split = ap (λ l. i ∷ l) hit.split;
    passed = ((r, at, ne), hit.passed);
    found = hit.found;
    matches = hit.matches;
  }

  pub route-cases :
      (store : List R) (c : Category) (references : List ℕ)
      → IsBound store references
      → Misses store c references ⊎ Hit store c references
  route-cases store c [] h = inl tt
  route-cases store c (i ∷ references) h =
      let (r, at) = get_elem?-lt store i h.0 in
      elim (Bool-cases (category_eq (methods.category r) c)) [
        | inl same ↦ inr (record {
          before = [];
          place = i;
          after = references;
          register = r;
          split = refl;
          passed = tt;
          found = at;
          matches = (category_eq_iff (methods.category r) c).0 same;
        })
        | inr other ↦
            let ne : methods.category r ≢ c =
              λ e. absurd_bool (sym other ∙ (category_eq_iff (methods.category r) c).1 e) in
            elim (route-cases store c references h.1) [
              | inl misses ↦ inl ((r, at, ne), misses)
              | inr hit ↦ inr (Hit-later store c i references r at ne hit)
            ]
      ]
    where
      absurd_bool : false ≡ true → ⊥
      absurd_bool e = cc
