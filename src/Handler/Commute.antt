-- ===== src/Handler/Commute.antt =====
-- Operations on errors of different categories (include/vosp/error.hpp, `detail::BasicHandler`): each
-- register has its own lock.
use micro_error_framework.Prelude.{
  ℕ, zero, suc, ◌≡◌, refl, sym, ap, ◌∙◌, ◌≢◌, inl, inr, Option, none, some, List, [], ◌∷◌, arith,
  ℕ_discrete, get_elem?, set, get_elem?-set_ne,
}
use micro_error_framework.Error.{Category, Error, OperationResult}
use micro_error_framework.Handler.{RegisterMethods, Operation, adds, removes, invoke, dispatch}
use micro_error_framework.Handler.Routing.{
  Misses, Hit, IsBound, dispatch-first, dispatch-missing, route-cases,
}

module _ {A : Type 0} where
  get_elem?-set_hit :
      (xs : List A) (i : ℕ) (a v : A) → get_elem? xs i ≡ some a → get_elem? (set xs i v) i ≡ some v
  get_elem?-set_hit [] i a v h = cc
  get_elem?-set_hit (x ∷ xs) zero a v h = refl
  get_elem?-set_hit (x ∷ xs) (suc i) a v h = get_elem?-set_hit xs i a v h

  set_comm : (xs : List A) (i j : ℕ) (a b : A) → i ≢ j → set (set xs i a) j b ≡ set (set xs j b) i a
  set_comm [] i j a b h = refl
  set_comm (x ∷ xs) zero zero a b h = absurd (h refl)
  set_comm (x ∷ xs) zero (suc j) a b h = refl
  set_comm (x ∷ xs) (suc i) zero a b h = refl
  set_comm (x ∷ xs) (suc i) (suc j) a b h =
      ap (λ l. x ∷ l) (set_comm xs i j a b (λ e. h (ap suc e)))

module _ {R : Type 0} (methods : RegisterMethods R) where
  category-invoke :
      (operation : Operation) (r : R) (error : Error)
      → methods.category (invoke methods operation r error).0 ≡ methods.category r
  unfolding invoke
  category-invoke adds r error = methods.category-add r error
  category-invoke removes r error = methods.category-remove r error

  Misses-set :
      (store : List R) (i : ℕ) (r r' : R) (c : Category) (references : List ℕ)
      → get_elem? store i ≡ some r
      → methods.category r' ≡ methods.category r
      → Misses methods store c references
      → Misses methods (set store i r') c references
  Misses-set store i r r' c [] at same h = tt
  Misses-set store i r r' c (j ∷ references) at same h =
      let (r₀, at₀, ne) = h.0 in
      elim (ℕ_discrete i j) [
        | yes e ↦
            let one : r₀ ≡ r = ground arith in
            let ne' : methods.category r' ≢ c = λ q. ne (ap methods.category one ∙ sym same ∙ q) in
            let at' : get_elem? (set store i r') j ≡ some r' =
              rw (← e) (get_elem?-set_hit store i r r' at) in
            ((r', at', ne'), Misses-set store i r r' c references at same h.1)
        | no d ↦ (
          (r₀, get_elem?-set_ne store i j r' d ∙ at₀, ne),
          Misses-set store i r r' c references at same h.1,
        )
      ]

  Hit-set :
      (store : List R) (i : ℕ) (r r' : R) (c : Category) (references : List ℕ)
      → get_elem? store i ≡ some r
      → methods.category r' ≡ methods.category r
      → (hit : Hit methods store c references) → i ≢ hit.place
      → Hit methods (set store i r') c references
  Hit-set store i r r' c references at same hit d = record {
    before = hit.before;
    place = hit.place;
    after = hit.after;
    register = hit.register;
    split = hit.split;
    passed = Misses-set store i r r' c hit.before at same hit.passed;
    found = get_elem?-set_ne store i hit.place r' d ∙ hit.found;
    matches = hit.matches;
  }

  -- Two operations, one after the other, with both results.
  unfoldable pub dispatch_two :
      List R
      → List ℕ
      → Error
      → Operation
      → Error
      → Operation
      → Option (List R × OperationResult × OperationResult)
  dispatch_two store references a p b q = elim (dispatch methods store references a p) [
    | none ↦ none
    | some (store', x) ↦ elim (dispatch methods store' references b q) [
      | none ↦ none
      | some (store'', y) ↦ some (store'', x, y)
    ]
  ]

  pub dispatch_two-eq :
      (store store' store'' : List R) (references : List ℕ) (a : Error) (p : Operation) (b : Error)
      (q : Operation) (x y : OperationResult)
      → dispatch methods store references a p ≡ some (store', x)
      → dispatch methods store' references b q ≡ some (store'', y)
      → dispatch_two store references a p b q ≡ some (store'', x, y)
  unfolding dispatch_two
  dispatch_two-eq store store' store'' references a p b q x y h k = ground arith

  -- The same outcome with the results in the other order.
  abbrev pub crossed :
      Option (List R × OperationResult × OperationResult)
      → Option (List R × OperationResult × OperationResult)
  crossed none = none
  crossed (some (store, x, y)) = some (store, y, x)

  place-ne :
      (store : List R) (references : List ℕ) (c d : Category)
      → c ≢ d
      → (h : Hit methods store c references) (k : Hit methods store d references)
      → h.place ≢ k.place
  place-ne store references c d ne h k e =
      let same : some h.register ≡ some k.register =
        sym h.found ∙ ap (get_elem? store) e ∙ k.found in
      let one : h.register ≡ k.register = ground arith in
      ne (sym h.matches ∙ ap methods.category one ∙ k.matches)

  hit-missing :
      (store : List R) (references : List ℕ) (a b : Error) (p q : Operation)
      → Hit methods store a.category references
      → Misses methods store b.category references
      → dispatch_two store references a p b q ≡ crossed (dispatch_two store references b q a p)
  hit-missing store references a b p q h m =
      let r' = (invoke methods p h.register a).0 in
      let first = dispatch-first methods store references a p h in
      let m' =
        Misses-set store h.place h.register r' b.category references h.found
          (category-invoke p h.register a) m in
      let second = dispatch-missing methods (set store h.place r') references b q m' in
      let absent = dispatch-missing methods store references b q m in
      rw (dispatch_two-eq _ _ _ references a p b q _ _ first second)
        (rw (dispatch_two-eq _ _ _ references b q a p _ _ absent first) refl)

  -- If no reference of the handler dangles, two operations on errors of different categories
  -- commute: in either order they leave the same registers and give the same results.
  pub dispatch_comm :
      (store : List R) (references : List ℕ) (a b : Error) (p q : Operation)
      → IsBound methods store references
      → a.category ≢ b.category
      → dispatch_two store references a p b q ≡ crossed (dispatch_two store references b q a p)
  unfolding Hit-set
  dispatch_comm store references a b p q bound ne =
      elim (route-cases methods store a.category references bound) [
        | inl ma ↦ elim (route-cases methods store b.category references bound) [
          | inl mb ↦
              let left = dispatch-missing methods store references a p ma in
              let right = dispatch-missing methods store references b q mb in
              rw (dispatch_two-eq _ _ _ references a p b q _ _ left right)
                (rw (dispatch_two-eq _ _ _ references b q a p _ _ right left) refl)
          | inr hb ↦ sym (ap crossed (hit-missing store references b a q p hb ma) ∙ crossed_twice _)
        ]
        | inr ha ↦ elim (route-cases methods store b.category references bound) [
          | inl mb ↦ hit-missing store references a b p q ha mb
          | inr hb ↦
              let ra = (invoke methods p ha.register a).0 in
              let rb = (invoke methods q hb.register b).0 in
              let d = place-ne store references a.category b.category ne ha hb in
              let hb' =
                Hit-set store ha.place ha.register ra b.category references ha.found
                  (category-invoke p ha.register a) hb d in
              let ha' =
                Hit-set store hb.place hb.register rb a.category references hb.found
                  (category-invoke q hb.register b) ha (λ e. d (sym e)) in
              rw
                (dispatch_two-eq _ _ _ references a p b q _ _
                  (dispatch-first methods store references a p ha)
                  (dispatch-first methods (set store ha.place ra) references b q hb'))
                (rw
                  (dispatch_two-eq _ _ _ references b q a p _ _
                    (dispatch-first methods store references b q hb)
                    (dispatch-first methods (set store hb.place rb) references a p ha'))
                  (rw (set_comm store ha.place hb.place ra rb d) refl))
        ]
      ]
    where
      crossed_twice :
          (o : Option (List R × OperationResult × OperationResult)) → crossed (crossed o) ≡ o
      crossed_twice none = refl
      crossed_twice (some (s, x, y)) = refl
