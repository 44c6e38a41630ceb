-- ===== src/Pool/Overlap/Sections.antt =====
-- A section of include/vosp/worker_pool.hpp in which nobody else comes is the function that Pool has
-- for it.
use mathlib.Core.Option.{some-injective}
use micro_error_framework.Prelude.{
  ℕ, zero, suc, ◌+◌, ◌-◌, ◌*◌, ◌≤◌, min, ◌≡◌, refl, sym, ap, subst, ◌∙◌, inl, inr, false, some,
  List, [], ◌∷◌, ◌++◌, map, append-nil, append_assoc, arith, ◌==◌, Bool-cases, Option-cases, length,
  take, length-append, length-take, length-map,
}
use micro_error_framework.Error.{OperationResult, Outcome}
use micro_error_framework.Pool.Word.{pending_from_state, is_stopping_state, fetch_add, active_unit}
use micro_error_framework.Pool.Slots.{Ring, emplace_tail, front, reset_head}
use micro_error_framework.Pool.Task.{TaskItem, bulk_item}
use micro_error_framework.Pool.{
  Pool, accepted, enqueue, emplace_all, refill, bulk_claim_size, claim_bulk, claim, claim_seen,
}
use micro_error_framework.Pool.Overlap.{
  Producer, Consumer, Machine, machine, count, look, absent, filling, taking_bulk, taken, Access,
  begins_enqueue, begins_refill, emplaces, counts, looks, takes_one, takes_bulk, fills_up,
  meets_single, claims,
}

-- Accesses in a row.
pub data Accesses : Machine → Machine → Type 0 where
  over : {m : Machine} → Accesses m m
  first : {m n o : Machine} → Access m n → Accesses n o → Accesses m o

joined : {m n o : Machine} → Accesses m n → Accesses n o → Accesses m o
joined over h = h
joined (first a rest) h = first a (joined rest h)

-- The section of `enqueue` is the function.
pub enqueue-Accesses :
    (p q : Pool) (item : TaskItem) (c : Consumer) (running : List ℕ)
    → enqueue p item ≡ accepted q
    → Accesses (machine p absent c running) (machine q absent c running)
unfolding enqueue
enqueue-Accesses p q item c running e = elim (Bool-cases (is_stopping_state p.queue_state)) [
  | inl y ↦ ground (arith, e, y)
  | inr n ↦ elim (Bool-cases (pending_from_state p.queue_state == p.tasks.capacity)) [
    | inl y ↦ ground (arith, e, n, y)
    | inr m ↦
        let same : record p {
          tasks = emplace_tail p.tasks item;
          queue_state = fetch_add p.queue_state 1;
        }
            ≡ q =
          ground (arith, e, n, m) in
        subst (λ r. Accesses (machine p absent c running) (machine r absent c running)) same
          (first (begins_enqueue p c running item n m) (
            first (emplaces p item [] [] c running) (
              first (counts (record p { tasks = emplace_tail p.tasks item }) (item ∷ []) c running)
                over)))
  ]
]

fill-Accesses :
    (p : Pool) (items done : List TaskItem) (c : Consumer) (running : List ℕ) (m : Machine)
    → Accesses
        (machine
          (record p { tasks = emplace_all p.tasks items })
          (filling [] (done ++ items))
          c
          running)
        m
    → Accesses (machine p (filling items done) c running) m
unfolding emplace_all
fill-Accesses p [] done c running m h =
    subst (λ l. Accesses (machine p (filling [] l) c running) m) (append-nil done) h
fill-Accesses p (item ∷ items) done c running m h =
    let r = record p { tasks = emplace_tail p.tasks item } in
    first (emplaces p item items done c running) (
      fill-Accesses r items (done ++ (item ∷ [])) c running m (
        subst
          (λ l.
            Accesses
              (machine (record r { tasks = emplace_all r.tasks items }) (filling [] l) c running) m)
          (sym (append_assoc done (item ∷ []) items)) h))

-- The ring and the batch that a loop comes to.
abbrev Ends : Pool → Producer → List ℕ → List TaskItem → ℕ → Ring TaskItem × List TaskItem → Type 0
Ends p q running batch limit r =
    Accesses (machine p q (taking_bulk batch limit) running)
      (machine (record p { tasks = r.0 }) q (taken (batch ++ r.1)) running)

-- The loop ends.
nothing_more :
    (p : Pool) (q : Producer) (running : List ℕ) (batch : List TaskItem) (limit : ℕ)
    → Access (machine p q (taking_bulk batch limit) running) (machine p q (taken batch) running)
    → Ends p q running batch limit (p.tasks, [])
nothing_more p q running batch limit a =
    subst
      (λ l.
        Accesses (machine p q (taking_bulk batch limit) running) (machine p q (taken l) running))
      (sym (append-nil batch)) (first a over)

-- The loop of `process_bulk`, with `batch` taken before.
bulk-Accesses :
    (n : ℕ) (p : Pool) (result : Ring TaskItem × List TaskItem) (q : Producer) (running : List ℕ)
    (batch : List TaskItem) (limit : ℕ)
    → length batch + n ≡ limit
    → claim_bulk n p.tasks ≡ some result
    → Ends p q running batch limit result
unfolding claim_bulk
bulk-Accesses zero p result q running batch limit size e =
    subst (Ends p q running batch limit) (some-injective _ _ e)
      (nothing_more p q running batch limit (fills_up p q running batch limit (omega arith)))
bulk-Accesses (suc n) p result q running batch limit size e = elim (Option-cases (front p.tasks)) [
  | inl empty_slot ↦ ground (arith, e, empty_slot)
  | inr (item, at) ↦ elim (Bool-cases item.bulk) [
    | inr single ↦
        let stops : claim_bulk (suc n) p.tasks ≡ some (p.tasks, []) =
          rw (at, single, claim_bulk) refl in
        subst (Ends p q running batch limit) (some-injective _ _ (sym stops ∙ e)) (
          nothing_more p q running batch limit
            (meets_single p q running batch limit item (omega arith) at single))
    | inl bulk ↦ elim (Option-cases (claim_bulk n (reset_head p.tasks))) [
      | inl empty_slot ↦ ground (arith, e, at, bulk, empty_slot)
      | inr (rest, later) ↦
          let goes_on : claim_bulk (suc n) p.tasks ≡ some (rest.0, item ∷ rest.1) =
            ground (arith, at, bulk, later) in
          let p' = record p { tasks = reset_head p.tasks } in
          let longer = length-append batch (item ∷ []) in
          let loop =
            bulk-Accesses n p' rest q running (batch ++ (item ∷ [])) limit (omega (arith, longer))
              later in
          subst (Ends p q running batch limit) (some-injective _ _ (sym goes_on ∙ e)) (
            first (takes_bulk p q running batch limit item (omega arith) at bulk) (
              subst
                (λ l.
                  Accesses (machine p' q (taking_bulk (batch ++ (item ∷ [])) limit) running)
                    (machine (record p { tasks = rest.0 }) q (taken l) running))
                (append_assoc batch (item ∷ []) rest.1) loop))
    ]
  ]
]

-- The section of a worker that finds a task queued is the function `claim`: if that gives a pool and a
-- batch, then the accesses of the consumer, one after the other and with nobody in between, lead to the
-- same pool, with the section over and the size of the batch among those claimed. So it is whatever a
-- producer is doing meanwhile, as long as it does not access anything.
pub claim-Accesses :
    (p : Pool) (result : Pool × List TaskItem) (q : Producer) (running : List ℕ)
    → claim p ≡ some result
    → (pending_from_state p.queue_state == 0) ≡ false
    → Accesses (machine p q absent running) (machine result.0 q absent (length result.1 ∷ running))
unfolding claim claim_seen
claim-Accesses p result q running e some_task = elim (Option-cases (front p.tasks)) [
  | inl empty_slot ↦ ground (arith, e, some_task, empty_slot)
  | inr (item, at) ↦
      let pending = pending_from_state p.queue_state in
      let seen = looks p q running item some_task at in
      elim (Bool-cases item.bulk) [
        | inr single ↦
            let r = record p { tasks = reset_head p.tasks } in
            let done : claim p ≡ some (count r (active_unit - 1), item ∷ []) =
              ground (arith, some_task, at, single) in
            subst
              (λ c.
                Accesses (machine p q absent running) (machine c.0 q absent (length c.1 ∷ running)))
              (some-injective _ _ (sym done ∙ e))
              (first
                (subst
                  (λ b. Access (machine p q absent running) (machine p q (look b pending) running))
                  single seen)
                (first (takes_one p q running item at)
                  (first (claims r q running (item ∷ [])) over)))
        | inl bulk ↦ elim (Option-cases (claim_bulk (min bulk_claim_size pending) p.tasks)) [
          | inl empty_slot ↦ ground (arith, e, some_task, at, bulk, empty_slot)
          | inr (ring, loop) ↦
              let r = record p { tasks = ring.0 } in
              let done : claim p ≡ some (count r (length ring.1 * (active_unit - 1)), ring.1) =
                ground (arith, some_task, at, bulk, loop) in
              subst
                (λ c.
                  Accesses (machine p q absent running)
                    (machine c.0 q absent (length c.1 ∷ running)))
                (some-injective _ _ (sym done ∙ e))
                (first
                  (subst
                    (λ b.
                      Access (machine p q absent running) (machine p q (look b pending) running))
                    bulk seen)
                  (joined
                    (bulk-Accesses (min bulk_claim_size pending) p ring q running []
                      (min bulk_claim_size pending) (omega arith) loop)
                    (first (claims r q running ring.1) over)))
        ]
      ]
]

-- The same for a round of `dispatch_bulk`.
pub refill-Accesses :
    (p q : Pool) (n : ℕ) (callbacks : List (Outcome OperationResult)) (c : Consumer)
    (running : List ℕ)
    → refill p callbacks ≡ some (q, n)
    → 1 ≤ n
    → Accesses (machine p absent c running) (machine q absent c running)
unfolding refill
refill-Accesses p q n callbacks c running e some_room =
    elim (Bool-cases (is_stopping_state p.queue_state)) [
      | inl y ↦ ground (arith, e, y)
      | inr open_yet ↦
          let available = p.tasks.capacity - pending_from_state p.queue_state in
          let k = min (length callbacks) available in
          let items = map bulk_item (take k callbacks) in
          let r = record p { tasks = emplace_all p.tasks items } in
          let done : refill p callbacks ≡ some (count r k, k) = rw (open_yet) refl in
          let same = some-injective _ _ (sym done ∙ e) in
          let size : k ≡ n = ap (λ x. x.1) same in
          let many : length items ≡ k =
            omega (arith, length-map bulk_item (take k callbacks), length-take k callbacks) in
          let space : (available == 0) ≡ false = ground (arith, size, some_room) in
          subst (λ x. Accesses (machine p absent c running) (machine x.0 absent c running)) same
            (first (begins_refill p c running callbacks open_yet space) (
              fill-Accesses p items [] c running (machine (count r k) absent c running) (
                first
                  (subst
                    (λ j.
                      Access (machine r (filling [] items) c running)
                        (machine (count r j) absent c running))
                    many (counts r items c running))
                  over)))
    ]
