-- ===== src/Pool/Bulk.antt =====
-- `dispatch_bulk` of include/vosp/worker_pool.hpp: its rounds, each on the pool as it is when the round
-- takes `producer_mutex_`. Other threads act between the rounds; where the queue is full or the pool
-- is stopping, `wait_for_space` returns what the section under the lock finds again.
mod Tests
use micro_error_framework.Prelude.{
  ℕ, zero, suc, ◌+◌, ◌-◌, ◌*◌, ◌/◌, ◌%◌, ◌^◌, ◌≤◌, ◌<◌, min, compare, Ordering, bit_xor, String,
  ◌≡◌, refl, sym, ap, ap₂, subst, fun_ext, ◌∙◌, ◌≡⟨◌⟩◌, ◌∎, ◌≢◌, ◌↔◌, ◌⊎◌, inl, inr, Bool, true,
  false, not, ◌&&◌, ◌||◌, Option, none, some, List, [], ◌∷◌, ◌++◌, map, append-nil, append_assoc,
  arith, dec_lt, ℕ_discrete, ltb, leb, ◌==◌, if◌then◌else◌, ltb→lt, lt→ltb, leb→le, ==_iff, ==_refl,
  Bool-cases, Option-cases, is_some, Text, codes, text_eq, text_eq_refl, text_eq_iff, length,
  get_elem?, set, take, drop, length-append, length-set, get_elem?-set_self, get_elem?-set_ne,
  length-take, length-drop, take-append-drop, length-map, All, All-map, All-implies,
}
use mathlib.Core.Option.{some-injective}
use micro_error_framework.Error.{OperationResult, Outcome}
use micro_error_framework.Pool.Task.{TaskItem, bulk_item}
use micro_error_framework.Pool.{Pool, refill}
use micro_error_framework.Pool.Refine.{IsValid, RefillSpec, refill_lem}

-- The pools after the rounds, the number of callbacks accepted, and whether the call has returned.
pub record Bulk : Type 0 where
  pub pools : List Pool
  pub accepted : ℕ
  pub returns : Bool

-- `dispatch_bulk`: after the last of the rounds given it goes on waiting.
unfoldable pub dispatch_bulk : List Pool → List (Outcome OperationResult) → Bulk
unfolding refill
dispatch_bulk rounds [] = record { pools = []; accepted = 0; returns = true }
dispatch_bulk [] (c ∷ cs) = record { pools = []; accepted = 0; returns = false }
dispatch_bulk (p ∷ rounds) (c ∷ cs) = elim (refill p (c ∷ cs)) [
  | none ↦ record { pools = []; accepted = 0; returns = true }
  | some (q, enqueued) ↦
      let rest = dispatch_bulk rounds (drop enqueued (c ∷ cs)) in
      record { pools = q ∷ rest.pools; accepted = enqueued + rest.accepted; returns = rest.returns }
]

-- A pool as a round finds it.
pub record Round : Type 0 where
  pub pool : Pool
  pub queue : List TaskItem
  pub active : ℕ
  pub stopping : Bool
  pub valid : IsValid pool queue active stopping

abbrev pub pools_of : List Round → List Pool
pools_of [] = []
pools_of (r ∷ rs) = r.pool ∷ pools_of rs

-- Callbacks that went to the rounds one after the other, each at the end of the round's queue.
pub data Dealt : List Round → List (Outcome OperationResult) → List Pool → Type 0 where
  nothing : {rs : List Round} → Dealt rs [] []
  deals :
      {rs : List Round} {later : List (Outcome OperationResult)} {qs : List Pool} (r : Round)
      (now : List (Outcome OperationResult)) (q : Pool)
      → IsValid q (r.queue ++ map bulk_item now) r.active false
      → Dealt rs later qs
      → Dealt (r ∷ rs) (now ++ later) (q ∷ qs)

-- Some round finds the pool stopping.
abbrev pub IsStopped : List Round → Type 0
IsStopped [] = ⊥
IsStopped (r ∷ rs) = (r.stopping ≡ true) ⊎ IsStopped rs

pub record BulkSpec (rs : List Round) (callbacks : List (Outcome OperationResult)) (b : Bulk)
    : Type 0 where
  pub within : b.accepted ≤ length callbacks
  pub dealt : Dealt rs (take b.accepted callbacks) b.pools
  pub ended : b.returns ≡ true → (b.accepted ≡ length callbacks) ⊎ IsStopped rs

take-split {ℓ} :
    {A : Type ℓ} (n m : ℕ) (xs : List A)
    → n ≤ length xs
    → take (n + m) xs ≡ take n xs ++ take m (drop n xs)
take-split zero m xs h = let same : 0 + m ≡ m = omega arith in ap (λ k. take k xs) same
take-split (suc n) m [] h = absurd (omega arith)
take-split (suc n) m (x ∷ xs) h =
    let same : suc n + m ≡ suc (n + m) = omega arith in
    ap (λ k. take k (x ∷ xs)) same ∙ ap (λ l. x ∷ l) (take-split n m xs (omega arith))

Refill-cases :
    (r : Round) (callbacks : List (Outcome OperationResult))
    → ((refill r.pool callbacks ≡ none) × (r.stopping ≡ true))
      ⊎ ((q : Pool) × (n : ℕ) × (refill r.pool callbacks ≡ some (q, n))
          × (r.stopping ≡ false)
          × (n ≡ min (length callbacks) (r.pool.tasks.capacity - length r.queue))
          × IsValid q (r.queue ++ map bulk_item (take n callbacks)) r.active false)
Refill-cases r callbacks =
    cases (refill r.pool callbacks) refl
      (refill_lem r.pool r.queue r.active r.stopping callbacks r.valid)
  where
    cases :
        (result : Option (Pool × ℕ))
        → refill r.pool callbacks ≡ result
        → RefillSpec r.pool r.queue r.active r.stopping callbacks result
        → ((refill r.pool callbacks ≡ none) × (r.stopping ≡ true))
          ⊎ ((q : Pool) × (n : ℕ) × (refill r.pool callbacks ≡ some (q, n))
              × (r.stopping ≡ false)
              × (n ≡ min (length callbacks) (r.pool.tasks.capacity - length r.queue))
              × IsValid q (r.queue ++ map bulk_item (take n callbacks)) r.active false)
    cases none e h = inl (e, h)
    cases (some (q, n)) e h = inr (q, n, e, h.0, h.1, h.2)

-- Over any rounds, in which other threads may have done anything to the pool in between, as long as
-- each finds it valid: `dispatch_bulk` accepts a prefix of the callbacks and deals it to the rounds in
-- order, each part to the end of the queue of its round; and it returns only when it has accepted all
-- of them or a round found the pool stopping.
pub dispatch_bulk_lem :
    (rs : List Round) (callbacks : List (Outcome OperationResult))
    → BulkSpec rs callbacks (dispatch_bulk (pools_of rs) callbacks)
unfolding dispatch_bulk
dispatch_bulk_lem rs [] = record { within = omega arith; dealt = nothing; ended = λ h. inl refl }
dispatch_bulk_lem [] (c ∷ cs) = record { within = omega arith; dealt = nothing; ended = λ h. cc }
dispatch_bulk_lem (r ∷ rs) (c ∷ cs) = elim (Refill-cases r (c ∷ cs)) [
  | inl (e, stops) ↦
      rw (e, dispatch_bulk)
        (record { within = omega arith; dealt = nothing; ended = λ h. inr (inl stops) })
  | inr (q, n, e, runs, size, valid) ↦
      let rest = dispatch_bulk_lem rs (drop n (c ∷ cs)) in
      let k = (dispatch_bulk (pools_of rs) (drop n (c ∷ cs))).accepted in
      let left = length-drop n (c ∷ cs) in
      rw (e, dispatch_bulk)
        (record {
          within = omega (arith, rest.within, left);
          dealt =
              subst
                (λ l. Dealt (r ∷ rs) l (q ∷ (dispatch_bulk (pools_of rs) (drop n (c ∷ cs))).pools))
                (sym (take-split n k (c ∷ cs) (omega arith)))
                (deals r (take n (c ∷ cs)) q valid rest.dealt);
          ended = λ h. elim (rest.ended h) [
            | inl all ↦ inl (omega (arith, all, left, size))
            | inr stops ↦ inr (inr stops)
          ];
        })
]

-- A round in which the pool takes tasks.
abbrev pub HasRoom : Round → Type 0
HasRoom r = (r.stopping ≡ false) × (length r.queue < r.pool.tasks.capacity)

-- If every round finds the pool running and with a free slot, as many rounds as there are callbacks
-- are enough: `dispatch_bulk` returns, and has accepted all of them.
pub dispatch_bulk-returns :
    (rs : List Round) (callbacks : List (Outcome OperationResult))
    → All HasRoom rs
    → length callbacks ≤ length rs
    → ((dispatch_bulk (pools_of rs) callbacks).returns ≡ true)
      × ((dispatch_bulk (pools_of rs) callbacks).accepted ≡ length callbacks)
unfolding dispatch_bulk
dispatch_bulk-returns rs [] h l = (refl, refl)
dispatch_bulk-returns [] (c ∷ cs) h l = absurd (omega arith)
dispatch_bulk-returns (r ∷ rs) (c ∷ cs) h l = elim (Refill-cases r (c ∷ cs)) [
  | inl (e, stops) ↦ absurd (ground (arith, h.0.0, stops))
  | inr (q, n, e, runs, size, valid) ↦
      let left = length-drop n (c ∷ cs) in
      let space = h.0.1 in
      let rest =
        dispatch_bulk-returns rs (drop n (c ∷ cs)) h.1 (omega (arith, size, space, left)) in
      rw (e, dispatch_bulk) (rest.0, omega (arith, rest.1, left, size))
]
