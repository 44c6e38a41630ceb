-- ===== src/Threads/WakeUps.antt =====
-- How a worker of include/vosp/worker_pool.hpp waits for a task, access by access: the loop of `run` on
-- `queue_state_` and `waiting_workers_`, and the threads that notify it, between what they queue and
-- their call of `notify_one` or `notify_all`. No producer waits for space here.
pub mod Pending
pub mod Watch
pub mod Steps
pub mod Progress
mod Tests
use micro_error_framework.Prelude.{
  ℕ, zero, suc, ◌+◌, ◌-◌, ◌*◌, ◌/◌, ◌%◌, ◌^◌, ◌≤◌, ◌<◌, min, compare, Ordering, bit_xor, String,
  ◌≡◌, refl, sym, ap, ap₂, subst, fun_ext, ◌∙◌, ◌≡⟨◌⟩◌, ◌∎, ◌≢◌, ◌↔◌, ◌⊎◌, inl, inr, Bool, true,
  false, not, ◌&&◌, ◌||◌, Option, none, some, List, [], ◌∷◌, ◌++◌, map, append-nil, append_assoc,
  arith, dec_lt, ℕ_discrete, ltb, leb, ◌==◌, if◌then◌else◌, ltb→lt, lt→ltb, leb→le, ==_iff, ==_refl,
  Bool-cases, Option-cases, is_some, Text, codes, text_eq, text_eq_refl, text_eq_iff, length,
  get_elem?, set, take, drop, length-append, length-set, get_elem?-set_self, get_elem?-set_ne,
  length-take, length-drop, take-append-drop, length-map, All, All-map, All-implies,
  get_elem?-bound, get_elem?-map, All-set, All-get,
}
use micro_error_framework.Pool.Word.{size_mod, pending_from_state, is_stopping_state}
use micro_error_framework.Pool.{Pool}
use micro_error_framework.Threads.{
  idle, System, Step, submits, refills, claims, executes, finishes, exits, clears, stops_accepting,
  requests_stop, takes_workers, start,
}

-- Where a worker is: outside of the waiting loop; in it, before it counts itself in `waiting_workers_`,
-- before its second load, before `wait` compares the word with the one observed, blocked in `wait`, and
-- before it takes itself off the count.
pub data Stage : Type 0 where
  outside entering counted leaving : Stage
  comparing blocked : ℕ → Stage

-- A thread that has queued tasks and not yet loaded `waiting_workers_`, or has still to notify.
-- `single` says `notify_one`, and otherwise it is `notify_all`.
pub data Waker : Type 0 where
  queued notifying : Bool → Waker

pub record Handshake : Type 0 where
  pub system : System
  pub stages : List Stage
  pub waiting_workers : ℕ
  pub wakers : List Waker

-- The second load.
unfoldable pub observed : ℕ → Stage
observed state =
    if (pending_from_state state == 0) && not (is_stopping_state state)
    then comparing state
    else leaving

-- `wait`, which a worker also goes back to when it is woken
unfoldable pub compared : ℕ → ℕ → Stage
compared state word = if state == word then blocked word else leaving

abbrev pub woken_up : Stage → Stage
woken_up outside = outside
woken_up entering = entering
woken_up counted = counted
woken_up leaving = leaving
woken_up (comparing word) = comparing word
woken_up (blocked word) = comparing word

abbrev pub IsBlocked : Stage → Type 0
IsBlocked outside = ⊥
IsBlocked entering = ⊥
IsBlocked counted = ⊥
IsBlocked leaving = ⊥
IsBlocked (comparing word) = ⊥
IsBlocked (blocked word) = Unit {0}

-- `notify_one`: one blocked worker or more; nobody only if nobody blocks.
pub data Woken : List Stage → List Stage → Type 0 where
  nobody : {stages : List Stage} → All (λ x. IsBlocked x → ⊥) stages → Woken stages stages
  wakes :
      {stages : List Stage} (i word : ℕ)
      → get_elem? stages i ≡ some (blocked word)
      → Woken stages (set stages i (comparing word))
  wakes_more : {a b c : List Stage} → Woken a b → Woken b c → Woken a c

-- What a step leaves to be notified. The load of `waiting_workers_` follows the tasks of a submission;
-- `cancel_pending` notifies without one.
unfoldable pub raises : {s t : System} → Step s t → List Waker
raises (submits item p e) = queued true ∷ []
raises (refills callbacks p n e) = if n == 0 then [] else queued (n == 1) ∷ []
raises (claims i seen p items at few e ne) = []
raises (executes i item items n at) = []
raises (finishes i n at) = []
raises (exits i at e stops) = []
raises (clears p n e) = if n == 0 then [] else notifying false ∷ []
raises stops_accepting = []
raises (requests_stop h) = []
raises (takes_workers h) = []

-- A worker that makes the step is outside of the waiting loop.
abbrev pub IsOutside : List Stage → {s t : System} → Step s t → Type 0
IsOutside stages (submits item p e) = Unit {0}
IsOutside stages (refills callbacks p n e) = Unit {0}
IsOutside stages (claims i seen p items at few e ne) = get_elem? stages i ≡ some outside
IsOutside stages (executes i item items n at) = get_elem? stages i ≡ some outside
IsOutside stages (finishes i n at) = get_elem? stages i ≡ some outside
IsOutside stages (exits i at e stops) = get_elem? stages i ≡ some outside
IsOutside stages (clears p n e) = Unit {0}
IsOutside stages stops_accepting = Unit {0}
IsOutside stages (requests_stop h) = Unit {0}
IsOutside stages (takes_workers h) = Unit {0}

pub data HandshakeStep (s : Handshake) : Handshake → Type 0 where
  acts :
      {t : System} (st : Step s.system t)
      → IsOutside s.stages st
      → HandshakeStep s (record s { system = t; wakers = raises st ++ s.wakers })
  -- the test of the loop
  enters :
      (i : ℕ)
      → get_elem? s.system.workers i ≡ some idle
      → get_elem? s.stages i ≡ some outside
      → pending_from_state s.system.pool.queue_state ≡ 0
      → is_stopping_state s.system.pool.queue_state ≡ false
      → HandshakeStep s (record s { stages = set s.stages i entering })
  -- `waiting_workers_.fetch_add(1)`
  counts :
      (i : ℕ)
      → get_elem? s.stages i ≡ some entering
      → HandshakeStep s (record s {
        stages = set s.stages i counted;
        waiting_workers = (s.waiting_workers + 1) % size_mod;
      })
  observes :
      (i : ℕ)
      → get_elem? s.stages i ≡ some counted
      → HandshakeStep s (record s { stages = set s.stages i (observed s.system.pool.queue_state) })
  compares :
      (i word : ℕ)
      → get_elem? s.stages i ≡ some (comparing word)
      → HandshakeStep s
          (record s { stages = set s.stages i (compared s.system.pool.queue_state word) })
  -- `waiting_workers_.fetch_sub(1)`
  leaves :
      (i : ℕ)
      → get_elem? s.stages i ≡ some leaving
      → HandshakeStep s (record s {
        stages = set s.stages i outside;
        waiting_workers = (s.waiting_workers + (size_mod - 1)) % size_mod;
      })
  -- `waiting_workers_.load()`
  loads :
      (before after : List Waker) (single : Bool)
      → s.wakers ≡ before ++ (queued single ∷ after)
      → HandshakeStep s (record s {
        wakers = before ++ (if s.waiting_workers == 0 then after else notifying single ∷ after);
      })
  notifies_one :
      (before after : List Waker) (stages : List Stage)
      → s.wakers ≡ before ++ (notifying true ∷ after)
      → Woken s.stages stages
      → HandshakeStep s (record s { stages = stages; wakers = before ++ after })
  notifies_all :
      (before after : List Waker)
      → s.wakers ≡ before ++ (notifying false ∷ after)
      → HandshakeStep s (record s { stages = map woken_up s.stages; wakers = before ++ after })
  -- the end of `signal_shutdown`, before its `notify_all`
  announces :
      is_stopping_state s.system.pool.queue_state ≡ true
      → HandshakeStep s (record s { wakers = notifying false ∷ s.wakers })

abbrev pub all_outside : ℕ → List Stage
all_outside zero = []
all_outside (suc n) = outside ∷ all_outside n

abbrev pub begun : Pool → Handshake
begun p = record {
  system = start p;
  stages = all_outside p.worker_count;
  waiting_workers = 0;
  wakers = [];
}

pub data HandshakeReach (p : Pool) : Handshake → Type 0 where
  here : HandshakeReach p (begun p)
  next : {s t : Handshake} → HandshakeReach p s → HandshakeStep s t → HandshakeReach p t
