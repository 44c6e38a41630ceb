-- ===== src/Threads/Waiting/Accounts.antt =====
-- What `waiting_for_idle_` and `completion_epoch_` of include/vosp/worker_pool.hpp say of the threads in
-- `wait`.
use micro_error_framework.Prelude.{
  ℕ, ◌+◌, ◌%◌, ◌≤◌, ◌≡◌, refl, inl, inr, Bool, true, false, some, List, [], ◌∷◌, map, arith, ◌==◌,
  Bool-cases, get_elem?, set, All, All-map, All-implies, All-set, All-get,
}
use micro_error_framework.Pool.Word.{fetch_add, fetch_sub, size_mod}
use micro_error_framework.Pool.{Pool, is_idle}
use micro_error_framework.Threads.Total.{total, total-set, total-ge}
use micro_error_framework.Threads.Invariant.{Inv, IsFresh, start-Inv}
use micro_error_framework.Threads.Steps.{Step-Inv}
use micro_error_framework.Threads.Waiting.{
  Waiter, testing, entering, counted, loaded, comparing, blocked, leaving, returned, Notifier,
  cancelled, asked, counting, telling, finished, Waiting, waiter_next, waiter_counts, woken,
  notifier_does, WaitingStep, acts, calls, waits, unblocks, notifies, WaitingReach, here, next,
}

-- The thread has added itself to `waiting_for_idle_`.
abbrev pub is_counted : Waiter → ℕ
is_counted testing = 0
is_counted entering = 0
is_counted counted = 1
is_counted (loaded e) = 1
is_counted (comparing e) = 1
is_counted (blocked e) = 1
is_counted leaving = 1
is_counted returned = 0

-- What it has loaded is no later epoch than the one now.
abbrev pub IsPast : ℕ → Waiter → Type 0
IsPast raised (loaded e) = e ≤ raised
IsPast raised (comparing e) = e ≤ raised
IsPast raised (blocked e) = e ≤ raised
IsPast raised _ = Unit {0}

pub record Accounts (p : Pool) (s : Waiting) : Type 0 where
  pub inv : Inv p s.system
  pub counter : s.waiting_for_idle ≡ total is_counted s.waiters % size_mod
  pub epoch : s.completion_epoch ≡ s.raised % size_mod
  pub past : All (IsPast s.raised) s.waiters

counted-woken : (ws : List Waiter) → total is_counted (map woken ws) ≡ total is_counted ws
counted-woken [] = refl
counted-woken (w ∷ ws) = omega (arith, same w, counted-woken ws)
  where
    same : (w : Waiter) → is_counted (woken w) ≡ is_counted w
    same testing = refl
    same entering = refl
    same counted = refl
    same (loaded e) = refl
    same (comparing e) = refl
    same (blocked e) = refl
    same leaving = refl
    same returned = refl

-- The counter after a thread's access.
counter_after :
    (idle : Bool) (epoch n : ℕ) (ws : List Waiter) (i : ℕ) (w : Waiter)
    → get_elem? ws i ≡ some w
    → n ≡ total is_counted ws % size_mod
    → waiter_counts w n ≡ total is_counted (set ws i (waiter_next idle epoch w)) % size_mod
unfolding waiter_counts waiter_next fetch_add fetch_sub
counter_after true epoch n ws i testing at h =
    omega (arith, h, total-set is_counted ws i testing returned at)
counter_after false epoch n ws i testing at h =
    omega (arith, h, total-set is_counted ws i testing entering at)
counter_after idle epoch n ws i entering at h =
    omega (arith, h, total-set is_counted ws i entering counted at)
counter_after idle epoch n ws i counted at h =
    omega (arith, h, total-set is_counted ws i counted (loaded epoch) at)
counter_after true epoch n ws i (loaded e) at h =
    omega (arith, h, total-set is_counted ws i (loaded e) leaving at)
counter_after false epoch n ws i (loaded e) at h =
    omega (arith, h, total-set is_counted ws i (loaded e) (comparing e) at)
counter_after idle epoch n ws i (comparing e) at h = elim (Bool-cases (e == epoch)) [
  | inl y ↦ rw (y) (omega (arith, h, total-set is_counted ws i (comparing e) (blocked e) at))
  | inr y ↦ rw (y) (omega (arith, h, total-set is_counted ws i (comparing e) leaving at))
]
counter_after idle epoch n ws i (blocked e) at h =
    omega (arith, h, total-set is_counted ws i (blocked e) (blocked e) at)
counter_after idle epoch n ws i leaving at h =
    omega
      (arith, h, total-set is_counted ws i leaving testing at, total-ge is_counted ws i leaving at)
counter_after idle epoch n ws i returned at h =
    omega (arith, h, total-set is_counted ws i returned returned at)

IsPast-next :
    (idle : Bool) (epoch raised : ℕ) (w : Waiter)
    → epoch ≤ raised
    → IsPast raised w
    → IsPast raised (waiter_next idle epoch w)
unfolding waiter_next
IsPast-next true epoch raised testing h a = tt
IsPast-next false epoch raised testing h a = tt
IsPast-next idle epoch raised entering h a = tt
IsPast-next idle epoch raised counted h a = h
IsPast-next true epoch raised (loaded e) h a = tt
IsPast-next false epoch raised (loaded e) h a = a
IsPast-next idle epoch raised (comparing e) h a = elim (Bool-cases (e == epoch)) [
  | inl y ↦ rw (y) a
  | inr y ↦ rw (y) tt
]
IsPast-next idle epoch raised (blocked e) h a = a
IsPast-next idle epoch raised leaving h a = tt
IsPast-next idle epoch raised returned h a = tt

IsPast-later : (raised : ℕ) (w : Waiter) → IsPast raised w → IsPast (raised + 1) w
IsPast-later raised testing a = tt
IsPast-later raised entering a = tt
IsPast-later raised counted a = tt
IsPast-later raised (loaded e) a = omega arith
IsPast-later raised (comparing e) a = omega arith
IsPast-later raised (blocked e) a = omega arith
IsPast-later raised leaving a = tt
IsPast-later raised returned a = tt

IsPast-woken : (raised : ℕ) (w : Waiter) → IsPast raised w → IsPast raised (woken w)
IsPast-woken raised testing a = tt
IsPast-woken raised entering a = tt
IsPast-woken raised counted a = tt
IsPast-woken raised (loaded e) a = a
IsPast-woken raised (comparing e) a = a
IsPast-woken raised (blocked e) a = a
IsPast-woken raised leaving a = tt
IsPast-woken raised returned a = tt

pub notified-Accounts :
    (p : Pool) (s : Waiting) (m : Notifier) (ns : List Notifier)
    → Accounts p s
    → Accounts p (notifier_does m (record s { notifiers = ns }))
unfolding notifier_does fetch_add
notified-Accounts p s cancelled ns a = record {
  inv = a.inv;
  counter = a.counter;
  epoch = a.epoch;
  past = a.past;
}
notified-Accounts p s asked ns a = record {
  inv = a.inv;
  counter = a.counter;
  epoch = a.epoch;
  past = a.past;
}
notified-Accounts p s counting ns a = record {
  inv = a.inv;
  counter = a.counter;
  epoch = omega (arith, a.epoch);
  past =
      All-implies (IsPast s.raised) (IsPast (s.raised + 1)) (IsPast-later s.raised) s.waiters
        a.past;
}
notified-Accounts p s telling ns a = record {
  inv = a.inv;
  counter = omega (arith, a.counter, counted-woken s.waiters);
  epoch = a.epoch;
  past = All-map (IsPast s.raised) (IsPast s.raised) woken (IsPast-woken s.raised) s.waiters a.past;
}
notified-Accounts p s finished ns a = record {
  inv = a.inv;
  counter = a.counter;
  epoch = a.epoch;
  past = a.past;
}

-- Every step keeps the accounts.
pub WaitingStep-Accounts :
    (p : Pool) (s t : Waiting) → WaitingStep s t → Accounts p s → Accounts p t
WaitingStep-Accounts p s t (acts {t = u} st) a = record {
  inv = Step-Inv p s.system u st a.inv;
  counter = a.counter;
  epoch = a.epoch;
  past = a.past;
}
WaitingStep-Accounts p s t calls a = record {
  inv = a.inv;
  counter = omega (arith, a.counter);
  epoch = a.epoch;
  past = (tt, a.past);
}
WaitingStep-Accounts p s t (waits i w at) a = record {
  inv = a.inv;
  counter =
      counter_after (is_idle s.system.pool) s.completion_epoch s.waiting_for_idle s.waiters i w at
        a.counter;
  epoch = a.epoch;
  past = All-set (IsPast s.raised) s.waiters i _ a.past (
      IsPast-next (is_idle s.system.pool) s.completion_epoch s.raised w (omega (arith, a.epoch))
        (All-get (IsPast s.raised) s.waiters i w a.past at));
}
WaitingStep-Accounts p s t (unblocks i e at) a = record {
  inv = a.inv;
  counter = omega (arith, a.counter, total-set is_counted s.waiters i (blocked e) (comparing e) at);
  epoch = a.epoch;
  past =
      All-set (IsPast s.raised) s.waiters i (comparing e) a.past
        (All-get (IsPast s.raised) s.waiters i (blocked e) a.past at);
}
WaitingStep-Accounts p s t (notifies j m at) a = notified-Accounts p s m _ a

pub WaitingReach-Accounts : (p : Pool) {s : Waiting} → IsFresh p → WaitingReach p s → Accounts p s
WaitingReach-Accounts p f here = record {
  inv = start-Inv p f;
  counter = refl;
  epoch = refl;
  past = tt;
}
WaitingReach-Accounts p f (next {s = s} {t = t} r st) =
    WaitingStep-Accounts p s t st (WaitingReach-Accounts p f r)
