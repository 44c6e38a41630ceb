-- ===== src/Threads/Waiting/Kept.antt =====
-- No wake-up of `wait` of include/vosp/worker_pool.hpp is lost: every step leaves those who block with
-- a reason to, or somebody on the way who will wake them.
use micro_error_framework.Prelude.{
  ℕ, ◌+◌, ◌%◌, ◌≤◌, ◌<◌, ◌≡◌, refl, ◌≢◌, ◌⊎◌, inl, inr, false, some, List, [], ◌∷◌, arith, ◌==◌,
  ==_iff, Bool-cases, length, get_elem?, set, length-set, length-map, All-map, All-implies, All-set,
  All-get,
}
use micro_error_framework.Pool.Word.{fetch_add, size_mod}
use micro_error_framework.Pool.{Pool, is_idle, active_tasks}
use micro_error_framework.Threads.Total.{total, total-set, total-append}
use micro_error_framework.Threads.Invariant.{IsFresh}
use micro_error_framework.Threads.Waiting.{
  Waiter, testing, entering, counted, loaded, comparing, blocked, leaving, returned, Notifier,
  cancelled, asked, counting, telling, finished, Waiting, called, woken, notifier_next,
  notifier_does, notify, WaitingStep, acts, calls, waits, unblocks, notifies, WaitingReach, here,
  next,
}
use micro_error_framework.Threads.Waiting.Turn.{under_way, turned_idle}
use micro_error_framework.Threads.Waiting.Accounts.{is_counted, Accounts, WaitingReach-Accounts}
use micro_error_framework.Threads.Waiting.Covered.{
  is_telling, AreCovered, IsCovered-mono, IsCovered-next, IsCovered-uncounted, IsCovered-raised,
  IsCovered-woken,
}

-- Setting a notifier to one that counts the same.
covered_kept :
    (s : Waiting) (j : ℕ) (m m' : Notifier)
    → get_elem? s.notifiers j ≡ some m
    → under_way m ≡ under_way m' ⊎ is_idle s.system.pool ≡ false
    → is_telling m ≡ is_telling m'
    → AreCovered s
    → AreCovered (record s { notifiers = set s.notifiers j m' })
covered_kept s j m m' at same telling_same c =
    let way = total-set under_way s.notifiers j m m' at in
    let tell = total-set is_telling s.notifiers j m m' at in
    All-implies _ _
      (IsCovered-mono (is_idle s.system.pool) (is_idle s.system.pool) s.completion_epoch
        (total under_way s.notifiers) _ (total is_telling s.notifiers) _ (λ h. inl h)
        (λ h now. elim same [ inl e ↦ omega (arith, way) | inr busy ↦ cc ]) (omega (arith, tell)))
      s.waiters c

idle_active : (p : Pool) → active_tasks p ≢ 0 → is_idle p ≡ false
unfolding active_tasks is_idle
idle_active p h = ground arith

pub counted-le : (ws : List Waiter) → total is_counted ws ≤ length ws
counted-le [] = omega arith
counted-le (w ∷ ws) = omega (arith, one w, counted-le ws)
  where
    one : (w : Waiter) → is_counted w ≤ 1
    one testing = omega arith
    one entering = omega arith
    one counted = omega arith
    one (loaded e) = omega arith
    one (comparing e) = omega arith
    one (blocked e) = omega arith
    one leaving = omega arith
    one returned = omega arith

notified-covered :
    (p : Pool) (s : Waiting) (j : ℕ) (m : Notifier)
    → get_elem? s.notifiers j ≡ some m
    → Accounts p s
    → length s.waiters < size_mod
    → AreCovered s
    → (notify s j m).raised < size_mod
    → AreCovered (notify s j m)
unfolding notifier_does notifier_next fetch_add
notified-covered p s j cancelled at a few c low =
    elim (Bool-cases (active_tasks s.system.pool == 0)) [
      | inl y ↦ rw (y) (covered_kept s j cancelled asked at (inl refl) refl c)
      | inr y ↦ rw (y) (
          covered_kept s j cancelled finished at
            (inr (idle_active s.system.pool (λ e. ground arith))) refl c)
    ]
notified-covered p s j asked at a few c low = elim (Bool-cases (s.waiting_for_idle == 0)) [
  | inl y ↦
      let none_counted : total is_counted s.waiters ≡ 0 =
        omega (arith, (==_iff s.waiting_for_idle 0).0 y, a.counter, few, counted-le s.waiters) in
      rw (y) (
        IsCovered-uncounted (is_idle s.system.pool) s.completion_epoch
          (total under_way (set s.notifiers j finished))
          (total is_telling (set s.notifiers j finished)) s.waiters none_counted)
  | inr y ↦ rw (y) (covered_kept s j asked counting at (inl refl) refl c)
]
notified-covered p s j counting at a few c low =
    let told = total-set is_telling s.notifiers j counting telling at in
    All-implies _ _
      (IsCovered-raised (is_idle s.system.pool) s.raised ((s.completion_epoch + 1) % size_mod)
        (total under_way (set s.notifiers j telling)) (total is_telling (set s.notifiers j telling))
        (omega (arith, a.epoch, low)) (omega (arith, told)))
      s.waiters a.past
notified-covered p s j telling at a few c low =
    let way = total-set under_way s.notifiers j telling finished at in
    All-map _ _ woken
      (IsCovered-woken (is_idle s.system.pool) s.completion_epoch (total under_way s.notifiers)
        (total under_way (set s.notifiers j finished)) (total is_telling s.notifiers)
        (total is_telling (set s.notifiers j finished)) (omega (arith, way)))
      s.waiters c
notified-covered p s j finished at a few c low =
    covered_kept s j finished finished at (inl refl) refl c

covered_step :
    (p : Pool) (s t : Waiting)
    → WaitingStep s t
    → p.worker_count ≤ 127
    → Accounts p s
    → length s.waiters < size_mod
    → t.raised < size_mod
    → AreCovered s
    → AreCovered t
covered_step p s t (acts {t = u} st) few a short low c =
    let grown = total-append under_way (called st) s.notifiers in
    let told = total-append is_telling (called st) s.notifiers in
    All-implies _ _
      (IsCovered-mono (is_idle s.system.pool) (is_idle u.pool) s.completion_epoch
        (total under_way s.notifiers) _ (total is_telling s.notifiers) _
        (λ now. elim (turned_idle p s.system u st a.inv few now) [
          | inl before ↦ inl before
          | inr some_way ↦ inr (omega (arith, grown))
        ])
        (λ h now. omega (arith, grown)) (omega (arith, told)))
      s.waiters c
covered_step p s t calls few a short low c = (tt, c)
covered_step p s t (waits i w at) few a short low c =
    All-set _ s.waiters i _ c (
      IsCovered-next (is_idle s.system.pool) s.completion_epoch _ _ w
        (All-get _ s.waiters i w c at))
covered_step p s t (unblocks i e at) few a short low c =
    All-set _ s.waiters i (comparing e) c (All-get _ s.waiters i (blocked e) c at).0
covered_step p s t (notifies j m at) few a short low c = notified-covered p s j m at a short c low

waiters-le : (s t : Waiting) → WaitingStep s t → length s.waiters ≤ length t.waiters
unfolding notifier_does
waiters-le s t (acts st) = omega arith
waiters-le s t calls = omega arith
waiters-le s t (waits i w at) = omega (arith, length-set s.waiters i _)
waiters-le s t (unblocks i e at) = omega (arith, length-set s.waiters i (comparing e))
waiters-le s t (notifies j cancelled at) = omega arith
waiters-le s t (notifies j asked at) = omega arith
waiters-le s t (notifies j counting at) = omega arith
waiters-le s t (notifies j telling at) = omega (arith, length-map woken s.waiters)
waiters-le s t (notifies j finished at) = omega arith

raised-le : (s t : Waiting) → WaitingStep s t → s.raised ≤ t.raised
unfolding notifier_does
raised-le s t (acts st) = omega arith
raised-le s t calls = omega arith
raised-le s t (waits i w at) = omega arith
raised-le s t (unblocks i e at) = omega arith
raised-le s t (notifies j cancelled at) = omega arith
raised-le s t (notifies j asked at) = omega arith
raised-le s t (notifies j counting at) = omega arith
raised-le s t (notifies j telling at) = omega arith
raised-le s t (notifies j finished at) = omega arith

pub covered :
    (p : Pool) {s : Waiting}
    → IsFresh p
    → p.worker_count ≤ 127
    → WaitingReach p s
    → length s.waiters < size_mod
    → s.raised < size_mod
    → AreCovered s
covered p f few here short low = tt
covered p f few (next {s = s} {t = t} r st) short low =
    let before : length s.waiters < size_mod = omega (arith, waiters-le s t st) in
    covered_step p s t st few (WaitingReach-Accounts p f r) before low
      (covered p f few r before (omega (arith, raised-le s t st)))
