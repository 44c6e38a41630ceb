-- ===== src/Threads/Waiting/Returns.antt =====
-- `wait` of include/vosp/worker_pool.hpp returns from an idle pool, blocked or not.
use micro_error_framework.Prelude.{
  ℕ, ◌+◌, ◌≤◌, ◌<◌, ◌≡◌, refl, sym, ap, subst, ◌∙◌, ◌≢◌, Bool, true, some, arith, ℕ_discrete,
  length, get_elem?, set, length-set, get_elem?-set_self, get_elem?-bound, get_elem?-map, All-get,
}
use micro_error_framework.Pool.Word.{fetch_add, size_mod}
use micro_error_framework.Pool.{Pool, is_idle, active_tasks}
use micro_error_framework.Threads.Total.{total-ge}
use micro_error_framework.Threads.Invariant.{IsFresh}
use micro_error_framework.Threads.Waiting.{
  Waiter, testing, entering, counted, loaded, comparing, blocked, leaving, returned, Notifier,
  cancelled, asked, counting, telling, finished, Waiting, waiter_next, waiter_counts, woken,
  notifier_next, notifier_does, waits, WaitingReach, next,
}
use micro_error_framework.Threads.Waiting.Turn.{under_way}
use micro_error_framework.Threads.Waiting.Accounts.{
  is_counted, IsPast, Accounts, notified-Accounts, WaitingReach-Accounts,
}
use micro_error_framework.Threads.Waiting.Covered.{is_telling, AreCovered}
use micro_error_framework.Threads.Waiting.Kept.{covered, counted-le}
use micro_error_framework.Threads.Waiting.Unblocked.{
  Finishing, arrived, notifier_moves, Returns, total-positive, moves, from_testing, from_leaving,
  from_loaded, from_counted, from_entering, from_comparing,
}

module _ (i : ℕ) where
  -- Thread `i` is blocked, though the pool is idle.
  record IsStuck (p : Pool) (e : ℕ) (s : Waiting) : Type 0 where
    accounts : Accounts p s
    short : length s.waiters < size_mod
    low : s.raised + 1 < size_mod
    idle : is_idle s.system.pool ≡ true
    at : get_elem? s.waiters i ≡ some (blocked e)

  -- One access of thread `j` of those that notify.
  notifies_next :
      (s : Waiting) (j : ℕ) (m m' : Notifier)
      → get_elem? s.notifiers j ≡ some m
      → notifier_next (active_tasks s.system.pool) s.waiting_for_idle m ≡ m'
      → (get_elem? (set s.notifiers j m') j ≡ some m'
          → Returns i (notifier_does m (record s { notifiers = set s.notifiers j m' })))
      → Returns i s
  notifies_next s j m m' at e onward =
      let there = get_elem?-set_self s.notifiers j m' (get_elem?-bound s.notifiers j m at) in
      let (t, path, out) = onward there in
      (
        t,
        notifier_moves j m at (
            subst
              (λ v. Finishing i (notifier_does m (record s { notifiers = set s.notifiers j v })) t)
              (sym e) path),
        out,
      )

  from_telling :
      (s : Waiting) (e j : ℕ)
      → is_idle s.system.pool ≡ true
      → e ≢ s.completion_epoch
      → get_elem? s.waiters i ≡ some (blocked e)
      → get_elem? s.notifiers j ≡ some telling
      → Returns i s
  unfolding notifier_next notifier_does
  from_telling s e j idle other at telling_at =
      notifies_next s j telling finished telling_at refl
        (λ there. from_comparing i _ e idle other (get_elem?-map woken s.waiters i (blocked e) at))

  from_counting :
      (p : Pool) (s : Waiting) (e j : ℕ)
      → IsStuck p e s
      → get_elem? s.notifiers j ≡ some counting
      → Returns i s
  unfolding notifier_next notifier_does fetch_add
  from_counting p s e j b counting_at =
      let past = All-get (IsPast s.raised) s.waiters i (blocked e) b.accounts.past b.at in
      notifies_next s j counting telling counting_at refl (λ there.
        from_telling _ e j b.idle (λ same. absurd (omega (arith, b.accounts.epoch, b.low, past)))
          b.at there)

  from_asked :
      (p : Pool) (s : Waiting) (e j : ℕ)
      → IsStuck p e s
      → get_elem? s.notifiers j ≡ some asked
      → Returns i s
  unfolding notifier_next notifier_does
  from_asked p s e j b asked_at =
      let someone : s.waiting_for_idle ≢ 0 = λ none_left. absurd (
        omega (
          arith,
          b.accounts.counter,
          b.short,
          counted-le s.waiters,
          total-ge is_counted s.waiters i (blocked e) b.at,
        )) in
      notifies_next s j asked counting asked_at (ground arith) (λ there.
        from_counting p _ e j
          (record {
            accounts = notified-Accounts p s asked (set s.notifiers j counting) b.accounts;
            short = b.short;
            low = b.low;
            idle = b.idle;
            at = b.at;
          })
          there)

  from_cancelled :
      (p : Pool) (s : Waiting) (e j : ℕ)
      → IsStuck p e s
      → get_elem? s.notifiers j ≡ some cancelled
      → Returns i s
  unfolding notifier_next notifier_does active_tasks is_idle
  from_cancelled p s e j b cancelled_at =
      notifies_next s j cancelled asked cancelled_at (ground (arith, b.idle)) (λ there.
        from_asked p _ e j
          (record {
            accounts = notified-Accounts p s cancelled (set s.notifiers j asked) b.accounts;
            short = b.short;
            low = b.low;
            idle = b.idle;
            at = b.at;
          })
          there)

  from_notifier :
      (p : Pool) (s : Waiting) (e j : ℕ) (m : Notifier)
      → IsStuck p e s
      → get_elem? s.notifiers j ≡ some m
      → 1 ≤ under_way m
      → Returns i s
  from_notifier p s e j cancelled b at h = from_cancelled p s e j b at
  from_notifier p s e j asked b at h = from_asked p s e j b at
  from_notifier p s e j counting b at h = from_counting p s e j b at
  from_notifier p s e j telling b at h = absurd (omega arith)
  from_notifier p s e j finished b at h = absurd (omega arith)

  telling_of : (m : Notifier) → 1 ≤ is_telling m → m ≡ telling
  telling_of cancelled h = absurd (omega arith)
  telling_of asked h = absurd (omega arith)
  telling_of counting h = absurd (omega arith)
  telling_of telling h = refl
  telling_of finished h = absurd (omega arith)

  from_blocked : (p : Pool) (s : Waiting) (e : ℕ) → IsStuck p e s → AreCovered s → Returns i s
  from_blocked p s e b c =
      let mine = All-get _ s.waiters i (blocked e) c b.at in
      elim (ℕ_discrete e s.completion_epoch) [
        | yes same ↦
            let (j, m, at, h) = total-positive under_way s.notifiers (mine.0 same b.idle) in
            from_notifier p s e j m b at h
        | no other ↦
            let (j, m, at, h) = total-positive is_telling s.notifiers (mine.1 other) in
            from_telling s e j b.idle other b.at (at ∙ ap some (telling_of m h))
      ]

waiter-blocks :
    (idle : Bool) (e epoch : ℕ) → e ≡ epoch → waiter_next idle epoch (comparing e) ≡ blocked e
unfolding waiter_next
waiter-blocks idle e epoch same = ground arith

-- From any state that a fresh pool of at most 127 workers reaches, with fewer than 2 ^ 64 calls of
-- `wait` and fewer than 2 ^ 64 - 1 increments of the epoch so far: if the pool is idle, then each
-- thread in `wait`, wherever it stands, and blocked or not, comes to return by its own accesses and
-- those of threads that already have to notify.
pub wait-Returns :
    (p : Pool) (s : Waiting) (i : ℕ) (w : Waiter)
    → IsFresh p
    → p.worker_count ≤ 127
    → WaitingReach p s
    → length s.waiters < size_mod
    → s.raised + 1 < size_mod
    → is_idle s.system.pool ≡ true
    → get_elem? s.waiters i ≡ some w
    → Returns i s
unfolding waiter_counts
wait-Returns p s i testing f few r short low idle at = from_testing i s idle at
wait-Returns p s i entering f few r short low idle at = from_entering i s idle at
wait-Returns p s i counted f few r short low idle at = from_counted i s idle at
wait-Returns p s i (loaded e) f few r short low idle at = from_loaded i s e idle at
wait-Returns p s i (comparing e) f few r short low idle at =
    elim (ℕ_discrete e s.completion_epoch) [
      | no other ↦ from_comparing i s e idle other at
      | yes same ↦
          let blocks = waiter-blocks (is_idle s.system.pool) e s.completion_epoch same in
          let after =
            subst (λ v. WaitingReach p (record s { waiters = set s.waiters i v })) blocks
              (next r (waits i (comparing e) at)) in
          moves s i (comparing e) (blocked e) at blocks (λ there.
            from_blocked i p _ e
              (record {
                accounts = WaitingReach-Accounts p f after;
                short = omega (arith, length-set s.waiters i (blocked e));
                low = low;
                idle = idle;
                at = there;
              })
              (covered p f few after (omega (arith, length-set s.waiters i (blocked e)))
                (omega arith)))
    ]
wait-Returns p s i (blocked e) f few r short low idle at =
    from_blocked i p s e
      (record {
        accounts = WaitingReach-Accounts p f r;
        short = short;
        low = low;
        idle = idle;
        at = at;
      })
      (covered p f few r short (omega arith))
wait-Returns p s i leaving f few r short low idle at = from_leaving i s idle at
wait-Returns p s i returned f few r short low idle at = (s, arrived, at)
