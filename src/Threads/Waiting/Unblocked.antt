-- ===== src/Threads/Waiting/Unblocked.antt =====
-- A thread in `wait` of include/vosp/worker_pool.hpp that is not blocked, and an idle pool: it returns.
use micro_error_framework.Prelude.{
  ℕ, suc, ◌≤◌, ◌≡◌, refl, sym, subst, ◌≢◌, true, some, List, [], ◌∷◌, arith, dec_lt, get_elem?, set,
  get_elem?-set_self, get_elem?-bound,
}
use micro_error_framework.Pool.{is_idle}
use micro_error_framework.Threads.Total.{total}
use micro_error_framework.Threads.Waiting.{
  Waiter, testing, entering, counted, loaded, comparing, leaving, returned, Notifier, Waiting,
  waiter_next, waiter_counts, notify,
}

-- Accesses of thread `i` in `wait`, and of threads that notify, in a row; nobody else does anything.
pub data Finishing (i : ℕ) : Waiting → Waiting → Type 0 where
  arrived : {s : Waiting} → Finishing i s s
  waiter_moves :
      {s t : Waiting} (w : Waiter)
      → get_elem? s.waiters i ≡ some w
      → Finishing i
          (record s {
            waiters = set s.waiters i (waiter_next (is_idle s.system.pool) s.completion_epoch w);
            waiting_for_idle = waiter_counts w s.waiting_for_idle;
          })
          t
      → Finishing i s t
  notifier_moves :
      {s t : Waiting} (j : ℕ) (m : Notifier)
      → get_elem? s.notifiers j ≡ some m
      → Finishing i (notify s j m) t
      → Finishing i s t

-- Thread `i` comes to return.
abbrev pub Returns : ℕ → Waiting → Type 0
Returns i s = (t : Waiting) × Finishing i s t × (get_elem? t.waiters i ≡ some returned)

pub total-positive {ℓ} :
    {A : Type ℓ} (f : A → ℕ) (xs : List A)
    → 1 ≤ total f xs
    → (j : ℕ) × (x : A) × (get_elem? xs j ≡ some x) × (1 ≤ f x)
total-positive f [] h = absurd (omega arith)
total-positive f (x ∷ xs) h = elim (dec_lt 0 (f x)) [
  | yes some_x ↦ (0, x, refl, omega arith)
  | no no_x ↦ let (j, y, at, k) = total-positive f xs (omega arith) in (suc j, y, at, k)
]

-- One access of thread `i`.
pub moves :
    (s : Waiting) (i : ℕ) (w w' : Waiter)
    → get_elem? s.waiters i ≡ some w
    → waiter_next (is_idle s.system.pool) s.completion_epoch w ≡ w'
    → (get_elem? (set s.waiters i w') i ≡ some w'
        → Returns i (record s {
          waiters = set s.waiters i w';
          waiting_for_idle = waiter_counts w s.waiting_for_idle;
        }))
    → Returns i s
moves s i w w' at e onward =
    let there = get_elem?-set_self s.waiters i w' (get_elem?-bound s.waiters i w at) in
    let (t, path, out) = onward there in
    (
      t,
      waiter_moves w at (
          subst
            (λ v.
              Finishing i
                (record s {
                  waiters = set s.waiters i v;
                  waiting_for_idle = waiter_counts w s.waiting_for_idle;
                })
                t)
            (sym e) path),
      out,
    )

module _ (i : ℕ) where
  pub from_testing :
      (s : Waiting)
      → is_idle s.system.pool ≡ true
      → get_elem? s.waiters i ≡ some testing
      → Returns i s
  unfolding waiter_next
  from_testing s idle at =
      moves s i testing returned at (rw (idle) refl) (λ there. (_, arrived, there))

  pub from_leaving :
      (s : Waiting)
      → is_idle s.system.pool ≡ true
      → get_elem? s.waiters i ≡ some leaving
      → Returns i s
  unfolding waiter_next
  from_leaving s idle at = moves s i leaving testing at refl (λ there. from_testing _ idle there)

  pub from_loaded :
      (s : Waiting) (e : ℕ)
      → is_idle s.system.pool ≡ true
      → get_elem? s.waiters i ≡ some (loaded e)
      → Returns i s
  unfolding waiter_next
  from_loaded s e idle at =
      moves s i (loaded e) leaving at (rw (idle) refl) (λ there. from_leaving _ idle there)

  pub from_counted :
      (s : Waiting)
      → is_idle s.system.pool ≡ true
      → get_elem? s.waiters i ≡ some counted
      → Returns i s
  unfolding waiter_next
  from_counted s idle at =
      moves s i counted (loaded s.completion_epoch) at refl (λ there. from_loaded _ _ idle there)

  pub from_entering :
      (s : Waiting)
      → is_idle s.system.pool ≡ true
      → get_elem? s.waiters i ≡ some entering
      → Returns i s
  unfolding waiter_next
  from_entering s idle at = moves s i entering counted at refl (λ there. from_counted _ idle there)

  pub from_comparing :
      (s : Waiting) (e : ℕ)
      → is_idle s.system.pool ≡ true
      → e ≢ s.completion_epoch
      → get_elem? s.waiters i ≡ some (comparing e)
      → Returns i s
  unfolding waiter_next
  from_comparing s e idle other at =
      moves s i (comparing e) leaving at (ground arith) (λ there. from_leaving _ idle there)
