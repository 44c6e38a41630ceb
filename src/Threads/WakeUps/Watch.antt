-- ===== src/Threads/WakeUps/Watch.antt =====
-- What holds of the threads that wait for a task of include/vosp/worker_pool.hpp, and of those that
-- notify them.
use micro_error_framework.Prelude.{
  ℕ, ◌≤◌, ◌≡◌, refl, ap, ◌∙◌, ◌≢◌, ◌⊎◌, inl, inr, some, List, [], ◌∷◌, map, arith, ◌==◌, ==_iff,
  Bool-cases, length, get_elem?, set, length-set, get_elem?-set_self, All, get_elem?-bound, All-set,
  All-get,
}
use micro_error_framework.Pool.Word.{pending_from_state}
use micro_error_framework.Pool.{Pool, pending_tasks}
use micro_error_framework.Threads.Total.{total, total-set}
use micro_error_framework.Threads.Invariant.{Inv}
use micro_error_framework.Threads.WakeUps.{
  Stage, outside, entering, counted, leaving, comparing, blocked, Handshake, observed, compared,
  woken_up, IsBlocked, Woken, nobody, wakes, wakes_more,
}

-- The worker is in the count.
abbrev pub counted_in : Stage → ℕ
counted_in outside = 0
counted_in entering = 0
counted_in counted = 1
counted_in leaving = 1
counted_in (comparing word) = 1
counted_in (blocked word) = 1

-- A word that a worker waits on had no task.
abbrev pub HasSeenNone : Stage → Type 0
HasSeenNone outside = Unit {0}
HasSeenNone entering = Unit {0}
HasSeenNone counted = Unit {0}
HasSeenNone leaving = Unit {0}
HasSeenNone (comparing word) = pending_from_state word ≡ 0
HasSeenNone (blocked word) = pending_from_state word ≡ 0

-- Some worker is not blocked.
abbrev pub Unblocked : List Stage → Type 0
Unblocked stages = (i : ℕ) × (x : Stage) × (get_elem? stages i ≡ some x) × (IsBlocked x → ⊥)

-- Every worker has a stage; `waiting_workers_` counts the workers between its two changes; nobody waits
-- on a word that has a task; and with a task queued, some thread has still to notify or some worker is
-- not blocked.
pub record Watch (p : Pool) (s : Handshake) : Type 0 where
  pub inv : Inv p s.system
  pub paired : length s.stages ≡ p.worker_count
  pub counter : s.waiting_workers ≡ total counted_in s.stages
  pub seen : All HasSeenNone s.stages
  pub watched : pending_tasks s.system.pool ≢ 0 → (s.wakers ≢ []) ⊎ Unblocked s.stages

pub total-counted_in : (stages : List Stage) → total counted_in stages ≤ length stages
total-counted_in [] = omega arith
total-counted_in (outside ∷ stages) = omega (arith, total-counted_in stages)
total-counted_in (entering ∷ stages) = omega (arith, total-counted_in stages)
total-counted_in (counted ∷ stages) = omega (arith, total-counted_in stages)
total-counted_in (leaving ∷ stages) = omega (arith, total-counted_in stages)
total-counted_in (comparing word ∷ stages) = omega (arith, total-counted_in stages)
total-counted_in (blocked word ∷ stages) = omega (arith, total-counted_in stages)

pub Unblocked-set :
    (stages : List Stage) (i : ℕ) (w x : Stage)
    → get_elem? stages i ≡ some w
    → (IsBlocked x → ⊥)
    → Unblocked (set stages i x)
Unblocked-set stages i w x at free =
    (i, x, get_elem?-set_self stages i x (get_elem?-bound stages i w at), free)

-- Nobody in the count, nobody blocked.
pub Unblocked-uncounted :
    (stages : List Stage) → 1 ≤ length stages → total counted_in stages ≡ 0 → Unblocked stages
Unblocked-uncounted [] h e = absurd (omega arith)
Unblocked-uncounted (outside ∷ stages) h e = (0, outside, refl, λ b. b)
Unblocked-uncounted (entering ∷ stages) h e = (0, entering, refl, λ b. b)
Unblocked-uncounted (counted ∷ stages) h e = absurd (omega arith)
Unblocked-uncounted (leaving ∷ stages) h e = absurd (omega arith)
Unblocked-uncounted (comparing word ∷ stages) h e = absurd (omega arith)
Unblocked-uncounted (blocked word ∷ stages) h e = absurd (omega arith)

Unblocked-all :
    (stages : List Stage) → 1 ≤ length stages → All (λ x. IsBlocked x → ⊥) stages → Unblocked stages
Unblocked-all [] h free = absurd (omega arith)
Unblocked-all (x ∷ stages) h free = (0, x, refl, free.0)

-- What a notification leaves.
pub record IsWoken (a b : List Stage) : Type 0 where
  pub size : length b ≡ length a
  pub counts : total counted_in b ≡ total counted_in a
  pub seen_kept : All HasSeenNone a → All HasSeenNone b
  pub freed : 1 ≤ length a → Unblocked b

pub Woken-IsWoken : {a b : List Stage} → Woken a b → IsWoken a b
Woken-IsWoken {a} (nobody free) = record {
  size = refl;
  counts = refl;
  seen_kept = λ h. h;
  freed = λ h. Unblocked-all a h free;
}
Woken-IsWoken {a} (wakes i word at) = record {
  size = length-set a i (comparing word);
  counts = omega (arith, total-set counted_in a i (blocked word) (comparing word) at);
  seen_kept =
      λ h. All-set HasSeenNone a i (comparing word) h (All-get HasSeenNone a i (blocked word) h at);
  freed = λ h. Unblocked-set a i (blocked word) (comparing word) at (λ b. b);
}
Woken-IsWoken (wakes_more m n) =
    let first = Woken-IsWoken m in
    let second = Woken-IsWoken n in
    record {
      size = second.size ∙ first.size;
      counts = second.counts ∙ first.counts;
      seen_kept = λ h. second.seen_kept (first.seen_kept h);
      freed = λ h. second.freed (omega (arith, first.size));
    }

one_woken_up :
    (x : Stage)
    → (counted_in (woken_up x) ≡ counted_in x)
      × (HasSeenNone x → HasSeenNone (woken_up x))
      × (IsBlocked (woken_up x) → ⊥)
one_woken_up outside = (refl, λ h. h, λ b. b)
one_woken_up entering = (refl, λ h. h, λ b. b)
one_woken_up counted = (refl, λ h. h, λ b. b)
one_woken_up leaving = (refl, λ h. h, λ b. b)
one_woken_up (comparing word) = (refl, λ h. h, λ b. b)
one_woken_up (blocked word) = (refl, λ h. h, λ b. b)

pub all-IsWoken : (a : List Stage) → IsWoken a (map woken_up a)
all-IsWoken [] = record {
  size = refl;
  counts = refl;
  seen_kept = λ h. h;
  freed = λ h. absurd (omega arith);
}
all-IsWoken (x ∷ a) =
    let one = one_woken_up x in
    let rest = all-IsWoken a in
    record {
      size = omega (arith, rest.size);
      counts = omega (arith, rest.counts, one.0);
      seen_kept = λ h. (one.1 h.0, rest.seen_kept h.1);
      freed = λ h. (0, woken_up x, refl, one.2);
    }

pub observed-HasSeenNone : (state : ℕ) → HasSeenNone (observed state)
unfolding observed
observed-HasSeenNone state = ground arith

pub observed-free :
    (state : ℕ) → (counted_in (observed state) ≡ 1) × (IsBlocked (observed state) → ⊥)
unfolding observed
observed-free state = (ground arith, ground arith)

-- A worker blocks only on a word that is still there.
pub compared_lem :
    (state word : ℕ)
    → pending_from_state word ≡ 0
    → (counted_in (compared state word) ≡ 1)
      × HasSeenNone (compared state word)
      × ((pending_from_state state ≡ 0) ⊎ (IsBlocked (compared state word) → ⊥))
unfolding compared
compared_lem state word h = elim (Bool-cases (state == word)) [
  | inl y ↦ rw (y) (refl, h, inl (ap pending_from_state ((==_iff state word).0 y) ∙ h))
  | inr n ↦ rw (n) (refl, tt, inr (λ b. b))
]
