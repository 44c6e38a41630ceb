-- ===== src/Threads/Waiting/Covered.antt =====
-- Who blocks in `wait` of include/vosp/worker_pool.hpp has a reason to, or somebody on the way who
-- will wake it: what the single accesses do to that.
use micro_error_framework.Prelude.{
  ℕ, ◌+◌, ◌≤◌, ◌≡◌, ◌≢◌, ◌⊎◌, inl, inr, Bool, true, false, List, [], ◌∷◌, arith, ◌==◌, ==_iff,
  Bool-cases, All,
}
use micro_error_framework.Pool.{is_idle}
use micro_error_framework.Threads.Total.{total}
use micro_error_framework.Threads.Waiting.{
  Waiter, testing, entering, counted, loaded, comparing, blocked, leaving, returned, Notifier,
  cancelled, asked, counting, telling, finished, Waiting, waiter_next, woken,
}
use micro_error_framework.Threads.Waiting.Turn.{under_way}
use micro_error_framework.Threads.Waiting.Accounts.{is_counted, IsPast}

-- The thread is before its `notify_all`.
abbrev pub is_telling : Notifier → ℕ
is_telling cancelled = 0
is_telling asked = 0
is_telling counting = 0
is_telling telling = 1
is_telling finished = 0

-- Who blocks, or is about to, while the pool is idle has somebody on the way who raises the epoch, or
-- the epoch is raised already, and somebody is before the `notify_all`.
abbrev pub IsCovered : Bool → ℕ → ℕ → ℕ → Waiter → Type 0
IsCovered idle epoch way tell (comparing e) = e ≡ epoch → idle ≡ true → 1 ≤ way
IsCovered idle epoch way tell (blocked e) =
    (e ≡ epoch → idle ≡ true → 1 ≤ way) × (e ≢ epoch → 1 ≤ tell)
IsCovered idle epoch way tell _ = Unit {0}

abbrev pub AreCovered : Waiting → Type 0
AreCovered s =
    All
      (IsCovered (is_idle s.system.pool) s.completion_epoch (total under_way s.notifiers)
        (total is_telling s.notifiers))
      s.waiters

pub IsCovered-mono :
    (idle idle' : Bool) (epoch way way' tell tell' : ℕ)
    → (idle' ≡ true → (idle ≡ true) ⊎ (1 ≤ way'))
    → (1 ≤ way → idle' ≡ true → 1 ≤ way')
    → tell ≤ tell'
    → (w : Waiter) → IsCovered idle epoch way tell w
    → IsCovered idle' epoch way' tell' w
IsCovered-mono idle idle' epoch way way' tell tell' i h k testing c = tt
IsCovered-mono idle idle' epoch way way' tell tell' i h k entering c = tt
IsCovered-mono idle idle' epoch way way' tell tell' i h k counted c = tt
IsCovered-mono idle idle' epoch way way' tell tell' i h k (loaded e) c = tt
IsCovered-mono idle idle' epoch way way' tell tell' i h k (comparing e) c =
    λ same now. elim (i now) [ inl before ↦ h (c same before) now | inr some_way ↦ some_way ]
IsCovered-mono idle idle' epoch way way' tell tell' i h k (blocked e) c = (
  λ same now. elim (i now) [ inl before ↦ h (c.0 same before) now | inr some_way ↦ some_way ],
  λ other. omega (arith, c.1 other),
)
IsCovered-mono idle idle' epoch way way' tell tell' i h k leaving c = tt
IsCovered-mono idle idle' epoch way way' tell tell' i h k returned c = tt

pub IsCovered-next :
    (idle : Bool) (epoch way tell : ℕ) (w : Waiter)
    → IsCovered idle epoch way tell w
    → IsCovered idle epoch way tell (waiter_next idle epoch w)
unfolding waiter_next
IsCovered-next true epoch way tell testing c = tt
IsCovered-next false epoch way tell testing c = tt
IsCovered-next idle epoch way tell entering c = tt
IsCovered-next idle epoch way tell counted c = tt
IsCovered-next true epoch way tell (loaded e) c = tt
IsCovered-next false epoch way tell (loaded e) c = λ same now. cc
IsCovered-next idle epoch way tell (comparing e) c = elim (Bool-cases (e == epoch)) [
  | inl y ↦ rw (y) (c, λ other. absurd (other ((==_iff e epoch).0 y)))
  | inr y ↦ rw (y) tt
]
IsCovered-next idle epoch way tell (blocked e) c = c
IsCovered-next idle epoch way tell leaving c = tt
IsCovered-next idle epoch way tell returned c = tt

-- With no waiter counted, none blocks.
pub IsCovered-uncounted :
    (idle : Bool) (epoch way tell : ℕ) (ws : List Waiter)
    → total is_counted ws ≡ 0
    → All (IsCovered idle epoch way tell) ws
IsCovered-uncounted idle epoch way tell [] h = tt
IsCovered-uncounted idle epoch way tell (w ∷ ws) h =
    (uncounted w (omega arith), IsCovered-uncounted idle epoch way tell ws (omega arith))
  where
    uncounted : (w : Waiter) → is_counted w ≡ 0 → IsCovered idle epoch way tell w
    uncounted testing k = tt
    uncounted entering k = tt
    uncounted counted k = tt
    uncounted (loaded e) k = tt
    uncounted (comparing e) k = absurd (omega arith)
    uncounted (blocked e) k = absurd (omega arith)
    uncounted leaving k = tt
    uncounted returned k = tt

-- A raise of the epoch leaves every waiter with an earlier one.
pub IsCovered-raised :
    (idle : Bool) (raised epoch way tell : ℕ)
    → raised + 1 ≡ epoch
    → 1 ≤ tell
    → (w : Waiter) → IsPast raised w
    → IsCovered idle epoch way tell w
IsCovered-raised idle raised epoch way tell later h testing a = tt
IsCovered-raised idle raised epoch way tell later h entering a = tt
IsCovered-raised idle raised epoch way tell later h counted a = tt
IsCovered-raised idle raised epoch way tell later h (loaded e) a = tt
IsCovered-raised idle raised epoch way tell later h (comparing e) a =
    λ same now. absurd (omega arith)
IsCovered-raised idle raised epoch way tell later h (blocked e) a =
    ((λ same now. absurd (omega arith)), (λ other. h))
IsCovered-raised idle raised epoch way tell later h leaving a = tt
IsCovered-raised idle raised epoch way tell later h returned a = tt

pub IsCovered-woken :
    (idle : Bool) (epoch way way' tell tell' : ℕ)
    → way ≡ way'
    → (w : Waiter) → IsCovered idle epoch way tell w
    → IsCovered idle epoch way' tell' (woken w)
IsCovered-woken idle epoch way way' tell tell' h testing c = tt
IsCovered-woken idle epoch way way' tell tell' h entering c = tt
IsCovered-woken idle epoch way way' tell tell' h counted c = tt
IsCovered-woken idle epoch way way' tell tell' h (loaded e) c = tt
IsCovered-woken idle epoch way way' tell tell' h (comparing e) c =
    λ same now. omega (arith, c same now)
IsCovered-woken idle epoch way way' tell tell' h (blocked e) c =
    λ same now. omega (arith, c.0 same now)
IsCovered-woken idle epoch way way' tell tell' h leaving c = tt
IsCovered-woken idle epoch way way' tell tell' h returned c = tt
