-- ===== src/Async/Drain.antt =====
-- The moves of the asynchronous logger's worker (include/vosp/logger.hpp, `run`) up to its return.
use micro_error_framework.Prelude.{
  ℕ, zero, suc, ◌+◌, ◌*◌, ◌≤◌, ◌<◌, ◌≡◌, refl, ap, subst, ◌∙◌, ◌≢◌, ◌⊎◌, inl, inr, Bool, true, none,
  some, List, [], ◌∷◌, ◌++◌, arith, Option-cases, length,
}
use micro_error_framework.Error.{Outcome}
use micro_error_framework.Logger.{Policy, MetadataPolicy, LogEntry}
use micro_error_framework.Async.{
  PendingRecord, Worker, waiting, delivering, finished, AsyncLogger, take_batch, deliver_next,
  finish_batch, System, Step, writes, takes, delivers, finishes, reconfigures, shuts_down,
}
use micro_error_framework.Async.Invariant.{Fits, IsOrdered}
use micro_error_framework.Async.Sections.{take_batch-cases, deliver_next-Delivers}
use micro_error_framework.Async.Steps.{Step-IsOrdered}

abbrev pub rank : Worker → ℕ
rank waiting = 1
rank delivering = 2
rank finished = 0

-- A bound on the worker's moves without others between.
abbrev pub work : {W : Type 0} → System W → ℕ
work s = 3 * length s.logger.queue + length s.logger.batch + rank s.logger.worker

batch_empty :
    {W : Type 0} (a : AsyncLogger W) → a.worker ≡ waiting → Fits a a.worker → length a.batch ≡ 0
batch_empty a at f = let g : Fits a waiting = subst (Fits a) at f in ap length g.0

take_batch-stopping :
    {W : Type 0} (a : AsyncLogger W)
    → a.stopping ≡ true
    → (a' : AsyncLogger W) × (take_batch a ≡ some a') × (a'.stopping ≡ true)
unfolding take_batch
take_batch-stopping a h = go a.queue
  where
    go :
        (q : List PendingRecord)
        → (a' : AsyncLogger _) × (take_batch (record a { queue = q }) ≡ some a')
          × (a'.stopping ≡ true)
    go [] = (record a { queue = []; worker = finished }, rw (h) refl, h)
    go (r ∷ q) = (
      record a { batch = r ∷ q; queue = a.batch; batch_active = true; worker = delivering },
      refl,
      h,
    )

worker-cases : (p : Worker) → (p ≡ waiting) ⊎ ((p ≡ delivering) ⊎ (p ≡ finished))
worker-cases waiting = inl refl
worker-cases delivering = inr (inl refl)
worker-cases finished = inr (inr refl)

finished? : (p : Worker) → (p ≡ finished) ⊎ (p ≢ finished)
finished? waiting = inr (λ h. cc)
finished? delivering = inr (λ h. cc)
finished? finished = inl refl

list-cases :
    (q : List PendingRecord)
    → (q ≡ []) ⊎ ((r : PendingRecord) × (rest : List PendingRecord) × (q ≡ r ∷ rest))
list-cases [] = inl refl
list-cases (r ∷ rest) = inr (r, rest, refl)

module _ {W : Type 0} (write_to : W → ℕ → LogEntry → W × Outcome Bool) (policy : Policy)
    (metadata : MetadataPolicy) where
  abbrev pub IsMove : {s t : System W} → Step write_to policy metadata s t → Type 0
  IsMove (writes level error a acc e) = ⊥
  IsMove (takes a at e) = Unit {0}
  IsMove (delivers now thread a n b at e) = Unit {0}
  IsMove (finishes at e) = Unit {0}
  IsMove (reconfigures backend) = ⊥
  IsMove shuts_down = ⊥

  work-lt :
      (s t : System W) (st : Step write_to policy metadata s t)
      → IsOrdered s
      → IsMove st
      → work t < work s
  unfolding finish_batch
  work-lt s t (writes level error a acc e) inv m = absurd m
  work-lt s t (takes a at e) inv m = elim (take_batch-cases s.logger a e) [
    | inl (none_left, stops, same) ↦ omega (
      arith,
      ap (λ q. length q.queue) same,
      ap (λ q. length q.batch) same,
      ap (λ q. rank q.worker) same,
      ap rank at,
    )
    | inr (some_left, same) ↦ omega (
      arith,
      some_left,
      ap (λ q. length q.queue) same,
      ap (λ q. length q.batch) same,
      ap (λ q. rank q.worker) same,
      ap rank at,
      batch_empty s.logger at inv.place,
    )
  ]
  work-lt s t (delivers now thread a n b at e) inv m =
      let d = deliver_next-Delivers write_to policy metadata now thread s.logger a n b e in
      omega (arith, ap length d.left, ap length d.queue, ap rank d.worker)
  work-lt s t (finishes at e) inv m = omega (arith, ap length e, ap rank at)
  work-lt s t (reconfigures backend) inv m = absurd m
  work-lt s t shuts_down inv m = absurd m

  deliver_next-none :
      (now thread : ℕ) (a : AsyncLogger W) (r : PendingRecord) (rest : List PendingRecord)
      → a.batch ≡ r ∷ rest
      → deliver_next write_to policy metadata now thread a ≢ none
  unfolding deliver_next
  deliver_next-none now thread a r rest e h = ground (arith, h, e)

  deliver_next-some :
      (now thread : ℕ) (a : AsyncLogger W) (r : PendingRecord) (rest : List PendingRecord)
      → a.batch ≡ r ∷ rest
      → (a' : AsyncLogger W) × (n : PendingRecord) × (b : Bool) × (deliver_next write_to policy
            metadata now thread a
          ≡ some (a', n, b))
  deliver_next-some now thread a r rest e =
      elim (Option-cases (deliver_next write_to policy metadata now thread a)) [
        | inl n ↦ absurd (deliver_next-none now thread a r rest e n)
        | inr ((a', n, b), h) ↦ (a', n, b, h)
      ]

  -- A stopping logger whose worker has not returned has a move, and it stays stopping.
  pub stopping-moves :
      (s : System W)
      → s.logger.stopping ≡ true
      → s.logger.worker ≢ finished
      → (t : System W) × (st : Step write_to policy metadata s t) × IsMove st
        × (t.logger.stopping ≡ true)
  unfolding finish_batch
  stopping-moves s stops ne = elim (worker-cases s.logger.worker) [
    | inl at ↦
        let (a, e, h) = take_batch-stopping s.logger stops in
        (record s { logger = a }, takes a at e, tt, h)
    | inr (inl at) ↦ elim (list-cases s.logger.batch) [
      | inl e ↦ (record s { logger = finish_batch s.logger }, finishes at e, tt, stops)
      | inr (r, rest, e) ↦
          let (a, n, b, d) = deliver_next-some 0 0 s.logger r rest e in
          let left = deliver_next-Delivers write_to policy metadata 0 0 s.logger a n b d in
          (
            record s { logger = a; delivered = s.delivered ++ ((n, b) ∷ []) },
            delivers 0 0 a n b at d,
            tt,
            left.stops ∙ stops,
          )
    ]
    | inr (inr at) ↦ absurd (ne at)
  ]

  -- `n` moves of the worker, with no other step between.
  pub data Rounds : System W → ℕ → System W → Type 0 where
    done : {s : System W} → Rounds s 0 s
    more :
        {s t u : System W} {n : ℕ} (st : Step write_to policy metadata s t)
        → IsMove st
        → Rounds t n u
        → Rounds s (suc n) u

  -- From a state in which the invariant holds, `n` moves of the worker in a row leave at least
  -- `n` less of `work`, which is three for each queued record, one for each record of its batch,
  -- and at most two more.
  pub Rounds-le :
      {s : System W} (n : ℕ) (u : System W) → IsOrdered s → Rounds s n u → n + work u ≤ work s
  Rounds-le n u inv done = omega arith
  Rounds-le n u inv (more {s = s} {t = t} {n = k} st m rest) = omega (
    arith,
    work-lt s t st inv m,
    Rounds-le k u (Step-IsOrdered write_to policy metadata s t st inv) rest,
  )

  drains_within :
      (fuel : ℕ) (s : System W)
      → IsOrdered s
      → s.logger.stopping ≡ true
      → work s < fuel
      → (n : ℕ) × (u : System W) × Rounds s n u × (u.logger.worker ≡ finished)
  drains_within zero s inv stops h = absurd (omega arith)
  drains_within (suc fuel) s inv stops h = elim (finished? s.logger.worker) [
    | inl at ↦ (0, s, done, at)
    | inr ne ↦
        let (t, st, m, still) = stopping-moves s stops ne in
        let less = work-lt s t st inv m in
        let (n, u, moves, at) =
          drains_within fuel t (Step-IsOrdered write_to policy metadata s t st inv) still
            (omega arith) in
        (suc n, u, more st m moves, at)
  ]

  -- From any state in which the invariant holds and the logger is stopping, moves of the worker
  -- alone lead to its return, whatever the sinks answer or throw.
  pub shutdown_drains :
      (s : System W)
      → IsOrdered s
      → s.logger.stopping ≡ true
      → (n : ℕ) × (u : System W) × Rounds s n u × (u.logger.worker ≡ finished)
  shutdown_drains s inv stops = drains_within (suc (work s)) s inv stops (omega arith)
