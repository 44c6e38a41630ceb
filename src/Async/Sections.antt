-- ===== src/Async/Sections.antt =====
-- What one section of the asynchronous logger of include/vosp/logger.hpp does to its state.
use micro_error_framework.Prelude.{
  ℕ, ◌+◌, ◌%◌, ◌^◌, ◌≤◌, ◌<◌, ◌≡◌, refl, sym, ap, ap₂, ◌⊎◌, inl, inr, Bool, true, false, some, List,
  [], ◌∷◌, ◌++◌, arith, ltb, if◌then◌else◌, ltb→lt, Bool-cases, length,
}
use mathlib.Core.Option.{some-injective}
use micro_error_framework.Error.{Error, Outcome}
use micro_error_framework.Logger.{Level, Policy, accepts, MetadataPolicy, LogEntry}
use micro_error_framework.Sync.{Logger}
use micro_error_framework.Async.{
  PendingRecord, Worker, waiting, delivering, finished, AsyncLogger, queue_capacity, enqueue,
  take_batch, deliver_next, signal_shutdown,
}
use micro_error_framework.Async.Invariant.{Fits}

-- A write that is accepted and answers true found room, and put its record at the end of the queue.
pub enqueue-true :
    {W : Type 0} (policy : Policy) (a a' : AsyncLogger W) (level : Level) (error : Error)
    → accepts policy level ≡ true
    → enqueue policy a level error ≡ some (a', true)
    → (a.stopping ≡ false)
      × (length a.queue < queue_capacity)
      × (record a { queue = a.queue ++ (record { level = level; error = error } ∷ []) } ≡ a')
unfolding enqueue
enqueue-true policy a a' level error acc e = elim (Bool-cases a.stopping) [
  | inl y ↦ ground (arith, e, acc, y)
  | inr n ↦ elim (Bool-cases (ltb (length a.queue) queue_capacity)) [
    | inl room ↦ (n, ltb→lt (length a.queue) queue_capacity room, ground (arith, e, acc, n, room))
    | inr full ↦ ground (arith, e, acc, n, full)
  ]
]

-- What taking a batch does, by the queue that it finds.
pub take_batch-cases :
    {W : Type 0} (a a' : AsyncLogger W)
    → take_batch a ≡ some a'
    → ((a.queue ≡ []) × (a.stopping ≡ true) × (record a { worker = finished } ≡ a'))
      ⊎ ((1 ≤ length a.queue)
          × (record a { batch = a.queue; queue = a.batch; batch_active = true; worker = delivering }
              ≡ a'))
unfolding take_batch
take_batch-cases a a' = go a.queue
  where
    go :
        (q : List PendingRecord)
        → take_batch (record a { queue = q }) ≡ some a'
        → ((q ≡ []) × (a.stopping ≡ true) × (record a { queue = q; worker = finished } ≡ a'))
          ⊎ ((1 ≤ length q)
              × (record a { batch = q; queue = a.batch; batch_active = true; worker = delivering }
                  ≡ a'))
    go [] e = ground (arith, e)
    go (r ∷ q) e = inr (omega arith, some-injective _ _ e)

pub Fits-write :
    {W : Type 0} (a : AsyncLogger W) (q : List PendingRecord) (w : Worker)
    → Fits a w
    → a.stopping ≡ false
    → Fits (record a { queue = q }) w
Fits-write a q waiting f n = f
Fits-write a q delivering f n = f
Fits-write a q finished f n = cc

pub Fits-stop :
    {W : Type 0} (a : AsyncLogger W) (w : Worker) → Fits a w → Fits (signal_shutdown a) w
unfolding signal_shutdown
Fits-stop a waiting f = f
Fits-stop a delivering f = f
Fits-stop a finished f = (f.0, f.1, f.2, refl)

pub Fits-backend :
    {W : Type 0} (a : AsyncLogger W) (b : Logger) (w : Worker)
    → Fits a w
    → Fits (record a { backend = b }) w
Fits-backend a b waiting f = f
Fits-backend a b delivering f = f
Fits-backend a b finished f = f

-- What a delivery does: the batch's first record goes, and a refusal counts.
pub record Delivers {W : Type 0} (a a' : AsyncLogger W) (next : PendingRecord) (b : Bool)
    : Type 0 where
  pub left : a.batch ≡ next ∷ a'.batch
  pub queue : a'.queue ≡ a.queue
  pub worker : a'.worker ≡ a.worker
  pub active : a'.batch_active ≡ a.batch_active
  pub stops : a'.stopping ≡ a.stopping
  pub failures :
      a'.failed_records ≡ (if b then a.failed_records else (a.failed_records + 1) % 2 ^ 64)

pub count-refusal :
    (m m' r r' : ℕ) (b : Bool)
    → m' ≡ (if b then m else (m + 1) % 2 ^ 64)
    → m ≡ r % 2 ^ 64
    → r' ≡ r + (if b then 0 else 1)
    → m' ≡ r' % 2 ^ 64
count-refusal m m' r r' true h k l = omega arith
count-refusal m m' r r' false h k l = omega arith

module _ {W : Type 0} (write_to : W → ℕ → LogEntry → W × Outcome Bool) (policy : Policy)
    (metadata : MetadataPolicy) where
  pub deliver_next-Delivers :
      (now thread : ℕ) (a a' : AsyncLogger W) (n : PendingRecord) (b : Bool)
      → deliver_next write_to policy metadata now thread a ≡ some (a', n, b)
      → Delivers a a' n b
  unfolding deliver_next
  deliver_next-Delivers now thread a a' n b = go a.batch
    where
      go :
          (q : List PendingRecord)
          → deliver_next write_to policy metadata now thread (record a { batch = q })
            ≡ some (a', n, b)
          → Delivers (record a { batch = q }) a' n b
      go [] e = cc
      go (r ∷ q) e =
          let same = some-injective _ _ e in
          let answer = ap (λ p. p.2) same in
          record {
            left = ap₂ (λ x y. x ∷ y) (ap (λ p. p.1) same) (ap (λ p. p.0.batch) same);
            queue = sym (ap (λ p. p.0.queue) same);
            worker = sym (ap (λ p. p.0.worker) same);
            active = sym (ap (λ p. p.0.batch_active) same);
            stops = sym (ap (λ p. p.0.stopping) same);
            failures = rw (← answer) (sym (ap (λ p. p.0.failed_records) same));
          }
