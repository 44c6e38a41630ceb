-- ===== src/Async/Invariant.antt =====
-- What holds of the asynchronous logger of include/vosp/logger.hpp between any two of its steps.
use micro_error_framework.Prelude.{
  ℕ, ◌+◌, ◌%◌, ◌^◌, ◌≤◌, ◌≡◌, refl, ap, Bool, true, false, List, [], ◌∷◌, ◌++◌, map, arith,
  if◌then◌else◌, length,
}
use micro_error_framework.Async.{
  PendingRecord, Worker, waiting, delivering, finished, AsyncLogger, System, queue_capacity,
}

-- How many deliveries the backend refused.
abbrev pub refusals : List (PendingRecord × Bool) → ℕ
refusals [] = 0
refusals ((r, b) ∷ rest) = (if b then 0 else 1) + refusals rest

-- What the worker's place says of the batch.
abbrev pub Fits : {W : Type 0} → AsyncLogger W → Worker → Type 0
Fits a waiting = (a.batch ≡ []) × (a.batch_active ≡ false)
Fits a delivering = a.batch_active ≡ true
Fits a finished = (a.batch ≡ []) × (a.queue ≡ []) × (a.batch_active ≡ false) × (a.stopping ≡ true)

pub record IsOrdered {W : Type 0} (s : System W) : Type 0 where
  pub order : s.accepted ≡ map (λ d. d.0) s.delivered ++ (s.logger.batch ++ s.logger.queue)
  pub queue_bound : length s.logger.queue ≤ queue_capacity
  pub batch_bound : length s.logger.batch ≤ queue_capacity
  pub place : Fits s.logger s.logger.worker
  pub failures : s.logger.failed_records ≡ refusals s.delivered % 2 ^ 64

pub refusals-append :
    (xs : List (PendingRecord × Bool)) (r : PendingRecord) (b : Bool)
    → refusals (xs ++ ((r, b) ∷ [])) ≡ refusals xs + (if b then 0 else 1)
refusals-append [] r b = omega arith
refusals-append ((q, c) ∷ xs) r b = omega (arith, refusals-append xs r b)

pub map-append {ℓ κ} :
    {A : Type ℓ} {B : Type κ} (f : A → B) (xs ys : List A) → map f (xs ++ ys) ≡ map f xs ++ map f ys
map-append f [] ys = refl
map-append f (x ∷ xs) ys = ap (λ l. f x ∷ l) (map-append f xs ys)
