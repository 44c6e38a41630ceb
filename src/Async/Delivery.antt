-- ===== src/Async/Delivery.antt =====
-- The records of the asynchronous logger of include/vosp/logger.hpp when `flush` or `shutdown` ends,
-- and the wait of a writer.
use micro_error_framework.Prelude.{
  ℕ, ◌≤◌, ◌≡◌, refl, sym, ap₂, subst, ◌∙◌, ◌↔◌, Bool, true, false, none, some, List, [], ◌∷◌, ◌++◌,
  map, append-nil, arith, ◌==◌, length,
}
use micro_error_framework.Error.{Error, Outcome}
use micro_error_framework.Logger.{Level, Policy, accepts, MetadataPolicy, LogEntry}
use micro_error_framework.Sync.{Logger}
use micro_error_framework.Async.{
  Worker, waiting, delivering, finished, AsyncLogger, queue_capacity, enqueue, is_drained, System,
  Reach,
}
use micro_error_framework.Async.Invariant.{Fits}
use micro_error_framework.Async.Steps.{Reach-IsOrdered}

-- A writer waits exactly if the policy accepts the level, the logger is not stopping and the queue
-- holds 1,024 records or more.
pub enqueue-none_iff :
    {W : Type 0} (policy : Policy) (a : AsyncLogger W) (level : Level) (error : Error)
    → (enqueue policy a level error ≡ none)
      ↔ ((accepts policy level ≡ true) × (a.stopping ≡ false) × (queue_capacity ≤ length a.queue))
unfolding enqueue
enqueue-none_iff policy a level error = (λ e. ground (arith, e), λ h. ground (arith, h.0, h.1, h.2))

empty_length : {A : Type 0} (xs : List A) → (length xs == 0) ≡ true → xs ≡ []
empty_length [] h = refl
empty_length (x ∷ xs) h = ground (arith, h)

module _ {W : Type 0} (write_to : W → ℕ → LogEntry → W × Outcome Bool) (policy : Policy)
    (metadata : MetadataPolicy) (w : W) (backend : Logger) where
  quiet_batch : (a : AsyncLogger W) (p : Worker) → Fits a p → a.batch_active ≡ false → a.batch ≡ []
  quiet_batch a waiting f n = f.0
  quiet_batch a delivering f n = cc
  quiet_batch a finished f n = f.0

  -- Whenever the condition that `flush` waits for holds, every accepted record has been delivered,
  -- each once and in the order of acceptance.
  pub flush_complete :
      (s : System W)
      → Reach write_to policy metadata w backend s
      → is_drained s.logger ≡ true
      → map (λ d. d.0) s.delivered ≡ s.accepted
  unfolding is_drained
  flush_complete s r h =
      let inv = Reach-IsOrdered write_to policy metadata w backend s r in
      let none_left : (length s.logger.queue == 0) ≡ true = ground (arith, h) in
      let idle : s.logger.batch_active ≡ false = ground (arith, h) in
      sym (
        inv.order
        ∙ ap₂ (λ x y. map (λ d. d.0) s.delivered ++ (x ++ y))
            (quiet_batch s.logger s.logger.worker inv.place idle)
            (empty_length s.logger.queue none_left)
        ∙ append-nil (map (λ d. d.0) s.delivered))

  -- Once the worker has returned, every accepted record has been delivered, each once and in the
  -- order of acceptance, and a further write of a level that the policy accepts does not wait,
  -- changes nothing and answers false.
  pub shutdown_complete :
      (s : System W)
      → Reach write_to policy metadata w backend s
      → s.logger.worker ≡ finished
      → (map (λ d. d.0) s.delivered ≡ s.accepted)
        × ((level : Level) (error : Error)
            → accepts policy level ≡ true
            → enqueue policy s.logger level error ≡ some (s.logger, false))
  unfolding enqueue
  shutdown_complete s r at =
      let inv = Reach-IsOrdered write_to policy metadata w backend s r in
      let f : Fits s.logger finished = subst (Fits s.logger) at inv.place in
      (
        sym (
            inv.order
            ∙ ap₂ (λ x y. map (λ d. d.0) s.delivered ++ (x ++ y)) f.0 f.1
            ∙ append-nil (map (λ d. d.0) s.delivered)),
        λ level error acc. ground (arith, acc, f.3),
      )
