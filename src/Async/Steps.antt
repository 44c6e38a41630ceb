-- ===== src/Async/Steps.antt =====
-- The steps of the asynchronous logger of include/vosp/logger.hpp and its invariant.
use micro_error_framework.Prelude.{
  ℕ, ◌≡◌, refl, sym, ap, subst, ◌∙◌, inl, inr, Bool, true, some, List, [], ◌∷◌, ◌++◌, map,
  append-nil, append_assoc, arith, length, length-append,
}
use micro_error_framework.Error.{Error, Outcome}
use micro_error_framework.Logger.{Level, Policy, accepts, MetadataPolicy, LogEntry}
use micro_error_framework.Sync.{Logger}
use micro_error_framework.Async.{
  PendingRecord, waiting, delivering, AsyncLogger, construct, enqueue, take_batch, deliver_next,
  finish_batch, signal_shutdown, System, Step, writes, takes, delivers, finishes, reconfigures,
  shuts_down, start, Reach, here, next,
}
use micro_error_framework.Async.Sections.{
  enqueue-true, take_batch-cases, Fits-write, Fits-stop, Fits-backend, count-refusal,
  deliver_next-Delivers,
}
use micro_error_framework.Async.Invariant.{refusals, Fits, IsOrdered, refusals-append, map-append}

module _ {W : Type 0} (write_to : W → ℕ → LogEntry → W × Outcome Bool) (policy : Policy)
    (metadata : MetadataPolicy) where
  start-IsOrdered :
      (w : W) (backend : Logger) → IsOrdered (start write_to policy metadata w backend)
  unfolding construct
  start-IsOrdered w backend = record {
    order = refl;
    queue_bound = omega arith;
    batch_bound = omega arith;
    place = (refl, refl);
    failures = omega arith;
  }

  writes-IsOrdered :
      (s : System W) (level : Level) (error : Error) (a : AsyncLogger W)
      → accepts policy level ≡ true
      → enqueue policy s.logger level error ≡ some (a, true)
      → IsOrdered s
      → IsOrdered (record s {
        logger = a;
        accepted = s.accepted ++ (record { level = level; error = error } ∷ []);
      })
  writes-IsOrdered s level error a acc e inv =
      let (running, room, same) = enqueue-true policy s.logger a level error acc e in
      let put : List PendingRecord = record { level = level; error = error } ∷ [] in
      subst (λ q. IsOrdered (record s { logger = q; accepted = s.accepted ++ put })) same
        (record {
          order =
              ap (λ l. l ++ put) inv.order
              ∙ append_assoc (map (λ d. d.0) s.delivered) (s.logger.batch ++ s.logger.queue) put
              ∙ ap (λ l. map (λ d. d.0) s.delivered ++ l)
                  (append_assoc s.logger.batch s.logger.queue put);
          queue_bound = omega (arith, length-append s.logger.queue put, room);
          batch_bound = inv.batch_bound;
          place = Fits-write s.logger (s.logger.queue ++ put) s.logger.worker inv.place running;
          failures = inv.failures;
        })

  takes-IsOrdered :
      (s : System W) (a : AsyncLogger W)
      → s.logger.worker ≡ waiting
      → take_batch s.logger ≡ some a
      → IsOrdered s
      → IsOrdered (record s { logger = a })
  takes-IsOrdered s a at e inv =
      let place : Fits s.logger waiting = subst (Fits s.logger) at inv.place in
      elim (take_batch-cases s.logger a e) [
        | inl (none_left, stops, same) ↦
            subst (λ q. IsOrdered (record s { logger = q })) same
              (record {
                order = inv.order;
                queue_bound = inv.queue_bound;
                batch_bound = inv.batch_bound;
                place = (place.0, none_left, place.1, stops);
                failures = inv.failures;
              })
        | inr (some_left, same) ↦
            subst (λ q. IsOrdered (record s { logger = q })) same
              (record {
                order =
                    inv.order
                    ∙ ap (λ l. map (λ d. d.0) s.delivered ++ l)
                        (ap (λ l. l ++ s.logger.queue) place.0
                          ∙ sym (append-nil s.logger.queue)
                          ∙ ap (λ l. s.logger.queue ++ l) (sym place.0));
                queue_bound = inv.batch_bound;
                batch_bound = inv.queue_bound;
                place = refl;
                failures = inv.failures;
              })
      ]

  Fits-delivering :
      (a : AsyncLogger W) → a.worker ≡ delivering → Fits a a.worker → a.batch_active ≡ true
  Fits-delivering a at f = subst (Fits a) at f

  delivers-IsOrdered :
      (s : System W) (now thread : ℕ) (a : AsyncLogger W) (n : PendingRecord) (b : Bool)
      → s.logger.worker ≡ delivering
      → deliver_next write_to policy metadata now thread s.logger ≡ some (a, n, b)
      → IsOrdered s
      → IsOrdered (record s { logger = a; delivered = s.delivered ++ ((n, b) ∷ []) })
  delivers-IsOrdered s now thread a n b at e inv =
      let d = deliver_next-Delivers write_to policy metadata now thread s.logger a n b e in
      let before = map (λ p. p.0) s.delivered in
      record {
        order =
            inv.order
            ∙ ap (λ l. before ++ (l ++ s.logger.queue)) d.left
            ∙ ap (λ q. before ++ (n ∷ (a.batch ++ q))) (sym d.queue)
            ∙ sym (append_assoc before (n ∷ []) (a.batch ++ a.queue))
            ∙ ap (λ l. l ++ (a.batch ++ a.queue))
                (sym (map-append (λ p. p.0) s.delivered ((n, b) ∷ [])));
        queue_bound = omega (arith, ap length d.queue, inv.queue_bound);
        batch_bound = omega (arith, ap length d.left, inv.batch_bound);
        place =
            subst (Fits a) (sym (d.worker ∙ at)) (d.active ∙ Fits-delivering s.logger at inv.place);
        failures =
            count-refusal s.logger.failed_records a.failed_records (refusals s.delivered)
              (refusals (s.delivered ++ ((n, b) ∷ []))) b d.failures inv.failures
              (refusals-append s.delivered n b);
      }

  -- Every step keeps the invariant: the accepted records are the delivered ones, then what is left
  -- of the batch, then the queue, in their order; queue and batch hold at most 1,024 records each;
  -- the batch agrees with where the worker is; and the failure count is the number of refused
  -- deliveries, modulo 2 ^ 64.
  pub Step-IsOrdered :
      (s t : System W) → Step write_to policy metadata s t → IsOrdered s → IsOrdered t
  unfolding finish_batch signal_shutdown
  Step-IsOrdered s t (writes level error a acc e) inv = writes-IsOrdered s level error a acc e inv
  Step-IsOrdered s t (takes a at e) inv = takes-IsOrdered s a at e inv
  Step-IsOrdered s t (delivers now thread a n b at e) inv =
      delivers-IsOrdered s now thread a n b at e inv
  Step-IsOrdered s t (finishes at e) inv = record {
    order = inv.order ∙ ap (λ l. map (λ d. d.0) s.delivered ++ (l ++ s.logger.queue)) e;
    queue_bound = inv.queue_bound;
    batch_bound = omega arith;
    place = (refl, refl);
    failures = inv.failures;
  }
  Step-IsOrdered s t (reconfigures backend) inv = record {
    order = inv.order;
    queue_bound = inv.queue_bound;
    batch_bound = inv.batch_bound;
    place = Fits-backend s.logger backend s.logger.worker inv.place;
    failures = inv.failures;
  }
  Step-IsOrdered s t shuts_down inv = record {
    order = inv.order;
    queue_bound = inv.queue_bound;
    batch_bound = inv.batch_bound;
    place = Fits-stop s.logger s.logger.worker inv.place;
    failures = inv.failures;
  }

  pub Reach-IsOrdered :
      (w : W) (backend : Logger) (s : System W)
      → Reach write_to policy metadata w backend s
      → IsOrdered s
  Reach-IsOrdered w backend s here = start-IsOrdered w backend
  Reach-IsOrdered w backend s (next {s = before} r st) =
      Step-IsOrdered before s st (Reach-IsOrdered w backend before r)
