-- ===== src/Threads/WakeUps/Steps.antt =====
-- The steps of the waiting workers of include/vosp/worker_pool.hpp and of those that notify them leave no
-- queued task without a worker that is not blocked, or a thread that has still to notify.
use micro_error_framework.Prelude.{
  ℕ, zero, suc, ◌≤◌, ◌≡◌, refl, sym, ap, ◌∙◌, ◌≢◌, ◌⊎◌, inl, inr, Bool, some, List, [], ◌∷◌, ◌++◌,
  arith, ◌==◌, if◌then◌else◌, ==_iff, Bool-cases, length, get_elem?, set, length-set, All, All-set,
  All-get,
}
use micro_error_framework.Pool.{Pool, pending_tasks}
use micro_error_framework.Threads.{
  System, Step, submits, refills, claims, executes, finishes, exits, clears, stops_accepting,
  requests_stop, takes_workers,
}
use micro_error_framework.Threads.Total.{total, total-set}
use micro_error_framework.Threads.Invariant.{Inv, IsFresh, start-Inv}
use micro_error_framework.Threads.Steps.{Step-Inv}
use micro_error_framework.Threads.WakeUps.{
  Stage, outside, entering, counted, leaving, comparing, Waker, notifying, Handshake, observed,
  compared, IsBlocked, raises, IsOutside, HandshakeStep, acts, enters, counts, observes, compares,
  leaves, loads, notifies_one, notifies_all, announces, all_outside, HandshakeReach, here, next,
}
use micro_error_framework.Threads.WakeUps.Pending.{
  pending-stop_accepting, pending-clear_queue, pending-request_stop, pending-take_workers,
  pending-refill,
}
use micro_error_framework.Threads.WakeUps.Watch.{
  counted_in, HasSeenNone, Unblocked, Watch, total-counted_in, Unblocked-set, Unblocked-uncounted,
  IsWoken, Woken-IsWoken, all-IsWoken, observed-HasSeenNone, observed-free, compared_lem,
}

append-ne {ℓ} : {A : Type ℓ} (before after : List A) (x : A) → before ++ (x ∷ after) ≢ []
append-ne [] after x e = cc
append-ne (y ∷ before) after x e = cc

raised-ne : (a b : List Waker) → b ≢ [] → a ++ b ≢ []
raised-ne [] b ne e = ne e
raised-ne (x ∷ a) b ne e = cc

-- A worker goes to another stage.
stage-Watch :
    (p : Pool) (s : Handshake) (i n : ℕ) (w x : Stage)
    → get_elem? s.stages i ≡ some w
    → HasSeenNone x
    → (pending_tasks s.system.pool ≡ 0) ⊎ (IsBlocked x → ⊥)
    → n ≡ total counted_in (set s.stages i x)
    → Watch p s
    → Watch p (record s { stages = set s.stages i x; waiting_workers = n })
stage-Watch p s i n w x at seen free counted_now v = record {
  inv = v.inv;
  paired = length-set s.stages i x ∙ v.paired;
  counter = counted_now;
  seen = All-set HasSeenNone s.stages i x v.seen seen;
  watched = λ ne. elim free [
    | inl none_left ↦ absurd (ne none_left)
    | inr open_now ↦ inr (Unblocked-set s.stages i w x at open_now)
  ];
}

-- A step of the pool.
act-Watch :
    (p : Pool) (s : Handshake) (t : System) (wakers : List Waker)
    → Inv p t
    → (pending_tasks t.pool ≢ 0 → (wakers ≢ []) ⊎ Unblocked s.stages)
    → Watch p s
    → Watch p (record s { system = t; wakers = wakers })
act-Watch p s t wakers inv watched v = record {
  inv = inv;
  paired = v.paired;
  counter = v.counter;
  seen = v.seen;
  watched = watched;
}

-- Notified workers, and wakers that have done their part.
notified-Watch :
    (p : Pool) (s : Handshake) (stages : List Stage) (wakers : List Waker)
    → 1 ≤ p.worker_count
    → IsWoken s.stages stages
    → Watch p s
    → Watch p (record s { stages = stages; wakers = wakers })
notified-Watch p s stages wakers some_worker woken v = record {
  inv = v.inv;
  paired = woken.size ∙ v.paired;
  counter = v.counter ∙ sym woken.counts;
  seen = woken.seen_kept v.seen;
  watched = λ ne. inr (woken.freed (omega (arith, v.paired)));
}

acts-Watch :
    (p : Pool) (s : Handshake) (t : System) (st : Step s.system t)
    → IsOutside s.stages st
    → Watch p s
    → Watch p (record s { system = t; wakers = raises st ++ s.wakers })
unfolding raises
acts-Watch p s t (submits item q e) out v =
    act-Watch p s t _ (Step-Inv p s.system t (submits item q e) v.inv) (λ ne. inl (λ k. cc)) v
acts-Watch p s t (refills callbacks q n e) out v =
    act-Watch p s t _ (Step-Inv p s.system t (refills callbacks q n e) v.inv)
      (λ ne. elim (Bool-cases (n == 0)) [
        | inl y ↦
            let same = pending-refill p s.system callbacks q n v.inv e ((==_iff n 0).0 y) in
            elim (v.watched (λ k. ne (same ∙ k))) [
              | inl some_left ↦ inl (raised-ne _ s.wakers some_left)
              | inr free ↦ inr free
            ]
        | inr k ↦ inl (rw (k) (λ h. cc))
      ])
      v
acts-Watch p s t (claims i seen q items at few e some_item) out v =
    act-Watch p s t _ (Step-Inv p s.system t (claims i seen q items at few e some_item) v.inv)
      (λ ne. inr (i, outside, out, λ b. b)) v
acts-Watch p s t (executes i item items n at) out v =
    act-Watch p s t _ (Step-Inv p s.system t (executes i item items n at) v.inv)
      (λ ne. inr (i, outside, out, λ b. b)) v
acts-Watch p s t (finishes i n at) out v =
    act-Watch p s t _ (Step-Inv p s.system t (finishes i n at) v.inv)
      (λ ne. inr (i, outside, out, λ b. b)) v
acts-Watch p s t (exits i at e stops) out v =
    act-Watch p s t _ (Step-Inv p s.system t (exits i at e stops) v.inv)
      (λ ne. inr (i, outside, out, λ b. b)) v
acts-Watch p s t (clears q n e) out v =
    act-Watch p s t _ (Step-Inv p s.system t (clears q n e) v.inv)
      (λ ne. absurd (ne (pending-clear_queue p s.system q n v.inv e))) v
acts-Watch p s t stops_accepting out v =
    act-Watch p s t _ (Step-Inv p s.system t stops_accepting v.inv)
      (λ ne. v.watched (λ k. ne (pending-stop_accepting p s.system v.inv ∙ k))) v
acts-Watch p s t (requests_stop h) out v =
    act-Watch p s t _ (Step-Inv p s.system t (requests_stop h) v.inv)
      (λ ne. v.watched (λ k. ne (pending-request_stop s.system.pool ∙ k))) v
acts-Watch p s t (takes_workers h) out v =
    act-Watch p s t _ (Step-Inv p s.system t (takes_workers h) v.inv)
      (λ ne. v.watched (λ k. ne (pending-take_workers s.system.pool ∙ k))) v

-- `waiting_workers_` is loaded: if it is 0, nobody is blocked.
load-Watch :
    (p : Pool) (s : Handshake) (before after : List Waker) (single : Bool)
    → 1 ≤ p.worker_count
    → Watch p s
    → Watch p (record s {
      wakers = before ++ (if s.waiting_workers == 0 then after else notifying single ∷ after);
    })
load-Watch p s before after single some_worker v = record {
  inv = v.inv;
  paired = v.paired;
  counter = v.counter;
  seen = v.seen;
  watched = λ ne. elim (Bool-cases (s.waiting_workers == 0)) [
    | inl y ↦ inr (
        Unblocked-uncounted s.stages (omega (arith, v.paired))
          (sym v.counter ∙ (==_iff s.waiting_workers 0).0 y))
    | inr n ↦ inl (rw (n) (append-ne before after (notifying single)))
  ];
}

HandshakeStep-Watch :
    (p : Pool) (s t : Handshake)
    → IsFresh p
    → 1 ≤ p.worker_count
    → HandshakeStep s t
    → Watch p s
    → Watch p t
unfolding pending_tasks
HandshakeStep-Watch p s _ f some_worker (acts {t = t} st out) v = acts-Watch p s t st out v
HandshakeStep-Watch p s t f some_worker (enters i at at_stage none_left open_yet) v =
    stage-Watch p s i s.waiting_workers outside entering at_stage tt (inr (λ b. b))
      (omega (arith, v.counter, total-set counted_in s.stages i outside entering at_stage)) v
HandshakeStep-Watch p s t f some_worker (counts i at) v =
    stage-Watch p s i _ entering counted at tt (inr (λ b. b))
      (omega (
        arith,
        v.counter,
        v.paired,
        f.crew,
        total-counted_in s.stages,
        total-set counted_in s.stages i entering counted at,
      ))
      v
HandshakeStep-Watch p s t f some_worker (observes i at) v =
    let state = s.system.pool.queue_state in
    let (one, free) = observed-free state in
    stage-Watch p s i s.waiting_workers counted (observed state) at (observed-HasSeenNone state)
      (inr free)
      (omega (arith, v.counter, one, total-set counted_in s.stages i counted (observed state) at)) v
HandshakeStep-Watch p s t f some_worker (compares i word at) v =
    let state = s.system.pool.queue_state in
    let none_seen = All-get HasSeenNone s.stages i (comparing word) v.seen at in
    let (one, kept, free) = compared_lem state word none_seen in
    stage-Watch p s i s.waiting_workers (comparing word) (compared state word) at kept free
      (omega (
        arith,
        v.counter,
        one,
        total-set counted_in s.stages i (comparing word) (compared state word) at,
      ))
      v
HandshakeStep-Watch p s t f some_worker (leaves i at) v =
    stage-Watch p s i _ leaving outside at tt (inr (λ b. b))
      (omega (
        arith,
        v.counter,
        v.paired,
        f.crew,
        total-counted_in s.stages,
        total-set counted_in s.stages i leaving outside at,
      ))
      v
HandshakeStep-Watch p s t f some_worker (loads before after single e) v =
    load-Watch p s before after single some_worker v
HandshakeStep-Watch p s t f some_worker (notifies_one before after stages e woken) v =
    notified-Watch p s stages (before ++ after) some_worker (Woken-IsWoken woken) v
HandshakeStep-Watch p s t f some_worker (notifies_all before after e) v =
    notified-Watch p s _ (before ++ after) some_worker (all-IsWoken s.stages) v
HandshakeStep-Watch p s t f some_worker (announces stops) v =
    act-Watch p s s.system _ v.inv (λ ne. inl (λ k. cc)) v

outside-Watch :
    (n : ℕ)
    → (length (all_outside n) ≡ n)
      × (total counted_in (all_outside n) ≡ 0)
      × All HasSeenNone (all_outside n)
outside-Watch zero = (refl, refl, tt)
outside-Watch (suc n) =
    let (size, none_counted, seen) = outside-Watch n in
    (ap suc size, omega (arith, none_counted), (tt, seen))

pub HandshakeReach-Watch :
    (p : Pool) {s : Handshake} → IsFresh p → 1 ≤ p.worker_count → HandshakeReach p s → Watch p s
HandshakeReach-Watch p f some_worker here =
    let (size, none_counted, seen) = outside-Watch p.worker_count in
    record {
      inv = start-Inv p f;
      paired = size;
      counter = sym none_counted;
      seen = seen;
      watched = λ ne. inr (Unblocked-uncounted _ (omega (arith, size)) none_counted);
    }
HandshakeReach-Watch p f some_worker (next {s = s} {t = t} r st) =
    HandshakeStep-Watch p s t f some_worker st (HandshakeReach-Watch p f some_worker r)
