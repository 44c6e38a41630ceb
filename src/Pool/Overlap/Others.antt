-- ===== src/Pool/Overlap/Others.antt =====
-- The accesses of include/vosp/worker_pool.hpp that end a consumer's section, and those of threads that
-- are in none or in both.
use mathlib.Core.Option.{some-injective}
use micro_error_framework.Prelude.{
  ℕ, zero, suc, ◌+◌, ◌-◌, ◌*◌, ◌%◌, ◌^◌, ◌≤◌, ◌<◌, ◌≡◌, refl, sym, ap, subst, ◌∙◌, inr, some, List,
  [], ◌∷◌, append-nil, arith, length, get_elem?, set, length-append,
}
use micro_error_framework.Pool.Word.{fetch_add, fetch_sub, active_unit, size_mod}
use micro_error_framework.Pool.Word.Fields.{word, Fits, fetch_add-claimed, fetch_sub-finished}
use micro_error_framework.Pool.Slots.Refine.{Represents}
use micro_error_framework.Pool.Task.{TaskItem}
use micro_error_framework.Pool.{Pool, bulk_claim_size, finish_tasks}
use micro_error_framework.Pool.Shutdown.{clear_queue}
use micro_error_framework.Pool.Refine.{IsValid}
use micro_error_framework.Pool.Refine.Shutdown.{clear_queue_lem}
use micro_error_framework.Pool.Overlap.{Producer, absent, Consumer, taken, machine, count}
use micro_error_framework.Pool.Overlap.Abstract.{Queue, removes, completes, empties}
use micro_error_framework.Pool.Overlap.Invariant.{sum, Stands, Stands-Fits}
use micro_error_framework.Pool.Overlap.Producers.{Moves}

pub claim-Moves :
    (p : Pool) (q : Producer) (running : List ℕ) (batch : List TaskItem) (a : Queue)
    → Stands (machine p q (taken batch) running) a
    → a.active + bulk_claim_size < 2 ^ 52
    → Moves a
        (machine (count p (length batch * (active_unit - 1))) q absent (length batch ∷ running))
claim-Moves p q running batch a v h =
    let (some_task, few, kind) = v.served in
    let n = length batch in
    let size = length-append batch v.rest in
    let fits : Fits (length a.tasks) (a.active + n) = record {
      pending_fits = omega (arith, v.room, v.small);
      active_fits = omega arith;
    } in
    let left : length a.tasks - n ≡ length v.rest = omega (arith, size, ap length v.queue) in
    record {
      after = record a { tasks = v.rest; active = a.active + n };
      follows = inr (removes batch v.rest v.queue some_task few kind);
      stands = record {
        rest = v.rest;
        queue = refl;
        ring = v.ring;
        small = v.small;
        state =
            ap (λ s. fetch_add s (n * (active_unit - 1))) v.state
            ∙ fetch_add-claimed (length a.tasks) a.active n a.stopping
                (omega (arith, size, ap length v.queue)) fits
            ∙ ap (λ k. word k (a.active + n) a.stopping) left;
        claims = omega (arith, v.claims);
        room = omega (arith, v.room, size, ap length v.queue);
        admits = v.admits;
        served = tt;
        counter = v.counter;
      };
    }

sum-set :
    (ns : List ℕ) (i n : ℕ)
    → get_elem? ns i ≡ some n
    → (n ≤ sum ns) × (sum (set ns i 0) ≡ sum ns - n)
sum-set [] i n h = cc
sum-set (k ∷ ns) zero n h = let same : k ≡ n = some-injective _ _ h in (omega arith, omega arith)
sum-set (k ∷ ns) (suc i) n h = let rest = sum-set ns i n h in (omega arith, omega arith)

pub finish-Moves :
    (p : Pool) (q : Producer) (c : Consumer) (running : List ℕ) (i n : ℕ) (a : Queue)
    → Stands (machine p q c running) a
    → a.active < 2 ^ 52
    → get_elem? running i ≡ some n
    → Moves a (machine (finish_tasks p n).0 q c (set running i 0))
unfolding finish_tasks
finish-Moves p q c running i n a v h at =
    let (held, left) = sum-set running i n at in
    record {
      after = record a { active = a.active - n };
      follows = inr (completes n (omega (arith, v.claims)));
      stands = record {
        rest = v.rest;
        queue = v.queue;
        ring = v.ring;
        small = v.small;
        state =
            ap (λ s. fetch_sub s (n * active_unit)) v.state
            ∙ fetch_sub-finished (length a.tasks) a.active n a.stopping (omega (arith, v.claims))
                (Stands-Fits (machine p q c running) a v h);
        claims = omega (arith, v.claims, left);
        room = v.room;
        admits = v.admits;
        served = v.served;
        counter = v.counter;
      };
    }

-- With nobody in a section, a machine is a pool as the other modules have it.
pub Stands-IsValid :
    (p : Pool) (running : List ℕ) (a : Queue)
    → Stands (machine p absent absent running) a
    → a.active < 2 ^ 52
    → IsValid p a.tasks a.active a.stopping
Stands-IsValid p running a v h = record {
  ring = subst (Represents p.tasks) (append-nil v.rest ∙ sym v.queue) v.ring;
  small = v.small;
  claims = h;
  state = v.state;
}

pub cancel-Moves :
    (p p' : Pool) (running : List ℕ) (n : ℕ) (a : Queue)
    → Stands (machine p absent absent running) a
    → a.active < 2 ^ 52
    → clear_queue p ≡ some (p', n)
    → Moves a (machine p' absent absent running)
cancel-Moves p p' running n a v h e =
    let c =
      clear_queue_lem p a.tasks a.active a.stopping (Stands-IsValid p running a v h) v.counter in
    let same : c.after ≡ p' = ap (λ r. r.0) (some-injective _ _ (sym c.done ∙ e)) in
    subst (λ r. Moves a (machine r absent absent running)) same
      (record {
        after = record a { tasks = [] };
        follows = inr empties;
        stands = record {
          rest = [];
          queue = refl;
          ring = c.emptied.ring;
          small = c.emptied.small;
          state = c.emptied.state;
          claims = v.claims;
          room = omega arith;
          admits = tt;
          served = tt;
          counter = rw c.counted (mod_bound _);
        };
      })
  where
    mod_bound : (k : ℕ) → k % size_mod < size_mod
    mod_bound k = omega arith
