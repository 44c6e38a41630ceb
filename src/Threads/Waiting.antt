-- ===== src/Threads/Waiting.antt =====
-- `wait` and `notify_idle_waiters` of include/vosp/worker_pool.hpp: threads that block on
-- `completion_epoch_` until the pool is idle, and the threads that wake them. A step is one access to
-- an atomic, in any order between the threads; the accesses are sequentially consistent here.
pub mod Turn
pub mod Accounts
pub mod Covered
pub mod Kept
pub mod Unblocked
pub mod Returns
mod Tests
use micro_error_framework.Prelude.{
  ℕ, zero, suc, ◌+◌, ◌-◌, ◌*◌, ◌/◌, ◌%◌, ◌^◌, ◌≤◌, ◌<◌, min, compare, Ordering, bit_xor, String,
  ◌≡◌, refl, sym, ap, ap₂, subst, fun_ext, ◌∙◌, ◌≡⟨◌⟩◌, ◌∎, ◌≢◌, ◌↔◌, ◌⊎◌, inl, inr, Bool, true,
  false, not, ◌&&◌, ◌||◌, Option, none, some, List, [], ◌∷◌, ◌++◌, map, append-nil, append_assoc,
  arith, dec_lt, ℕ_discrete, ltb, leb, ◌==◌, if◌then◌else◌, ltb→lt, lt→ltb, leb→le, ==_iff, ==_refl,
  Bool-cases, Option-cases, is_some, Text, codes, text_eq, text_eq_refl, text_eq_iff, length,
  get_elem?, set, take, drop, length-append, length-set, get_elem?-set_self, get_elem?-set_ne,
  length-take, length-drop, take-append-drop, length-map, All, All-map, All-implies,
  get_elem?-bound, get_elem?-map, All-set, All-get,
}
use micro_error_framework.Pool.Word.{active_from_state, fetch_add, fetch_sub}
use micro_error_framework.Pool.{Pool, is_idle, active_tasks, finish_tasks}
use micro_error_framework.Threads.{
  System, Step, submits, refills, claims, executes, finishes, exits, clears, stops_accepting,
  requests_stop, takes_workers, start,
}

-- Where a thread stands in `wait`: before the test of the loop, before it adds itself to
-- `waiting_for_idle_`, before it loads the epoch, before the second test, before it compares the epoch
-- with what it has loaded, blocked, before it takes itself off, and after the loop.
pub data Waiter : Type 0 where
  testing entering counted : Waiter
  loaded comparing blocked : ℕ → Waiter
  leaving returned : Waiter

-- Where a thread stands that may have to wake waiters: in `cancel_pending`, before it loads the word
-- again; in `notify_idle_waiters`, before each of its three lines; and after them.
pub data Notifier : Type 0 where
  cancelled asked counting telling finished : Notifier

-- `raised` counts the increments of `completion_epoch`, which wraps around.
pub record Waiting : Type 0 where
  pub system : System
  pub waiters : List Waiter
  pub notifiers : List Notifier
  pub waiting_for_idle : ℕ
  pub completion_epoch : ℕ
  pub raised : ℕ

-- Who has to think of the waiters after a step: `finish_tasks` that finds the pool idle, and
-- `cancel_pending` that has cancelled something.
abbrev pub called : {s t : System} → Step s t → List Notifier
called (submits item p e) = []
called (refills callbacks p n e) = []
called (claims i seen p items at few_seen e ne) = []
called (executes i item items n at) = []
called {s} (finishes i n at) = if (finish_tasks s.pool n).1 then asked ∷ [] else []
called (exits i at e stops) = []
called (clears p n e) = if n == 0 then [] else cancelled ∷ []
called stops_accepting = []
called (requests_stop h) = []
called (takes_workers h) = []

-- The next access of a thread in `wait`. One that is blocked has none.
unfoldable pub waiter_next : Bool → ℕ → Waiter → Waiter
waiter_next idle epoch testing = if idle then returned else entering
waiter_next idle epoch entering = counted
waiter_next idle epoch counted = loaded epoch
waiter_next idle epoch (loaded e) = if idle then leaving else comparing e
waiter_next idle epoch (comparing e) = if e == epoch then blocked e else leaving
waiter_next idle epoch (blocked e) = blocked e
waiter_next idle epoch leaving = testing
waiter_next idle epoch returned = returned

-- What it does to `waiting_for_idle_`.
unfoldable pub waiter_counts : Waiter → ℕ → ℕ
waiter_counts testing n = n
waiter_counts entering n = fetch_add n 1
waiter_counts counted n = n
waiter_counts (loaded e) n = n
waiter_counts (comparing e) n = n
waiter_counts (blocked e) n = n
waiter_counts leaving n = fetch_sub n 1
waiter_counts returned n = n

-- A blocked thread that is woken compares again.
abbrev pub woken : Waiter → Waiter
woken testing = testing
woken entering = entering
woken counted = counted
woken (loaded e) = loaded e
woken (comparing e) = comparing e
woken (blocked e) = comparing e
woken leaving = leaving
woken returned = returned

-- The next access of a thread in `cancel_pending` or `notify_idle_waiters`.
unfoldable pub notifier_next : ℕ → ℕ → Notifier → Notifier
notifier_next active waiting cancelled = if active == 0 then asked else finished
notifier_next active waiting asked = if waiting == 0 then finished else counting
notifier_next active waiting counting = telling
notifier_next active waiting telling = finished
notifier_next active waiting finished = finished

-- What else it does: it increments the epoch, or it is the `notify_all`.
unfoldable pub notifier_does : Notifier → Waiting → Waiting
notifier_does cancelled s = s
notifier_does asked s = s
notifier_does counting s = record s {
  completion_epoch = fetch_add s.completion_epoch 1;
  raised = s.raised + 1;
}
notifier_does telling s = record s { waiters = map woken s.waiters }
notifier_does finished s = s

-- An access of thread `j` of those that notify.
abbrev pub notify : Waiting → ℕ → Notifier → Waiting
notify s j m = notifier_does m (record s {
  notifiers = set s.notifiers j (notifier_next (active_tasks s.system.pool) s.waiting_for_idle m);
})

pub data WaitingStep (s : Waiting) : Waiting → Type 0 where
  -- a step of the pool
  acts :
      {t : System} (st : Step s.system t)
      → WaitingStep s (record s { system = t; notifiers = called st ++ s.notifiers })
  -- a call of `wait`
  calls : WaitingStep s (record s { waiters = testing ∷ s.waiters })
  waits :
      (i : ℕ) (w : Waiter)
      → get_elem? s.waiters i ≡ some w
      → WaitingStep s (record s {
        waiters = set s.waiters i (waiter_next (is_idle s.system.pool) s.completion_epoch w);
        waiting_for_idle = waiter_counts w s.waiting_for_idle;
      })
  -- a blocked thread that wakes up for no reason
  unblocks :
      (i e : ℕ)
      → get_elem? s.waiters i ≡ some (blocked e)
      → WaitingStep s (record s { waiters = set s.waiters i (comparing e) })
  notifies :
      (j : ℕ) (m : Notifier) → get_elem? s.notifiers j ≡ some m → WaitingStep s (notify s j m)

pub data WaitingReach (p : Pool) : Waiting → Type 0 where
  here : WaitingReach p (record {
    system = start p;
    waiters = [];
    notifiers = [];
    waiting_for_idle = 0;
    completion_epoch = 0;
    raised = 0;
  })
  next : {s t : Waiting} → WaitingReach p s → WaitingStep s t → WaitingReach p t
