-- ===== src/Pool/Word/Fields.antt =====
-- The word as three fields: what each atomic operation of include/vosp/worker_pool.hpp does to them.
use micro_error_framework.Prelude.{
  ℕ, ◌+◌, ◌-◌, ◌*◌, ◌%◌, ◌^◌, ◌≤◌, ◌<◌, ◌≡◌, Bool, true, false, arith,
}
use micro_error_framework.Pool.Word.{
  pending_from_state, is_stopping_state, active_from_state, fetch_add, fetch_sub, fetch_or_stopping,
  active_unit, stopping_mask,
}

abbrev flag : Bool → ℕ
flag true = 2 ^ 63
flag false = 0

-- The word with `pending` queued and `active` claimed tasks.
unfoldable pub word : ℕ → ℕ → Bool → ℕ
word pending active stopping = pending + active * active_unit + flag stopping

-- The room that the layout has: 11 bits for the queued tasks, and 52 for the claimed ones.
pub record Fits (pending active : ℕ) : Type 0 where
  pub pending_fits : pending < 2 ^ 11
  pub active_fits : active < 2 ^ 52

-- Within the bounds of the word, the queued tasks and the stop flag are read back exactly, and the
-- claimed tasks modulo 2048.
pub word_fields :
    (pending active : ℕ) (stopping : Bool)
    → Fits pending active
    → (pending_from_state (word pending active stopping) ≡ pending)
      × (active_from_state (word pending active stopping) ≡ active % 2048)
      × (is_stopping_state (word pending active stopping) ≡ stopping)
unfolding word pending_from_state active_from_state is_stopping_state
word_fields pending active true f = (omega arith, omega arith, ground arith)
word_fields pending active false f = (omega arith, omega arith, ground arith)

-- `fetch_add(n)` queues `n` tasks.
pub fetch_add-queued :
    (pending active n : ℕ) (stopping : Bool)
    → Fits (pending + n) active
    → fetch_add (word pending active stopping) n ≡ word (pending + n) active stopping
unfolding word fetch_add
fetch_add-queued pending active n true f = omega arith
fetch_add-queued pending active n false f = omega arith

-- `fetch_add(n * (active_unit_ - 1))` moves `n` tasks from the queue to the workers.
pub fetch_add-claimed :
    (pending active n : ℕ) (stopping : Bool)
    → n ≤ pending
    → Fits pending (active + n)
    → fetch_add (word pending active stopping) (n * (active_unit - 1))
      ≡ word (pending - n) (active + n) stopping
unfolding word fetch_add
fetch_add-claimed pending active n true h f = omega arith
fetch_add-claimed pending active n false h f = omega arith

-- `fetch_sub(n * active_unit_)` finishes `n` tasks.
pub fetch_sub-finished :
    (pending active n : ℕ) (stopping : Bool)
    → n ≤ active
    → Fits pending active
    → fetch_sub (word pending active stopping) (n * active_unit)
      ≡ word pending (active - n) stopping
unfolding word fetch_sub
fetch_sub-finished pending active n true h f = omega arith
fetch_sub-finished pending active n false h f = omega arith

-- `fetch_sub(n)` takes `n` tasks off the queue.
pub fetch_sub-cancelled :
    (pending active n : ℕ) (stopping : Bool)
    → n ≤ pending
    → Fits pending active
    → fetch_sub (word pending active stopping) n ≡ word (pending - n) active stopping
unfolding word fetch_sub
fetch_sub-cancelled pending active n true h f = omega arith
fetch_sub-cancelled pending active n false h f = omega arith

flag_set :
    (pending active : ℕ) → word pending active false + stopping_mask ≡ word pending active true
unfolding word
flag_set pending active = omega arith

-- `fetch_or(stopping_mask_)` sets the flag and nothing else.
pub fetch_or_stopping-word :
    (pending active : ℕ) (stopping : Bool)
    → Fits pending active
    → fetch_or_stopping (word pending active stopping) ≡ word pending active true
unfolding fetch_or_stopping
fetch_or_stopping-word pending active true f = rw (word_fields pending active true f).2
fetch_or_stopping-word pending active false f =
    rw (word_fields pending active false f).2 (flag_set pending active)
