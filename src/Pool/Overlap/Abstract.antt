-- ===== src/Pool/Overlap/Abstract.antt =====
-- The queue of include/vosp/worker_pool.hpp as its clients see it: one step for each operation.
use micro_error_framework.Prelude.{
  ℕ, ◌+◌, ◌-◌, ◌≤◌, ◌≡◌, ◌⊎◌, Bool, true, false, List, [], ◌++◌, length, All,
}
use micro_error_framework.Pool.Task.{TaskItem}
use micro_error_framework.Pool.{bulk_claim_size}

-- `active` counts the tasks that are claimed and not finished.
pub record Queue : Type 0 where
  pub tasks : List TaskItem
  pub active : ℕ
  pub stopping : Bool

pub data QueueStep (capacity : ℕ) (a : Queue) : Queue → Type 0 where
  -- tasks come in at the end, where there is room, and never once the queue is stopping
  appends :
      (items : List TaskItem)
      → a.stopping ≡ false
      → length a.tasks + length items ≤ capacity
      → QueueStep capacity a (record a { tasks = a.tasks ++ items })
  -- tasks go out at the front: one of them, or up to sixteen bulk ones
  removes :
      (items rest : List TaskItem)
      → a.tasks ≡ items ++ rest
      → 1 ≤ length items
      → length items ≤ bulk_claim_size
      → (length items ≡ 1) ⊎ All (λ x. x.bulk ≡ true) items
      → QueueStep capacity a (record a { tasks = rest; active = a.active + length items })
  completes : (n : ℕ) → n ≤ a.active → QueueStep capacity a (record a { active = a.active - n })
  closes : QueueStep capacity a (record a { stopping = true })
  empties : QueueStep capacity a (record a { tasks = [] })

-- One step of the queue, or none.
abbrev pub Follows : ℕ → Queue → Queue → Type 0
Follows capacity a b = (a ≡ b) ⊎ QueueStep capacity a b
