-- ===== src/Pool/Slots.antt =====
-- include/vosp/worker_pool.hpp, `tasks_`, `queue_head_` and `queue_tail_`: the ring of task slots.
-- How many slots are taken is not stored here: it is the pending field of the state word.
pub mod Refine
use micro_error_framework.Prelude.{
  ℕ, zero, suc, ◌+◌, ◌-◌, ◌*◌, ◌/◌, ◌%◌, ◌^◌, ◌≤◌, ◌<◌, min, compare, Ordering, bit_xor, String,
  ◌≡◌, refl, sym, ap, ap₂, subst, fun_ext, ◌∙◌, ◌≡⟨◌⟩◌, ◌∎, ◌≢◌, ◌↔◌, ◌⊎◌, inl, inr, Bool, true,
  false, not, ◌&&◌, ◌||◌, Option, none, some, List, [], ◌∷◌, ◌++◌, map, append-nil, append_assoc,
  arith, dec_lt, ℕ_discrete, ltb, leb, ◌==◌, if◌then◌else◌, ltb→lt, lt→ltb, leb→le, ==_iff, ==_refl,
  Bool-cases, Option-cases, is_some, Text, codes, text_eq, text_eq_refl, text_eq_iff, length,
  get_elem?, set, take, drop, length-append, length-set, get_elem?-set_self, get_elem?-set_ne,
  length-take, length-drop, take-append-drop, length-map, All,
}

-- A slot is a `std::optional`.
pub record Ring {ℓ} (A : Type ℓ) : Type ℓ where
  pub slots : List (Option A)
  pub capacity : ℕ
  pub head : ℕ
  pub tail : ℕ

unfoldable pub next_queue_index : ℕ → ℕ → ℕ
next_queue_index capacity index = if index + 1 == capacity then 0 else index + 1

module _ {ℓ} {A : Type ℓ} where
  abbrev pub replicate : ℕ → Option A → List (Option A)
  replicate zero a = []
  replicate (suc n) a = a ∷ replicate n a

  -- `tasks_(queue_capacity_)`: all slots are empty.
  unfoldable pub create : ℕ → Ring A
  create capacity = record {
    slots = replicate capacity none;
    capacity = capacity;
    head = 0;
    tail = 0;
  }

  -- `tasks_[queue_tail_].emplace(item); queue_tail_ = next_queue_index(queue_tail_);`
  unfoldable pub emplace_tail : Ring A → A → Ring A
  unfolding next_queue_index
  emplace_tail r item = record r {
    slots = set r.slots r.tail (some item);
    tail = next_queue_index r.capacity r.tail;
  }

  -- `*tasks_[queue_head_]`; `none` is an access to an empty slot, or out of range.
  unfoldable pub front : Ring A → Option A
  front r = elim (get_elem? r.slots r.head) [ none ↦ none | some slot ↦ slot ]

  -- `tasks_[queue_head_].reset(); queue_head_ = next_queue_index(queue_head_);`
  unfoldable pub reset_head : Ring A → Ring A
  unfolding next_queue_index
  reset_head r = record r {
    slots = set r.slots r.head none;
    head = next_queue_index r.capacity r.head;
  }
