-- ===== src/Pool/Word.antt =====
-- include/vosp/worker_pool.hpp, `queue_state_`: one 64-bit word that holds the number of queued tasks
-- (bits 0 to 10), the number of claimed tasks (from bit 11 on) and the stop flag (bit 63). A mask of
-- low bits is a remainder, a shift right a quotient; the atomic operations wrap.
pub mod Fields
use micro_error_framework.Prelude.{
  ℕ, zero, suc, ◌+◌, ◌-◌, ◌*◌, ◌/◌, ◌%◌, ◌^◌, ◌≤◌, ◌<◌, min, compare, Ordering, bit_xor, String,
  ◌≡◌, refl, sym, ap, ap₂, subst, fun_ext, ◌∙◌, ◌≡⟨◌⟩◌, ◌∎, ◌≢◌, ◌↔◌, ◌⊎◌, inl, inr, Bool, true,
  false, not, ◌&&◌, ◌||◌, Option, none, some, List, [], ◌∷◌, ◌++◌, map, append-nil, append_assoc,
  arith, dec_lt, ℕ_discrete, ltb, leb, ◌==◌, if◌then◌else◌, ltb→lt, lt→ltb, leb→le, ==_iff, ==_refl,
  Bool-cases, Option-cases, is_some, Text, codes, text_eq, text_eq_refl, text_eq_iff, length,
  get_elem?, set, take, drop, length-append, length-set, get_elem?-set_self, get_elem?-set_ne,
  length-take, length-drop, take-append-drop, length-map, All,
}

abbrev pub count_bits : ℕ
count_bits = 11

abbrev pub active_shift : ℕ
active_shift = count_bits

abbrev pub stopping_mask : ℕ
stopping_mask = 2 ^ 63

abbrev pub active_unit : ℕ
active_unit = 2 ^ active_shift

abbrev pub size_mod : ℕ
size_mod = 2 ^ 64

-- `state & pending_mask_`
unfoldable pub pending_from_state : ℕ → ℕ
pending_from_state state = state % 2 ^ count_bits

-- `(state & stopping_mask_) != 0`
unfoldable pub is_stopping_state : ℕ → Bool
is_stopping_state state = not (state / 2 ^ 63 % 2 == 0)

-- `(state & active_mask_) >> active_shift_`
unfoldable pub active_from_state : ℕ → ℕ
active_from_state state = state / 2 ^ active_shift % 2 ^ count_bits

unfoldable pub fetch_add : ℕ → ℕ → ℕ
fetch_add state n = (state + n) % size_mod

unfoldable pub fetch_sub : ℕ → ℕ → ℕ
fetch_sub state n = (state + size_mod - n) % size_mod

-- `fetch_or(stopping_mask_)`
unfoldable pub fetch_or_stopping : ℕ → ℕ
fetch_or_stopping state = if is_stopping_state state then state else state + stopping_mask
