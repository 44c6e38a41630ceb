-- ===== src/Logger.antt =====
-- include/vosp/logger.hpp: levels, policies and records, and the text of a record.
pub mod Lines
mod Tests
use micro_error_framework.Prelude.{
  ℕ, zero, suc, ◌+◌, ◌-◌, ◌*◌, ◌/◌, ◌%◌, ◌^◌, ◌≤◌, ◌<◌, min, compare, Ordering, bit_xor, String,
  ◌≡◌, refl, sym, ap, ap₂, subst, fun_ext, ◌∙◌, ◌≡⟨◌⟩◌, ◌∎, ◌≢◌, ◌↔◌, ◌⊎◌, inl, inr, Bool, true,
  false, not, ◌&&◌, ◌||◌, Option, none, some, List, [], ◌∷◌, ◌++◌, map, append-nil, append_assoc,
  arith, dec_lt, ℕ_discrete, ltb, leb, ◌==◌, if◌then◌else◌, ltb→lt, lt→ltb, leb→le, ==_iff, ==_refl,
  Bool-cases, Option-cases, is_some, Text, codes, text_eq, text_eq_refl, text_eq_iff, length,
  get_elem?, set, take, drop, length-append, length-set, get_elem?-set_self, get_elem?-set_ne,
  length-take, length-drop, take-append-drop, length-map, All,
}
use micro_error_framework.Error.{
  Category, Error, Outcome, returned, threw_exception, threw_unknown, category_name,
}

-- `enum class Level`, over 8 bits. `unnamed` stands for the values that have no enumerator.
pub data Level : Type 0 where
  trace debug info warning error critical : Level
  unnamed : ℕ → Level

-- `static_cast<std::uint8_t>(level)`
unfoldable pub severity : Level → ℕ
severity trace = 0
severity debug = 1
severity info = 2
severity warning = 3
severity error = 4
severity critical = 5
severity (unnamed n) = n % 2 ^ 8

-- `to_string(Level)`
unfoldable pub level_name : Level → Text
level_name trace = codes "TRACE"
level_name debug = codes "DEBUG"
level_name info = codes "INFO"
level_name warning = codes "WARNING"
level_name error = codes "ERROR"
level_name critical = codes "CRITICAL"
level_name (unnamed n) = codes "UNKNOWN"

-- `to_string(Category)` of the logger.
unfoldable pub category_text : Category → Text
category_text Category.network = codes "NETWORK"
category_text Category.database = codes "DATABASE"
category_text Category.filesystem = codes "FILESYSTEM"
category_text Category.no_category = codes "NONE"
category_text (Category.unnamed n) = codes "UNKNOWN"

-- The filter policies.
pub data Policy : Type 0 where
  accept_all : Policy
  minimum_level : Level → Policy

unfoldable pub accepts : Policy → Level → Bool
unfolding severity
accepts accept_all level = true
accepts (minimum_level minimum) level = leb (severity minimum) (severity level)

-- The metadata policies: a record's time and thread, from the clock and the running thread. Zero
-- stands for the default time point and the default thread id.
pub data MetadataPolicy : Type 0 where
  full_metadata minimal_metadata : MetadataPolicy

unfoldable pub timestamp : MetadataPolicy → ℕ → ℕ
timestamp full_metadata now = now
timestamp minimal_metadata now = 0

unfoldable pub thread_id : MetadataPolicy → ℕ → ℕ
thread_id full_metadata this_thread = this_thread
thread_id minimal_metadata this_thread = 0

pub record LogEntry : Type 0 where
  pub timestamp : ℕ
  pub thread_id : ℕ
  pub level : Level
  pub error : Error
