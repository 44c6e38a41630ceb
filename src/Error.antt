-- ===== src/Error.antt =====
-- include/vosp/error.hpp: error values, their text and hash, and the translation of exceptions.
-- The registers, handlers and systems of that file are in Register, Handler and Systems.
pub mod Equality
pub mod Attempt
pub mod Print
mod Tests
use micro_error_framework.Prelude.{
  ℕ, ◌+◌, ◌*◌, ◌/◌, ◌%◌, ◌^◌, ◌==◌, bit_xor, if◌then◌else◌, Bool, true, false, not, ◌&&◌, Option,
  none, some, [], ◌∷◌, ◌++◌, Text, text_eq, codes,
}
use micro_error_framework.Prelude.Decimal.{decimal}

-- `enum class Category`. A C++ enumeration holds any value of its underlying type: `unnamed` stands
-- for the 16-bit values that have no enumerator.
pub data Category : Type 0 where
  network database filesystem no_category : Category
  unnamed : ℕ → Category

-- `static_cast<std::uint16_t>(category)`
unfoldable pub underlying : Category → ℕ
underlying network = 0
underlying database = 1
underlying filesystem = 2
underlying no_category = 0xffff
underlying (unnamed n) = n % 2 ^ 16

-- `class Error`. The code is a `std::uint32_t`.
pub record Error : Type 0 where
  pub message : Text
  pub code : ℕ
  pub category : Category

-- `operator==` of the enumeration.
unfoldable pub category_eq : Category → Category → Bool
category_eq network network = true
category_eq database database = true
category_eq filesystem filesystem = true
category_eq no_category no_category = true
category_eq (unnamed m) (unnamed n) = m == n
category_eq _ _ = false

-- The defaulted `Error::operator==`: the members in their order.
unfoldable pub error_eq : Error → Error → Bool
unfolding category_eq text_eq
error_eq a b =
    text_eq a.message b.message && ((a.code == b.code) && category_eq a.category b.category)

unfoldable pub has_category : Error → Bool
unfolding category_eq
has_category e = not (category_eq e.category no_category)

-- `std::expected<Type, Error>`; `OperationResult` has no success value.
pub data Result {ℓ} (A : Type ℓ) : Type ℓ where
  ok : A → Result A
  err : Error → Result A

abbrev pub OperationResult : Type 0
OperationResult = Result (Unit {0})

-- `Model::make_error`
unfoldable pub make_error : ℕ → Text → Error
make_error code message = record { message = message; code = code; category = no_category }

unfoldable pub category_name : Category → Text
category_name network = codes "NETWORK"
category_name database = codes "DATABASE"
category_name filesystem = codes "FILESYSTEM"
category_name no_category = codes "NONE"
category_name (unnamed n) = codes "UNKNOWN"

-- `std::format("[{}:{}] {}", ...)`
unfoldable pub to_string : Error → Text
unfolding category_name decimal
to_string e =
    b'[' ∷ (category_name e.category ++ (b':' ∷ (decimal e.code ++ (b']' ∷ b' ' ∷ e.message))))

-- `ErrorHash`, over the three `std::hash` functions, which the standard leaves open. A `std::size_t`
-- has 64 bits: sums and left shifts wrap.
module _ (hash_code : ℕ → ℕ) (hash_message : Text → ℕ) (hash_category : ℕ → ℕ) where
  unfoldable pub error_hash : Error → ℕ
  unfolding underlying
  error_hash e =
      let code_hash = hash_code e.code in
      let message_hash = hash_message e.message in
      let category_hash = hash_category (underlying e.category) in
      bit_xor
        (bit_xor code_hash
          ((message_hash + 0x9e3779b9 + code_hash * 2 ^ 6 % 2 ^ 64 + code_hash / 2 ^ 2) % 2 ^ 64))
        (category_hash * 2 % 2 ^ 64)

-- What a call of foreign code does: it returns, or it throws. `what()` may be a null pointer.
pub data Outcome {ℓ} (A : Type ℓ) : Type ℓ where
  returned : A → Outcome A
  threw_exception : Option Text → Outcome A
  threw_unknown : Outcome A

-- `diagnostic != nullptr ? std::string_view{diagnostic} : std::string_view{}`
abbrev pub detail_of : Option Text → Text
detail_of none = []
detail_of (some text) = text

-- The message of the generated error: the context and the detail, joined by ": " if both are there.
unfoldable pub describe : Text → Text → Text
describe context [] = context
describe [] (c ∷ s) = c ∷ s
describe (d ∷ t) (c ∷ s) = (d ∷ t) ++ (b':' ∷ b' ' ∷ c ∷ s)

-- `attempt`: the function is given by what its invocation does.
unfoldable pub attempt {ℓ} : {A : Type ℓ} → Error → Outcome A → Result A
unfolding describe
attempt failure (returned a) = ok a
attempt failure (threw_exception what) =
    err (record failure { message = describe failure.message (detail_of what) })
attempt failure threw_unknown = err failure

abbrev pub duplicate_error_code : ℕ
duplicate_error_code = 0xE001

abbrev pub missing_error_code : ℕ
missing_error_code = 0xE002

abbrev pub missing_register_code : ℕ
missing_register_code = 0xE003

abbrev pub register_capacity_error_code : ℕ
register_capacity_error_code = 0xE005

abbrev pub register_category_error_code : ℕ
register_category_error_code = 0xE006

abbrev pub max_register_capacity : ℕ
max_register_capacity = 1_000_000

-- `predefined::make`: where the string cannot be built, the message is empty.
unfoldable pub make : Category → ℕ → Outcome Text → Error
make category code (returned message) = record {
  message = message;
  code = code;
  category = category;
}
make category code (threw_exception what) = record {
  message = [];
  code = code;
  category = category;
}
make category code threw_unknown = record { message = []; code = code; category = category }

-- `std::formatter<Error>`: `parse` takes what follows the colon of a replacement field, and accepts
-- no format specifier.
unfoldable pub formatter_parse : Text → Outcome Text
formatter_parse [] = returned []
formatter_parse (c ∷ s) =
    if c == b'}'
    then returned (c ∷ s)
    else threw_exception (some (codes "vosp::error::Error does not accept format specifiers"))

-- `format` appends to the output of the context.
unfoldable pub formatter_format : Error → Text → Text
unfolding category_name decimal
formatter_format e out =
    out
    ++ (b'[' ∷ (category_name e.category ++ (b':' ∷ (decimal e.code ++ (b']' ∷ b' ' ∷ e.message)))))
