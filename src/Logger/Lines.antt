-- ===== src/Logger/Lines.antt =====
-- `prepare_text_record` of include/vosp/logger.hpp: a record's line, of which a buffer of 512 bytes
-- holds the start or, if it fits, all.
use micro_error_framework.Prelude.{
  ℕ, ◌+◌, ◌-◌, ◌^◌, ◌≤◌, ◌<◌, ◌≡◌, refl, inl, inr, Bool, true, false, [], ◌∷◌, ◌++◌, arith, ltb,
  if◌then◌else◌, ltb→lt, Bool-cases, Text, codes, length, length-append,
}
use micro_error_framework.Prelude.Decimal.{decimal, length-decimal-le}
use micro_error_framework.Error.{Category}
use micro_error_framework.Logger.{Level, level_name, category_text, LogEntry}

-- `prefix` is the buffer up to `prefix_size`.
pub record PreparedTextRecord : Type 0 where
  pub prefix : Text
  pub message : Text
  pub message_is_buffered : Bool

abbrev pub prefix_capacity : ℕ
prefix_capacity = 512

-- What is appended before the message.
unfoldable pub header : LogEntry → Text
unfolding level_name category_text decimal
header entry =
    codes "["
    ++ (level_name entry.level
        ++ (codes "] ["
            ++ (category_text entry.error.category
                ++ (codes "] code=" ++ (decimal entry.error.code ++ codes " message=")))))

unfoldable pub prepare_text_record : LogEntry → PreparedTextRecord
unfolding header
prepare_text_record entry =
    let cursor = header entry in
    let message = entry.error.message in
    let remaining = prefix_capacity - length cursor in
    if ltb (length message) remaining
    then record {
      prefix = cursor ++ (message ++ (b'\n' ∷ []));
      message = message;
      message_is_buffered = true;
    }
    else record { prefix = cursor; message = message; message_is_buffered = false }

-- The line of a record.
abbrev pub line : LogEntry → Text
line entry = header entry ++ (entry.error.message ++ (b'\n' ∷ []))

length-level_name-le : (l : Level) → length (level_name l) ≤ 8
unfolding level_name
length-level_name-le Level.trace = omega arith
length-level_name-le Level.debug = omega arith
length-level_name-le Level.info = omega arith
length-level_name-le Level.warning = omega arith
length-level_name-le Level.error = omega arith
length-level_name-le Level.critical = omega arith
length-level_name-le (Level.unnamed n) = omega arith

length-category_text-le : (c : Category) → length (category_text c) ≤ 10
unfolding category_text
length-category_text-le Category.network = omega arith
length-category_text-le Category.database = omega arith
length-category_text-le Category.filesystem = omega arith
length-category_text-le Category.no_category = omega arith
length-category_text-le (Category.unnamed n) = omega arith

length-header-le : (entry : LogEntry) → entry.error.code < 2 ^ 32 → length (header entry) ≤ 48
unfolding header
length-header-le entry h =
    let l = level_name entry.level in
    let c = category_text entry.error.category in
    let d = decimal entry.error.code in
    omega (
      arith,
      length-append l (codes "] [" ++ (c ++ (codes "] code=" ++ (d ++ codes " message=")))),
      length-append c (codes "] code=" ++ (d ++ codes " message=")),
      length-append d (codes " message="),
      length-level_name-le entry.level,
      length-category_text-le entry.error.category,
      length-decimal-le entry.error.code h,
    )

-- For a 32-bit code, the text before the message takes at most 48 bytes and the buffer never holds
-- more than its 512. The line is the buffer, followed, if the message is not in it, by the message
-- and the end of the line.
pub prepare_text_record_lem :
    (entry : LogEntry)
    → entry.error.code < 2 ^ 32
    → (length (prepare_text_record entry).prefix ≤ prefix_capacity)
      × (length (header entry) ≤ 48)
      × ((prepare_text_record entry).message_is_buffered ≡ true
          → (prepare_text_record entry).prefix ≡ line entry)
      × ((prepare_text_record entry).message_is_buffered ≡ false
          → (prepare_text_record entry).prefix
              ++ ((prepare_text_record entry).message ++ (b'\n' ∷ []))
            ≡ line entry)
unfolding prepare_text_record
prepare_text_record_lem entry h =
    let short = length-header-le entry h in
    let m = entry.error.message in
    let sizes : length (line entry) ≡ length (header entry) + (length m + 1) =
      omega
        (arith, length-append (header entry) (m ++ (b'\n' ∷ [])), length-append m (b'\n' ∷ [])) in
    elim (Bool-cases (ltb (length m) (prefix_capacity - length (header entry)))) [
      | inl y ↦
          let fits = ltb→lt (length m) (prefix_capacity - length (header entry)) y in
          rw (y) (omega arith, short, λ q. refl, λ q. cc)
      | inr n ↦ rw (n) (omega arith, short, λ q. cc, λ q. refl)
    ]
