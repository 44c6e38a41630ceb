-- ===== src/Logger/Tests.antt =====
-- The theorems on the text of a record at concrete inputs (include/vosp/logger.hpp).
use micro_error_framework.Prelude.{◌≤◌, ◌≡◌, refl, true, false, [], ◌∷◌, ◌++◌, arith, codes, length}
use micro_error_framework.Error.{Category}
use micro_error_framework.Logger.{Level, LogEntry}
use micro_error_framework.Logger.Lines.{
  header, line, prepare_text_record, prefix_capacity, prepare_text_record_lem,
}

abbrev refused : LogEntry
refused = record {
  timestamp = 0;
  thread_id = 0;
  level = Level.error;
  error = record { message = codes "refused"; code = 7; category = Category.network };
}

refused-line : line refused ≡ codes "[ERROR] [NETWORK] code=7 message=refused\n"
unfolding header
refused-line = refl

prepare_text_record_lem_example :
    (length (prepare_text_record refused).prefix ≤ prefix_capacity)
    × (length (header refused) ≤ 48)
    × ((prepare_text_record refused).message_is_buffered ≡ true
        → (prepare_text_record refused).prefix ≡ line refused)
    × ((prepare_text_record refused).message_is_buffered ≡ false
        → (prepare_text_record refused).prefix
            ++ ((prepare_text_record refused).message ++ (b'\n' ∷ []))
          ≡ line refused)
prepare_text_record_lem_example = prepare_text_record_lem refused (omega arith)
