-- ===== src/Program/Tests.antt =====
-- A run of main.cpp.
use micro_error_framework.Prelude.{◌≡◌, refl, false, [], if◌then◌else◌}
use micro_error_framework.Error.{returned}
use micro_error_framework.Logger.Lines.{line}
use micro_error_framework.Logger.{accepts}
use micro_error_framework.Sinks.{write_immediate, Stream, write_chars, is_good}
use micro_error_framework.Program.{run_main, ready_entry, run_main_lem}

-- An output that takes ten bytes only.
abbrev short_output : Stream
short_output = record {
  written = [];
  room = 10;
  failed = false;
  delivered = [];
  refuses_flush = false;
}

status-short_output : (run_main 0 1 short_output).1 ≡ returned 1
unfolding run_main accepts write_immediate
status-short_output = refl

run_main-short_output : run_main 0 1 short_output ≡ (
  write_chars short_output (line (ready_entry 0 1)),
  returned (if is_good (write_chars short_output (line (ready_entry 0 1))) then 0 else 1),
)
run_main-short_output = run_main_lem 0 1 short_output
