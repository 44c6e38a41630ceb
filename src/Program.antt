-- ===== src/Program.antt =====
-- main.cpp: one record through a logger and an immediate sink, down to the standard output.
mod Tests
use micro_error_framework.Prelude.{
  ℕ, zero, suc, ◌+◌, ◌-◌, ◌*◌, ◌/◌, ◌%◌, ◌^◌, ◌≤◌, ◌<◌, min, compare, Ordering, bit_xor, String,
  ◌≡◌, refl, sym, ap, ap₂, subst, fun_ext, ◌∙◌, ◌≡⟨◌⟩◌, ◌∎, ◌≢◌, ◌↔◌, ◌⊎◌, inl, inr, Bool, true,
  false, not, ◌&&◌, ◌||◌, Option, none, some, List, [], ◌∷◌, ◌++◌, map, append-nil, append_assoc,
  arith, dec_lt, ℕ_discrete, ltb, leb, ◌==◌, if◌then◌else◌, ltb→lt, lt→ltb, leb→le, ==_iff, ==_refl,
  Bool-cases, Option-cases, is_some, Text, codes, text_eq, text_eq_refl, text_eq_iff, length,
  get_elem?, set, take, drop, length-append, length-set, get_elem?-set_self, get_elem?-set_ne,
  length-take, length-drop, take-append-drop, length-map, All, All-map, All-implies,
}
use micro_error_framework.Error.{network, Error, Outcome, returned, threw_exception, threw_unknown}
use micro_error_framework.Logger.{
  Level, LogEntry, accepts, timestamp, thread_id, accept_all, full_metadata,
}
use micro_error_framework.Logger.Lines.{line}
use micro_error_framework.Sync.{construct, write_entry}
use micro_error_framework.Sync.Facade.{info}
use micro_error_framework.Sinks.{Stream, write_chars, is_good, write_immediate}
use micro_error_framework.Sinks.Output.{write_immediate_lem}

abbrev pub ready : Error
ready = record { message = codes "MicroErrorSystem is ready"; code = 1001; category = network }

-- The only sink, over the standard output.
unfoldable pub write_to : Stream → ℕ → LogEntry → Stream × Outcome Bool
write_to output sink entry =
    let (output', good) = write_immediate output entry in (output', returned good)

-- `main`, on the standard output, with the clock's time and the thread's number. Its value is the
-- status that the process exits with.
unfoldable pub run_main : ℕ → ℕ → Stream → Stream × Outcome ℕ
unfolding construct write_entry info write_to
run_main now this_thread output =
    let logger = construct (0 ∷ []) in
    let write : Stream → Level → Error → Stream × Outcome Bool = λ w level error.
      write_entry write_to accept_all full_metadata now this_thread logger logger w level error in
    let (output', reply) = info write write output ready true in
    elim reply [
      | returned good ↦ (output', returned (if good then 0 else 1))
      | threw_exception what ↦ (output', threw_exception what)
      | Outcome.threw_unknown ↦ (output', threw_unknown)
    ]

abbrev pub ready_entry : ℕ → ℕ → LogEntry
ready_entry now this_thread = record {
  timestamp = now;
  thread_id = this_thread;
  level = Level.info;
  error = ready;
}

-- Whatever the state of the standard output, the clock and the thread: `main` returns; it gives the
-- output the line of its record and nothing else; and its status is 0 if the output is good after
-- that, and 1 if not.
pub run_main_lem :
    (now this_thread : ℕ) (output : Stream)
    → run_main now this_thread output ≡ (
      write_chars output (line (ready_entry now this_thread)),
      returned (if is_good (write_chars output (line (ready_entry now this_thread))) then 0 else 1),
    )
unfolding run_main accepts timestamp thread_id
run_main_lem now this_thread output =
    ap (λ r. (r.0, returned (if r.1 then 0 else 1)))
      (write_immediate_lem output (ready_entry now this_thread))
