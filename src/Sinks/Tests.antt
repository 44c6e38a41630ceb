-- ===== src/Sinks/Tests.antt =====
-- The theorems on the sinks at concrete inputs (include/vosp/logger.hpp).
use micro_error_framework.Prelude.{
  ℕ, ◌≡◌, refl, ◌≢◌, ◌⊎◌, Bool, false, some, [], ◌∷◌, ◌++◌, arith, codes, All,
}
use micro_error_framework.Error.{Category}
use micro_error_framework.Logger.{Level, LogEntry}
use micro_error_framework.Logger.Lines.{line, header, prepare_text_record}
use micro_error_framework.Sinks.{
  Stream, write_chars, is_good, write_immediate, Shard, Buffered, ThreadCache, current_thread_shard,
  write, flush, flush_stream, find_shard, write_shard, append_record,
}
use micro_error_framework.Sinks.Output.{write_immediate_lem}
use micro_error_framework.Sinks.Shards.{buffer_of}
use micro_error_framework.Sinks.Flush.{buffers, flush_lem}
use micro_error_framework.Sinks.Steps.{System, update, chunk_of, Step, writes, start, here, next}
use micro_error_framework.Sinks.Steps.Invariant.{text_of, all_text, Inv}
use micro_error_framework.Sinks.Steps.Order.{Step-Inv, start-Inv, producer_order, write-Step}

abbrev entry : LogEntry
entry = record {
  timestamp = 11;
  thread_id = 2;
  level = Level.error;
  error = record { message = codes "refused"; code = 7; category = Category.network };
}

abbrev console : Stream
console = record { written = []; room = 100; failed = false; delivered = []; refuses_flush = false }

-- A device that fills up in the middle of the second line.
abbrev small : Stream
small = record { written = []; room = 60; failed = false; delivered = []; refuses_flush = false }

write_immediate_lem_example :
    write_immediate console entry
    ≡ (write_chars console (line entry), is_good (write_chars console (line entry)))
write_immediate_lem_example = write_immediate_lem console entry

-- No thread has seen a sink.
abbrev no_caches : ℕ → ThreadCache
no_caches t = record { instance_id = 0; shard = 0 }

no_caches-new : (t : ℕ) → (no_caches t).instance_id ≢ 1
no_caches-new t h = omega arith

abbrev begun : System
begun = start small 50 1 no_caches

begun-Inv : Inv small begun
begun-Inv = start-Inv small 50 1 no_caches no_caches-new

abbrev shard_of_two : Shard
shard_of_two = record { producer = 2; buffer = [] }

abbrev one_shard : Buffered
one_shard = record begun.sink { shards = shard_of_two ∷ [] }

abbrev cached : ThreadCache
cached = record { instance_id = 1; shard = 0 }

selects : current_thread_shard begun.sink (begun.caches 2) 2 ≡ (one_shard, cached, 0)
unfolding current_thread_shard find_shard
selects = refl

abbrev written_once : System
written_once = record {
  sink = record one_shard {
    output = (write_shard 50 small shard_of_two entry).0;
    shards = (write_shard 50 small shard_of_two entry).1 ∷ [];
  };
  caches = update no_caches 2 cached;
  lines = (2, line entry) ∷ [];
  chunks = (2, chunk_of 50 (append_record shard_of_two entry)) ∷ [];
}

writing : Step begun written_once
writing = writes 2 entry one_shard cached 0 shard_of_two selects refl

buffered-line : written_once.sink.shards ≡ record { producer = 2; buffer = line entry } ∷ []
unfolding write_shard append_record prepare_text_record header
buffered-line = refl

written_once-Inv : Inv small written_once
written_once-Inv = Step-Inv small begun written_once writing begun-Inv

producer_order_example :
    ((k : ℕ)
      → text_of k written_once.chunks ++ buffer_of k written_once.sink.shards
        ≡ text_of k written_once.lines)
    × (written_once.sink.output ≡ write_chars small (all_text written_once.chunks))
producer_order_example =
    producer_order small 50 1 no_caches written_once no_caches-new (next here writing)

write-Step_example :
    (b : Buffered) × (cache : ThreadCache) × (success : Bool) × (t : System) × (write
        written_once.sink
        (written_once.caches 2)
        2
        entry
      ≡ some (b, cache, success))
    × Step written_once t
    × (t.sink ≡ b)
    × (t.caches 2 ≡ cache)
    × (t.lines ≡ written_once.lines ++ ((2, line entry) ∷ []))
write-Step_example = write-Step small written_once 2 entry written_once-Inv

flush_lem_example :
    All (λ shard. shard.buffer ≡ []) (flush written_once.sink).0.shards
    × ((flush written_once.sink).0.output
        ≡ flush_stream (write_chars written_once.sink.output (buffers written_once.sink.shards)))
    × ((flush written_once.sink).1 ≡ is_good (flush written_once.sink).0.output)
    × (((flush written_once.sink).1 ≡ false)
        ⊎ ((flush written_once.sink).0.output.delivered
            ≡ written_once.sink.output.written ++ buffers written_once.sink.shards))
flush_lem_example = flush_lem written_once.sink
