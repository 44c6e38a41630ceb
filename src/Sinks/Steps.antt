-- ===== src/Sinks/Steps.antt =====
-- The buffered sink and its threads as a step relation (include/vosp/logger.hpp, `Sink<Buffered>`):
-- a step is a write, whose sections under the shard's lock are indivisible, or one round of the loop
-- of `flush`. The flush of the stream that follows this loop is in `Sinks.flush` alone.
pub mod Invariant
pub mod Order
use micro_error_framework.Prelude.{
  ℕ, zero, suc, ◌+◌, ◌-◌, ◌*◌, ◌/◌, ◌%◌, ◌^◌, ◌≤◌, ◌<◌, min, compare, Ordering, bit_xor, String,
  ◌≡◌, refl, sym, ap, ap₂, subst, fun_ext, ◌∙◌, ◌≡⟨◌⟩◌, ◌∎, ◌≢◌, ◌↔◌, ◌⊎◌, inl, inr, Bool, true,
  false, not, ◌&&◌, ◌||◌, Option, none, some, List, [], ◌∷◌, ◌++◌, map, append-nil, append_assoc,
  arith, dec_lt, ℕ_discrete, ltb, leb, ◌==◌, if◌then◌else◌, ltb→lt, lt→ltb, leb→le, ==_iff, ==_refl,
  Bool-cases, Option-cases, is_some, Text, codes, text_eq, text_eq_refl, text_eq_iff, length,
  get_elem?, set, take, drop, length-append, length-set, get_elem?-set_self, get_elem?-set_ne,
  length-take, length-drop, take-append-drop, length-map, All, All-map, All-implies,
  get_elem?-bound, get_elem?-map, All-set, All-get,
}
use micro_error_framework.Logger.{LogEntry}
use micro_error_framework.Logger.Lines.{line}
use micro_error_framework.Sinks.{
  Stream, write_chars, Shard, Buffered, ThreadCache, current_thread_shard, flush_shard,
  append_record, write_shard,
}

-- `lines` lists the records written, each with its thread, and `chunks` what the stream was given,
-- each with the producer of the shard that it came from.
pub record System : Type 0 where
  pub sink : Buffered
  pub caches : ℕ → ThreadCache
  pub lines : List (ℕ × Text)
  pub chunks : List (ℕ × Text)

abbrev pub update : (ℕ → ThreadCache) → ℕ → ThreadCache → ℕ → ThreadCache
update caches thread cache other = if other == thread then cache else caches other

-- What `write_shard` gives the stream.
abbrev pub chunk_of : ℕ → Shard → Text
chunk_of flush_threshold shard =
    if ltb (length shard.buffer) flush_threshold then [] else shard.buffer

pub data Step (s : System) : System → Type 0 where
  -- `write`
  writes :
      (thread : ℕ) (entry : LogEntry) (b : Buffered) (cache : ThreadCache) (i : ℕ) (shard : Shard)
      → current_thread_shard s.sink (s.caches thread) thread ≡ (b, cache, i)
      → get_elem? b.shards i ≡ some shard
      → Step s (record {
        sink = record b {
          output = (write_shard b.flush_threshold b.output shard entry).0;
          shards = set b.shards i (write_shard b.flush_threshold b.output shard entry).1;
        };
        caches = update s.caches thread cache;
        lines = s.lines ++ ((thread, line entry) ∷ []);
        chunks =
            s.chunks
            ++ ((shard.producer, chunk_of b.flush_threshold (append_record shard entry)) ∷ []);
      })
  -- a round of the loop of `flush`
  flushes :
      (i : ℕ) (shard : Shard)
      → get_elem? s.sink.shards i ≡ some shard
      → Step s (record s {
        sink = record s.sink {
          output = (flush_shard s.sink.output shard).0;
          shards = set s.sink.shards i (flush_shard s.sink.output shard).1;
        };
        chunks = s.chunks ++ ((shard.producer, shard.buffer) ∷ []);
      })
  -- a thread that writes to another sink, or ends and leaves its id to a new one
  elsewhere :
      (thread : ℕ) (cache : ThreadCache)
      → cache.instance_id ≢ s.sink.instance_id
      → Step s (record s { caches = update s.caches thread cache })

-- A sink just constructed, whose id no thread has seen.
abbrev pub start : Stream → ℕ → ℕ → (ℕ → ThreadCache) → System
start output flush_threshold instance_id caches = record {
  sink = record {
    output = output;
    flush_threshold = flush_threshold;
    instance_id = instance_id;
    shards = [];
  };
  caches = caches;
  lines = [];
  chunks = [];
}

pub data Reach (s0 : System) : System → Type 0 where
  here : Reach s0 s0
  next : {s t : System} → Reach s0 s → Step s t → Reach s0 t
