-- ===== src/Sinks.antt =====
-- include/vosp/logger.hpp: the two stream sinks, over an output stream.
pub mod Output
pub mod Shards
pub mod Select
pub mod Flush
pub mod Steps
mod Tests
use micro_error_framework.Prelude.{
  ℕ, zero, suc, ◌+◌, ◌-◌, ◌*◌, ◌/◌, ◌%◌, ◌^◌, ◌≤◌, ◌<◌, min, compare, Ordering, bit_xor, String,
  ◌≡◌, refl, sym, ap, ap₂, subst, fun_ext, ◌∙◌, ◌≡⟨◌⟩◌, ◌∎, ◌≢◌, ◌↔◌, ◌⊎◌, inl, inr, Bool, true,
  false, not, ◌&&◌, ◌||◌, Option, none, some, List, [], ◌∷◌, ◌++◌, map, append-nil, append_assoc,
  arith, dec_lt, ℕ_discrete, ltb, leb, ◌==◌, if◌then◌else◌, ltb→lt, lt→ltb, leb→le, ==_iff, ==_refl,
  Bool-cases, Option-cases, is_some, Text, codes, text_eq, text_eq_refl, text_eq_iff, length,
  get_elem?, set, take, drop, length-append, length-set, get_elem?-set_self, get_elem?-set_ne,
  length-take, length-drop, take-append-drop, length-map, All, All-map, All-implies,
  get_elem?-bound, get_elem?-map, All-set, All-get,
}
use micro_error_framework.Error.{Outcome, returned, threw_exception}
use micro_error_framework.Logger.{LogEntry}
use micro_error_framework.Logger.Lines.{prepare_text_record}

-- A `std::ostream` that throws no exceptions: what its buffer has been given, how many bytes it still
-- takes, and whether it has failed; and how much of that has been passed on to the destination, and
-- whether the destination refuses to be flushed. A failed stream ignores what it is given.
pub record Stream : Type 0 where
  pub written : Text
  pub room : ℕ
  pub failed : Bool
  pub delivered : Text
  pub refuses_flush : Bool

-- `write`; `put` is a write of one byte.
unfoldable pub write_chars : Stream → Text → Stream
write_chars s text =
    if s.failed
    then s
    else if leb (length text) s.room
    then record s { written = s.written ++ text; room = s.room - length text }
    else record s { written = s.written ++ take s.room text; room = 0; failed = true }

-- `flush`
unfoldable pub flush_stream : Stream → Stream
flush_stream s =
    if s.failed
    then s
    else if s.refuses_flush
    then record s { failed = true }
    else record s { delivered = s.written }

-- `static_cast<bool>(output)`
unfoldable pub is_good : Stream → Bool
is_good s = not s.failed

-- The greatest `std::streamsize`.
abbrev pub maximum_chunk : ℕ
maximum_chunk = 2 ^ 63 - 1

-- `Sink<Immediate>::write_view`, on fuel; `write_view-enough` shows that the length is enough.
unfoldable pub write_view : ℕ → Stream → Text → Stream
unfolding write_chars is_good
write_view zero s text = s
write_view (suc fuel) s text =
    let chunk_size = min (length text) maximum_chunk in
    let rest = write_view fuel (write_chars s (take chunk_size text)) (drop chunk_size text) in
    if (not (length text == 0)) && is_good s then rest else s

-- `Sink<Immediate>::write`
unfoldable pub write_immediate : Stream → LogEntry → Stream × Bool
unfolding prepare_text_record write_chars write_view is_good
write_immediate s entry =
    let record' = prepare_text_record entry in
    let begun = write_chars s record'.prefix in
    let ended =
      if record'.message_is_buffered
      then begun
      else write_chars (write_view (length record'.message) begun record'.message) (b'\n' ∷ []) in
    (ended, is_good ended)

pub record Shard : Type 0 where
  pub producer : ℕ
  pub buffer : Text

-- `Sink<Buffered>`
pub record Buffered : Type 0 where
  pub output : Stream
  pub flush_threshold : ℕ
  pub instance_id : ℕ
  pub shards : List Shard

-- The constructor, with `next_instance_id_` before and after it.
unfoldable pub construct : Stream → ℕ → ℕ → Outcome Buffered × ℕ
construct output flush_threshold next_instance_id = (
  (if flush_threshold == 0
      then threw_exception (some (codes "flush threshold must be greater than zero"))
      else returned (record {
        output = output;
        flush_threshold = flush_threshold;
        instance_id = next_instance_id;
        shards = [];
      })),
  (next_instance_id + 1) % 2 ^ 64,
)

-- The `thread_local` variables of `current_thread_shard`. A shard is its place in the deque, which
-- only grows. An instance id of 0 is no sink's.
pub record ThreadCache : Type 0 where
  pub instance_id : ℕ
  pub shard : ℕ

-- `std::find_if`, from place `i` on.
unfoldable pub find_shard : ℕ → ℕ → List Shard → Option ℕ
find_shard producer i [] = none
find_shard producer i (shard ∷ shards) =
    let rest = find_shard producer (suc i) shards in
    if shard.producer == producer then some i else rest

-- `current_thread_shard`, on the thread `producer`: the sink, the thread's cache, and the shard.
unfoldable pub current_thread_shard : Buffered → ThreadCache → ℕ → Buffered × ThreadCache × ℕ
unfolding find_shard
current_thread_shard b cache producer =
    if cache.instance_id == b.instance_id
    then (b, cache, cache.shard)
    else elim (find_shard producer 0 b.shards) [
      | some i ↦ (b, record { instance_id = b.instance_id; shard = i }, i)
      | none ↦ (
        record b { shards = b.shards ++ (record { producer = producer; buffer = [] } ∷ []) },
        record { instance_id = b.instance_id; shard = length b.shards },
        length b.shards,
      )
    ]

unfoldable pub flush_shard : Stream → Shard → Stream × Shard × Bool
unfolding write_chars is_good
flush_shard output shard =
    if length shard.buffer == 0
    then (output, shard, true)
    else (let output' = write_chars output shard.buffer in
        (output', record shard { buffer = [] }, is_good output'))

-- `write`, the appends under the shard's lock.
unfoldable pub append_record : Shard → LogEntry → Shard
unfolding prepare_text_record
append_record shard entry =
    let record' = prepare_text_record entry in
    record shard {
      buffer =
          (shard.buffer ++ record'.prefix)
          ++ (if record'.message_is_buffered then [] else record'.message ++ (b'\n' ∷ []));
    }

-- `write`, all of the section under the shard's lock.
unfoldable pub write_shard : ℕ → Stream → Shard → LogEntry → Stream × Shard × Bool
unfolding append_record flush_shard
write_shard flush_threshold output shard entry =
    let appended = append_record shard entry in
    if ltb (length appended.buffer) flush_threshold
    then (output, appended, true)
    else flush_shard output appended

-- `write`: `none` is a shard that does not exist.
unfoldable pub write :
    Buffered → ThreadCache → ℕ → LogEntry → Option (Buffered × ThreadCache × Bool)
unfolding current_thread_shard write_shard
write b cache thread entry =
    let (b', cache', i) = current_thread_shard b cache thread in
    elim (get_elem? b'.shards i) [
      | none ↦ none
      | some shard ↦
          (let (output, shard', success) = write_shard b'.flush_threshold b'.output shard entry in
            some (record b' { output = output; shards = set b'.shards i shard' }, cache', success))
    ]

-- `flush`, the loop over the shards.
unfoldable pub flush_shards : Stream → List Shard → Stream × List Shard × Bool
unfolding flush_shard
flush_shards output [] = (output, [], true)
flush_shards output (shard ∷ shards) =
    let (output', shard', flushed) = flush_shard output shard in
    let (output'', shards', success) = flush_shards output' shards in
    (output'', shard' ∷ shards', success && flushed)

-- `flush`, with no other thread in between.
unfoldable pub flush : Buffered → Buffered × Bool
unfolding flush_shards flush_stream is_good
flush b =
    let (output, shards, success) = flush_shards b.output b.shards in
    let output' = flush_stream output in
    (record b { output = output'; shards = shards }, is_good output' && success)
