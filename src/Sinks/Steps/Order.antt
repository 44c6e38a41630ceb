-- ===== src/Sinks/Steps/Order.antt =====
-- The steps of the buffered sink, its invariant, and the order of each producer's text
-- (include/vosp/logger.hpp, `Sink<Buffered>`).
use micro_error_framework.Prelude.{
  ℕ, ◌≡◌, refl, sym, ap, subst, ◌∙◌, ◌≢◌, inl, inr, Bool, true, false, some, List, [], ◌∷◌, ◌++◌,
  append-nil, ◌==◌, if◌then◌else◌, ==_iff, ==_refl, Bool-cases, Text, get_elem?, set,
}
use mathlib.Core.Option.{some-injective}
use micro_error_framework.Logger.{LogEntry}
use micro_error_framework.Logger.Lines.{line}
use micro_error_framework.Sinks.{
  Stream, write_chars, Shard, Buffered, ThreadCache, current_thread_shard, write, flush_shard,
  append_record, write_shard,
}
use micro_error_framework.Sinks.Output.{write_chars-nil}
use micro_error_framework.Sinks.Shards.{buffer_of, IsShardOf, set-IsDistinct, set-IsShardOf}
use micro_error_framework.Sinks.Select.{Selected, current_thread_shard-Selected}
use micro_error_framework.Sinks.Steps.{
  System, update, chunk_of, Step, writes, flushes, elsewhere, start, Reach, here, next,
}
use micro_error_framework.Sinks.Steps.Invariant.{
  text_of, all_text, Inv, text_of-append, flush_shard-Passes, write_shard-Passes, kept_on, given_on,
}

known-update :
    (caches : ℕ → ThreadCache) (thread : ℕ) (cache : ThreadCache) (id : ℕ) (shards : List Shard)
    → (cache.instance_id ≡ id → IsShardOf thread shards cache.shard)
    → ((t : ℕ) → (caches t).instance_id ≡ id → IsShardOf t shards (caches t).shard)
    → (t : ℕ) → (update caches thread cache t).instance_id ≡ id
    → IsShardOf t shards (update caches thread cache t).shard
known-update caches thread cache id shards mine known t = elim (Bool-cases (t == thread)) [
  | inl y ↦
      let same = (==_iff t thread).0 y in
      rw (y) (λ h. subst (λ k. IsShardOf k shards cache.shard) (sym same) (mine h))
  | inr n ↦ rw (n) (known t)
]

pub start-Inv :
    (output : Stream) (threshold id : ℕ) (caches : ℕ → ThreadCache)
    → ((t : ℕ) → (caches t).instance_id ≢ id)
    → Inv output (start output threshold id caches)
start-Inv output threshold id caches new = record {
  distinct = tt;
  known = λ t h. absurd (new t h);
  kept = λ k. refl;
  given = sym (write_chars-nil output);
}

-- The selected shard is the thread's own.
mine-producer :
    (thread : ℕ) (shards : List Shard) (i : ℕ) (shard : Shard)
    → IsShardOf thread shards i
    → get_elem? shards i ≡ some shard
    → shard.producer ≡ thread
mine-producer thread shards i shard (s, at, p) e =
    ap (λ q. q.producer) (some-injective _ _ (sym e ∙ at)) ∙ p

writes-Inv :
    (start : Stream) (s : System) (thread : ℕ) (entry : LogEntry) (b : Buffered)
    (cache : ThreadCache) (i : ℕ) (shard : Shard)
    → current_thread_shard s.sink (s.caches thread) thread ≡ (b, cache, i)
    → get_elem? b.shards i ≡ some shard
    → Inv start s
    → Inv start (record {
      sink = record b {
        output = (write_shard b.flush_threshold b.output shard entry).0;
        shards = set b.shards i (write_shard b.flush_threshold b.output shard entry).1;
      };
      caches = update s.caches thread cache;
      lines = s.lines ++ ((thread, line entry) ∷ []);
      chunks =
          s.chunks
          ++ ((shard.producer, chunk_of b.flush_threshold (append_record shard entry)) ∷ []);
    })
writes-Inv start s thread entry b cache i shard e at inv =
    let sel : Selected s.sink b cache thread i =
      subst (λ r. Selected s.sink r.0 r.1 thread r.2) e
        (current_thread_shard-Selected s.sink (s.caches thread) thread inv.distinct
          (inv.known thread)) in
    let p = write_shard-Passes b.flush_threshold b.output shard entry in
    let after = (write_shard b.flush_threshold b.output shard entry).1 in
    let own = mine-producer thread b.shards i shard sel.mine at in
    record {
      distinct = set-IsDistinct b.shards i shard after sel.distinct at p.producer;
      known =
          known-update s.caches thread cache b.instance_id (set b.shards i after)
            (λ h.
              set-IsShardOf thread b.shards i cache.shard shard after at p.producer
                (subst (IsShardOf thread b.shards) (sym sel.place) sel.mine))
            (λ t h.
              set-IsShardOf t b.shards i (s.caches t).shard shard after at p.producer
                (sel.others t (s.caches t).shard (inv.known t (h ∙ sel.instance_of))));
      kept = λ k.
          kept_on k s.chunks b.shards i b.output _ shard after _ (line entry) (text_of k s.lines)
            sel.distinct at p (ap (λ l. text_of k s.chunks ++ l) (sel.buffers k) ∙ inv.kept k)
          ∙ ap (λ q. text_of k s.lines ++ (if q == k then line entry else [])) own
          ∙ sym (text_of-append k s.lines thread (line entry));
      given =
          given_on start s.chunks b.output _ shard after _ (line entry) p (sel.output ∙ inv.given);
    }

flushes-Inv :
    (start : Stream) (s : System) (i : ℕ) (shard : Shard)
    → get_elem? s.sink.shards i ≡ some shard
    → Inv start s
    → Inv start (record s {
      sink = record s.sink {
        output = (flush_shard s.sink.output shard).0;
        shards = set s.sink.shards i (flush_shard s.sink.output shard).1;
      };
      chunks = s.chunks ++ ((shard.producer, shard.buffer) ∷ []);
    })
flushes-Inv start s i shard at inv =
    let p = flush_shard-Passes s.sink.output shard in
    let after = (flush_shard s.sink.output shard).1 in
    record {
      distinct = set-IsDistinct s.sink.shards i shard after inv.distinct at p.producer;
      known = λ t h.
          set-IsShardOf t s.sink.shards i (s.caches t).shard shard after at p.producer
            (inv.known t h);
      kept = λ k.
          kept_on k s.chunks s.sink.shards i s.sink.output _ shard after shard.buffer []
            (text_of k s.lines) inv.distinct at p (inv.kept k)
          ∙ nothing-added (shard.producer == k) (text_of k s.lines);
      given = given_on start s.chunks s.sink.output _ shard after shard.buffer [] p inv.given;
    }
  where
    nothing-added : (b : Bool) (t : Text) → t ++ (if b then [] else []) ≡ t
    nothing-added true t = append-nil t
    nothing-added false t = append-nil t

-- Every step keeps the invariant: no two shards have the same producer; a thread's cache that names
-- this sink names the thread's own shard; a producer's chunks, and then its buffer, are its lines in
-- their order; and the stream is what writing all chunks in their order makes of it.
pub Step-Inv : (start : Stream) (s t : System) → Step s t → Inv start s → Inv start t
Step-Inv start s t (writes thread entry b cache i shard e at) inv =
    writes-Inv start s thread entry b cache i shard e at inv
Step-Inv start s t (flushes i shard at) inv = flushes-Inv start s i shard at inv
Step-Inv start s t (elsewhere thread cache ne) inv = record {
  distinct = inv.distinct;
  known =
      known-update s.caches thread cache s.sink.instance_id s.sink.shards (λ h. absurd (ne h))
        inv.known;
  kept = inv.kept;
  given = inv.given;
}

Reach-Inv : (start : Stream) (s t : System) → Reach s t → Inv start s → Inv start t
Reach-Inv start s t here inv = inv
Reach-Inv start s t (next {s = before} r st) inv =
    Step-Inv start before t st (Reach-Inv start s before r inv)

-- From a sink just constructed, whose id no thread has seen, on: for each producer, what the stream
-- was given of its lines, followed by its buffer, is all its lines in the order in which it wrote
-- them; and the stream was given whole chunks, one after the other.
pub producer_order :
    (output : Stream) (threshold id : ℕ) (caches : ℕ → ThreadCache) (s : System)
    → ((t : ℕ) → (caches t).instance_id ≢ id)
    → Reach (start output threshold id caches) s
    → ((k : ℕ) → text_of k s.chunks ++ buffer_of k s.sink.shards ≡ text_of k s.lines)
      × (s.sink.output ≡ write_chars output (all_text s.chunks))
producer_order output threshold id caches s new r =
    let inv =
      Reach-Inv output (start output threshold id caches) s r
        (start-Inv output threshold id caches new) in
    (inv.kept, inv.given)

-- In a state where the invariant holds, `write` never looks for a shard that does not exist, and
-- what it does is a step: it leaves the sink and the thread's cache as the step does.
pub write-Step :
    (output : Stream) (s : System) (thread : ℕ) (entry : LogEntry)
    → Inv output s
    → (b : Buffered) × (cache : ThreadCache) × (success : Bool) × (t : System) × (write s.sink
          (s.caches thread)
          thread
          entry
        ≡ some (b, cache, success))
      × Step s t
      × (t.sink ≡ b)
      × (t.caches thread ≡ cache)
      × (t.lines ≡ s.lines ++ ((thread, line entry) ∷ []))
unfolding write
write-Step output s thread entry inv =
    let sel =
      current_thread_shard-Selected s.sink (s.caches thread) thread inv.distinct
        (inv.known thread) in
    let (b, cache, i) = current_thread_shard s.sink (s.caches thread) thread in
    let (shard, at, own) = sel.mine in
    let w = write_shard b.flush_threshold b.output shard entry in
    let self : (thread == thread) ≡ true = ==_refl thread in
    (
      record b { output = w.0; shards = set b.shards i w.1 },
      cache,
      w.2,
      _,
      rw (at, write) refl,
      writes thread entry b cache i shard refl at,
      refl,
      rw (self) refl,
      refl,
    )
