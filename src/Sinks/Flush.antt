-- ===== src/Sinks/Flush.antt =====
-- `flush` of the buffered sink, with no other thread in between (include/vosp/logger.hpp).
use micro_error_framework.Prelude.{
  ◌≡◌, refl, sym, ap, ap₂, ◌∙◌, ◌⊎◌, inl, inr, true, false, ◌&&◌, List, [], ◌∷◌, ◌++◌, arith,
  Bool-cases, Text, All,
}
use micro_error_framework.Sinks.{
  Stream, write_chars, is_good, Shard, Buffered, flush_shard, flush_shards, flush_stream, flush,
}
use micro_error_framework.Sinks.Output.{write_chars-nil, write_chars-append}
use micro_error_framework.Sinks.Steps.Invariant.{flush_shard-cons}

-- The buffers in the order of the shards.
abbrev pub buffers : List Shard → Text
buffers [] = []
buffers (shard ∷ shards) = shard.buffer ++ buffers shards

flush_shard_lem :
    (output : Stream) (shard : Shard)
    → ((flush_shard output shard).0 ≡ write_chars output shard.buffer)
      × ((flush_shard output shard).1 ≡ record shard { buffer = [] })
      × (is_good (flush_shard output shard).0 ≡ true → (flush_shard output shard).2 ≡ true)
unfolding flush_shard
flush_shard_lem output shard = go shard.buffer
  where
    go :
        (t : Text)
        → ((flush_shard output (record shard { buffer = t })).0 ≡ write_chars output t)
          × ((flush_shard output (record shard { buffer = t })).1 ≡ record shard { buffer = [] })
          × (is_good (flush_shard output (record shard { buffer = t })).0 ≡ true
              → (flush_shard output (record shard { buffer = t })).2 ≡ true)
    go [] = (sym (write_chars-nil output), refl, λ g. refl)
    go (c ∷ t) =
        let e = flush_shard-cons output shard c t in
        (ap (λ r. r.0) e, ap (λ r. r.1) e, λ g. ap (λ r. r.2) e ∙ sym (ap (λ r. is_good r.0) e) ∙ g)

flush_shards_lem :
    (output : Stream) (shards : List Shard)
    → ((flush_shards output shards).0 ≡ write_chars output (buffers shards))
      × All (λ shard. shard.buffer ≡ []) (flush_shards output shards).1
unfolding flush_shards
flush_shards_lem output [] = (sym (write_chars-nil output), tt)
flush_shards_lem output (shard ∷ shards) =
    let (out, gone, ok) = flush_shard_lem output shard in
    let (outs, gones) = flush_shards_lem (flush_shard output shard).0 shards in
    (
      outs
          ∙ ap (λ o. write_chars o (buffers shards)) out
          ∙ write_chars-append output shard.buffer (buffers shards),
      (ap (λ q. q.buffer) gone, gones),
    )

-- A stream that is good after a write was good before it.
write_chars-good : (s : Stream) (t : Text) → is_good (write_chars s t) ≡ true → is_good s ≡ true
unfolding write_chars is_good
write_chars-good s t h = ground (arith, h)

flush_shards-success :
    (output : Stream) (shards : List Shard)
    → is_good (flush_shards output shards).0 ≡ true
    → (flush_shards output shards).2 ≡ true
unfolding flush_shards
flush_shards-success output [] g = refl
flush_shards-success output (shard ∷ shards) g =
    let (out, gone, ok) = flush_shard_lem output shard in
    let between : is_good (flush_shard output shard).0 ≡ true =
      write_chars-good (flush_shard output shard).0 (buffers shards)
        (ap is_good (sym (flush_shards_lem (flush_shard output shard).0 shards).0) ∙ g) in
    ap₂ (λ a b. a && b) (flush_shards-success (flush_shard output shard).0 shards g) (ok between)

-- A stream that is good after it was flushed was good before, and has passed on all it was given.
flush_stream_lem :
    (s : Stream)
    → is_good (flush_stream s) ≡ true
    → (is_good s ≡ true) × ((flush_stream s).delivered ≡ s.written)
unfolding flush_stream is_good
flush_stream_lem s h = (ground (arith, h), ground (arith, h))

-- A stream that is good after a write has been given all of it.
write_chars-written :
    (s : Stream) (t : Text)
    → is_good (write_chars s t) ≡ true
    → (write_chars s t).written ≡ s.written ++ t
unfolding write_chars is_good
write_chars-written s t h = ground (arith, h)

-- With no other thread in between, `flush` leaves every buffer empty, gives the stream all buffers in
-- the order of the shards and then flushes it, and answers whether the stream is good after that. It
-- answers false, or all that the stream was given before and all buffers have been passed on to the
-- destination.
pub flush_lem :
    (b : Buffered)
    → All (λ shard. shard.buffer ≡ []) (flush b).0.shards
      × ((flush b).0.output ≡ flush_stream (write_chars b.output (buffers b.shards)))
      × ((flush b).1 ≡ is_good (flush b).0.output)
      × (((flush b).1 ≡ false)
          ⊎ ((flush b).0.output.delivered ≡ b.output.written ++ buffers b.shards))
unfolding flush
flush_lem b =
    let (out, gone) = flush_shards_lem b.output b.shards in
    let given = (flush_shards b.output b.shards).0 in
    let ok = flush_shards-success b.output b.shards in
    elim (Bool-cases (is_good (flush_stream given))) [
      | inl y ↦
          let (before, all) = flush_stream_lem given y in
          let whole =
            write_chars-written b.output (buffers b.shards) (ap is_good (sym out) ∙ before) in
          (
            gone,
            ap flush_stream out,
            ap₂ (λ x z. x && z) y (ok before) ∙ sym y,
            inr (all ∙ ap (λ o. o.written) out ∙ whole),
          )
      | inr n ↦
          let refused = ap (λ x. x && (flush_shards b.output b.shards).2) n in
          (gone, ap flush_stream out, refused ∙ sym n, inl refused)
    ]
