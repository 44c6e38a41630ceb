-- ===== src/Sinks/Select.antt =====
-- Which shard a thread writes to (include/vosp/logger.hpp, `current_thread_shard`).
use micro_error_framework.Prelude.{
  ℕ, ◌+◌, ◌≡◌, refl, sym, subst, inl, inr, arith, ◌==◌, ==_iff, Bool-cases,
}
use micro_error_framework.Sinks.{Buffered, ThreadCache, current_thread_shard}
use micro_error_framework.Sinks.Shards.{
  IsDistinct, buffer_of, IsShardOf, append-IsDistinct, buffer_of-append, append-IsShardOf,
  last-IsShardOf, find_shard-cases,
}

-- What `current_thread_shard` gives on a thread whose cache is true.
pub record Selected (b b' : Buffered) (cache : ThreadCache) (thread i : ℕ) : Type 0 where
  pub output : b'.output ≡ b.output
  pub threshold : b'.flush_threshold ≡ b.flush_threshold
  pub instance_of : b'.instance_id ≡ b.instance_id
  pub place : cache.shard ≡ i
  pub distinct : IsDistinct b'.shards
  pub mine : IsShardOf thread b'.shards i
  pub others : (k j : ℕ) → IsShardOf k b.shards j → IsShardOf k b'.shards j
  pub buffers : (k : ℕ) → buffer_of k b'.shards ≡ buffer_of k b.shards

pub current_thread_shard-Selected :
    (b : Buffered) (cache : ThreadCache) (thread : ℕ)
    → IsDistinct b.shards
    → (cache.instance_id ≡ b.instance_id → IsShardOf thread b.shards cache.shard)
    → Selected b
        (current_thread_shard b cache thread).0
        (current_thread_shard b cache thread).1
        thread
        (current_thread_shard b cache thread).2
unfolding current_thread_shard
current_thread_shard-Selected b cache thread d known =
    elim (Bool-cases (cache.instance_id == b.instance_id)) [
      | inl y ↦ rw (y) (record {
        output = refl;
        threshold = refl;
        instance_of = refl;
        place = refl;
        distinct = d;
        mine = known ((==_iff cache.instance_id b.instance_id).0 y);
        others = λ k j h. h;
        buffers = λ k. refl;
      })
      | inr n ↦ elim (find_shard-cases thread 0 b.shards) [
        | inl (e, fresh) ↦
            rw (n, e)
              (record {
                output = refl;
                threshold = refl;
                instance_of = refl;
                place = refl;
                distinct = append-IsDistinct thread b.shards d fresh;
                mine = last-IsShardOf thread b.shards;
                others = λ k j h. append-IsShardOf k thread b.shards j h;
                buffers = λ k. buffer_of-append k thread b.shards;
              })
        | inr (j, e, h) ↦
            let same : 0 + j ≡ j = omega arith in
            rw (n, e)
              (record {
                output = refl;
                threshold = refl;
                instance_of = refl;
                place = refl;
                distinct = d;
                mine = subst (IsShardOf thread b.shards) (sym same) h;
                others = λ k j h. h;
                buffers = λ k. refl;
              })
      ]
    ]
