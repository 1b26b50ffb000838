-- ===== src/Kv/Global.antt =====
-- The process-global half of src/kv/cache.cpp: `g_kv_block_pool` and `g_prefix_cache` behind
-- `g_prefix_mu`, and the functions that take and return blocks under that lock.
pub mod Invariant
pub mod Acquire
pub mod Counts
use cohere_megakernel.Common.{
  ℕ, zero, suc, ◌+◌, ◌-◌, Bool, true, false, ◌&&◌, not, Option, none, some, List, [], ◌∷◌, ltb,
  ◌==◌, if◌then◌else◌, length,
}
use cohere_megakernel.Common.Int.{ℤ, pos, negsuc}
use cohere_megakernel.Kv.Pool.{
  BlockHash, KvCacheBlock, KvBlockPool, Ptr, zero_hash, update, set_refs, push_free_tail,
  remove_from_free_queue, pop_free_head, active_count, update_peak,
}
use cohere_megakernel.Kv.Prefix.{PrefixCache, remove_block}

-- The messages of the `KvError`s that src/kv/cache.cpp throws, and `out_of_range`, which
-- `std::vector::at` throws.
pub data KvError : Type 0 where
  key_not_sha256_sized pool_size_changed block_id_out_of_range out_of_blocks : KvError
  refcount_underflow incompatible_layer_count size_overflow page_table_pointer_zero : KvError
  dimensions_not_positive start_or_window_negative start_pos_exceeds_context : KvError
  initial_length_outside_context initial_block_id_invalid length_outside_context : KvError
  blocks_outside_row decode_position_outside_context decode_block_outside_row missing_arguments :
      KvError
  row_or_block_out_of_range duplicate_destination two_prefix_hashes : KvError
  layer_out_of_range chunk_end_precedes_start batch_size_not_positive : KvError
  source_row_out_of_range duplicate_source_row cuda_failure : KvError
  page_table_elems_exceeds_int32 capacity_too_small size_disagrees : KvError
  out_of_range : KvError

pub record Global : Type 0 where
  pub pool : KvBlockPool
  pub cache : PrefixCache

-- A call under the lock that throws has changed nothing before.
pub data Attempt (A : Type 0) : Type 0 where
  done : A → Attempt A
  fails : KvError → Attempt A

-- `prefix_cache_remove_block_nolock`
unfoldable pub remove_cached : Global → ℕ → Global
remove_cached g i =
    let b = g.pool.block i in
    if not b.has_hash then g else record g {
      pool = record g.pool {
        block = update g.pool.block i (λ b. record b { has_hash = false; block_hash = zero_hash });
        evicted_blocks = g.pool.evicted_blocks + 1;
      };
      cache = remove_block b.block_hash b.block_id g.cache;
    }

-- `ref_cnt = n` and `update_peak()`
unfoldable pub count_refs_at : ℕ → ℕ → KvBlockPool → KvBlockPool
count_refs_at i n p = update_peak (record p { block = update p.block i (set_refs n) })

-- `kv_acquire_block_nolock`, which returns the block's index
unfoldable pub acquire : Global → Attempt (ℕ × Global)
acquire g =
    let (p, b) = pop_free_head g.pool in
    elim b [
      | none ↦ fails out_of_blocks
      | some i ↦
          let g' = record g { pool = p } in
          let g'' = if (p.block i).has_hash then remove_cached g' i else g' in
          done (i, record g'' { pool = count_refs_at i 1 g''.pool })
    ]

-- `KVBlockPool::at`
unfoldable pub block_at : KvBlockPool → ℤ → Attempt ℕ
block_at p (pos i) = if ltb i p.size then done i else fails block_id_out_of_range
block_at p (negsuc n) = fails block_id_out_of_range

unfoldable pub retain_at : Global → ℕ → Global
retain_at g i =
    let n = (g.pool.block i).ref_cnt in
    let p = if n == 0 then remove_from_free_queue g.pool (some i) else g.pool in
    record g { pool = count_refs_at i (n + 1) p }

-- `kv_retain_block_nolock`
unfoldable pub retain : Global → ℤ → Attempt Global
retain g id = elim (block_at g.pool id) [ done i ↦ done (retain_at g i) | fails e ↦ fails e ]

unfoldable pub release_at : Global → ℕ → Global
release_at g i =
    let n = (g.pool.block i).ref_cnt - 1 in
    let p = record g.pool { block = update g.pool.block i (set_refs n) } in
    record g { pool = if n == 0 then push_free_tail p (some i) else p }

-- `kv_release_block_nolock`
unfoldable pub release : Global → ℤ → Attempt Global
release g id = elim (block_at g.pool id) [
  | done i ↦
      if (g.pool.block i).ref_cnt == 0 then fails refcount_underflow else done (release_at g i)
  | fails e ↦ fails e
]
