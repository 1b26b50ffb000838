-- ===== src/Kv/Prefill.antt =====
-- The prefill half of src/kv/cache.cpp: `prepare_prefill`, `step_prefill_chunk` and their masked
-- variants. A masked call is the plain one with a mask; both share their loops here.
pub mod Keep
pub mod Served
pub mod Present
use cohere_megakernel.Common.{
  ℕ, zero, suc, ◌+◌, ◌-◌, ◌/◌, Bool, true, false, ◌||◌, ◌&&◌, not, Option, none, some, ltb, leb,
  ◌==◌, if◌then◌else◌,
}
use cohere_megakernel.Common.Int.{ℤ, pos, negsuc, pos_part, is_neg, below, int_eq, int_lt}
use cohere_megakernel.Kv.Global.{
  missing_arguments, layer_out_of_range, chunk_end_precedes_start, length_outside_context,
}
use cohere_megakernel.Kv.State.{
  Geometry, kv_div_ceil_nonnegative, kv_prefill_swa_keep_from, prefill_blk_lo, length_in_context,
}
use cohere_megakernel.Kv.Store.{
  Store, M, pure, throw, ◌>>=◌, ◌>>◌, require, for_range, write_seqlen, kv_flush_page_table,
  kv_flush_cache_seqlens,
}
use cohere_megakernel.Kv.Rows.{kv_ensure_blocks_for_row, kv_evict_below}
use cohere_megakernel.Kv.Decode.{Array, row_on, over_layers, validate_lengths}

-- `for (b = 0; b < BS; ++b) changed = call(b) || changed`, over the rows that the mask lets count
unfoldable pub over_rows : Geometry → Option Array → Bool → (ℕ → M Bool) → M Bool
over_rows g active changed call =
    for_range g.bs 0 changed
      λ b c. if row_on active b then (do d ← call b; pure (d || c)) else pure c

-- The blocks of one row for a prompt of `row_seq` tokens.
unfoldable pub prefill_blocks : Geometry → ℕ → ℕ → M Bool
prefill_blocks g b row_seq =
    let blk_hi = kv_div_ceil_nonnegative row_seq g.page_block_size in
    if blk_hi == 0
    then pure false
    else over_layers g false
        λ li. kv_ensure_blocks_for_row g li b (prefill_blk_lo g li row_seq) blk_hi

unfoldable pub prefill_row : Geometry → Array → ℕ → M Bool
prefill_row g prompt_lengths b = do
  write_seqlen b (prompt_lengths b)
  prefill_blocks g b (pos_part (prompt_lengths b))

unfoldable pub prefill_rows : Geometry → Array → Option Array → M (Unit {0})
prefill_rows g prompt_lengths active = do
  validate_lengths g prompt_lengths active
  changed ← over_rows g active false (prefill_row g prompt_lengths)
  if changed then kv_flush_page_table else pure tt
  kv_flush_cache_seqlens g

unfoldable pub prepare_prefill : Geometry → Option Array → M (Unit {0})
prepare_prefill g none = throw missing_arguments
prepare_prefill g (some prompt_lengths) = prefill_rows g prompt_lengths none

unfoldable pub prepare_prefill_masked : Geometry → Option Array → Option Array → M (Unit {0})
prepare_prefill_masked g none active = throw missing_arguments
prepare_prefill_masked g (some prompt_lengths) none = throw missing_arguments
prepare_prefill_masked g (some prompt_lengths) (some active) =
    prefill_rows g prompt_lengths (some active)

-- The eviction in front of a chunk, where it starts behind the window.
unfoldable pub chunk_evict : Geometry → ℕ → ℕ → Option Array → M Bool
chunk_evict g layer pos_start active =
    let evicted =
      over_rows g active false
        (λ b. kv_evict_below g layer b (kv_prefill_swa_keep_from g pos_start)) in
    if ltb 0 g.sw_size && leb g.sw_size pos_start then evicted else pure false

-- A chunk whose bounds have been checked.
unfoldable pub prefill_chunk : Geometry → ℕ → ℕ → ℕ → Option Array → M (Unit {0})
prefill_chunk g layer pos_start pos_end active = if pos_end == pos_start then pure tt else do
  evicted ← chunk_evict g layer pos_start active
  changed ← over_rows g active evicted λ b.
      kv_ensure_blocks_for_row g layer b (pos_start / g.page_block_size)
        (kv_div_ceil_nonnegative pos_end g.page_block_size)
  if changed then kv_flush_page_table else pure tt

unfoldable pub checked_chunk : Geometry → ℤ → ℤ → ℤ → Option Array → M (Unit {0})
checked_chunk g layer_idx pos_start pos_end active = do
  require (not (is_neg layer_idx)) layer_out_of_range
  require (below layer_idx g.num_layers) layer_out_of_range
  require (length_in_context g pos_start) length_outside_context
  require (length_in_context g pos_end) length_outside_context
  require (not (int_lt pos_end pos_start)) chunk_end_precedes_start
  prefill_chunk g (pos_part layer_idx) (pos_part pos_start) (pos_part pos_end) active

unfoldable pub step_prefill_chunk : Geometry → ℤ → ℤ → ℤ → M (Unit {0})
step_prefill_chunk g layer_idx pos_start pos_end = checked_chunk g layer_idx pos_start pos_end none

unfoldable pub step_prefill_chunk_masked : Geometry → ℤ → ℤ → ℤ → Option Array → M (Unit {0})
step_prefill_chunk_masked g layer_idx pos_start pos_end none = throw missing_arguments
step_prefill_chunk_masked g layer_idx pos_start pos_end (some active) =
    checked_chunk g layer_idx pos_start pos_end (some active)
