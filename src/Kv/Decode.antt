-- ===== src/Kv/Decode.antt =====
-- The decode half of src/kv/cache.cpp: `step_decode_positions`, `set_cache_seqlens`, `free_row` and
-- the destructor. An array that a caller passes is a function on its indices, of which the first
-- `BS` are read, and `none` for a null pointer.
pub mod Keep
pub mod Release
use cohere_megakernel.Common.{
  ℕ, zero, suc, ◌+◌, ◌-◌, ◌/◌, Bool, true, false, ◌||◌, not, Option, none, some, ltb, leb, ◌==◌,
  if◌then◌else◌,
}
use cohere_megakernel.Common.Int.{ℤ, pos, negsuc, pos_part, is_neg, below, int_eq}
use cohere_megakernel.Kv.Global.{
  missing_arguments, decode_position_outside_context, decode_block_outside_row,
  length_outside_context, row_or_block_out_of_range,
}
use cohere_megakernel.Kv.State.{Geometry, kv_evict_until, kv_max_tokens, length_in_context}
use cohere_megakernel.Kv.Store.{
  Store, M, pure, throw, ◌>>=◌, ◌>>◌, require, for_range, for_down, read_seqlen, write_seqlen,
  write_active, write_evict, kv_flush_page_table, kv_flush_cache_seqlens, kv_flush_row_active,
}
use cohere_megakernel.Kv.Rows.{
  kv_ensure_blocks_for_row, kv_evict_below, clear_layer, kv_release_all_blocks_nolock,
}

abbrev pub Array : Type 0
Array = ℕ → ℤ

-- `active == nullptr || active[b] != 0`
abbrev pub row_on : Option Array → ℕ → Bool
row_on none b = true
row_on (some active) b = not (int_eq (active b) (pos 0))

-- `positions ? positions[b] : kv.cache_seqlens_host[b]`
unfoldable pub position_of : Option Array → ℕ → M ℤ
position_of none b = read_seqlen b
position_of (some positions) b = pure (positions b)

-- `for (li = 0; li < num_layers; ++li) changed = call(li) || changed`
unfoldable pub over_layers : Geometry → Bool → (ℕ → M Bool) → M Bool
over_layers g changed call = for_range g.num_layers 0 changed λ li c. do d ← call li; pure (d || c)

-- The check of every position before anything changes.
unfoldable pub decode_check : Geometry → Option Array → Option Array → M (Unit {0})
decode_check g positions active = for_range g.bs 0 tt λ b _.
    if not (row_on active b) then pure tt else do
      p ← position_of positions b
      require (not (is_neg p)) decode_position_outside_context
      require (below p (kv_max_tokens g)) decode_position_outside_context

-- The eviction of one row, where its position lies behind the window.
unfoldable pub decode_evict : Geometry → ℕ → ℕ → Bool → M Bool
decode_evict g b p changed =
    let evicted =
      over_layers g changed (λ li. kv_evict_below g li b ((p - g.sw_size) / g.page_block_size)) in
    if ltb 0 g.sw_size then (if leb g.sw_size p then evicted else pure changed) else pure changed

-- A row that decodes at position `p`, which the check has found not to be negative.
unfoldable pub decode_active_row : Geometry → ℕ → ℕ → Bool → M Bool
decode_active_row g b p changed = do
  write_seqlen b (pos p)
  let write_blk = p / g.page_block_size
  require (ltb write_blk g.max_pages_per_seq) decode_block_outside_row
  changed ← decode_evict g b p changed
  over_layers g changed λ li. kv_ensure_blocks_for_row g li b write_blk (write_blk + 1)

unfoldable pub decode_row : Geometry → Option Array → Option Array → ℕ → Bool → M Bool
decode_row g positions active b changed =
    if row_on active b
    then (do
      write_active b (pos 1)
      p ← position_of positions b
      decode_active_row g b (pos_part p) changed)
    else (do write_active b (pos 0); pure changed)

unfoldable pub kv_step_decode_positions : Geometry → Option Array → Option Array → M (Unit {0})
kv_step_decode_positions g positions active = do
  decode_check g positions active
  changed ← for_range g.bs 0 false (decode_row g positions active)
  if changed then kv_flush_page_table else pure tt
  kv_flush_cache_seqlens g
  kv_flush_row_active g

unfoldable pub step_decode_positions : Geometry → Option Array → Option Array → M (Unit {0})
step_decode_positions g none active = throw missing_arguments
step_decode_positions g (some positions) active = kv_step_decode_positions g (some positions) active

-- `kv_validate_length` of an array's entries, where a mask lets them count
unfoldable pub validate_lengths : Geometry → Array → Option Array → M (Unit {0})
validate_lengths g lengths active = for_range g.bs 0 tt λ b _.
    if row_on active b
    then require (length_in_context g (lengths b)) length_outside_context
    else pure tt

unfoldable pub set_cache_seqlens : Geometry → Option Array → M (Unit {0})
set_cache_seqlens g none = throw missing_arguments
set_cache_seqlens g (some lengths) = do
  validate_lengths g lengths none
  for_range g.bs 0 tt λ b _. write_seqlen b (lengths b)
  kv_flush_cache_seqlens g

-- The loop of `free_row` over the layers, the last one first.
unfoldable pub free_row_layers : Geometry → ℕ → M (Unit {0})
free_row_layers g row =
    for_down g.num_layers λ li. do clear_layer g li row; write_evict (kv_evict_until g li row) 0

unfoldable pub free_row_at : Geometry → ℕ → M (Unit {0})
free_row_at g row = do
  free_row_layers g row
  write_seqlen row (pos 0)
  write_active row (pos 0)
  kv_flush_page_table
  kv_flush_cache_seqlens g
  kv_flush_row_active g

unfoldable pub free_row : Geometry → ℤ → M (Unit {0})
free_row g (pos row) = if ltb row g.bs then free_row_at g row else throw row_or_block_out_of_range
free_row g (negsuc _) = throw row_or_block_out_of_range

-- `~KvHandle`
unfoldable pub destroy : Geometry → M (Unit {0})
destroy g = kv_release_all_blocks_nolock g
