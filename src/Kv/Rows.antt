-- ===== src/Kv/Rows.antt =====
-- The functions of src/kv/cache.cpp that give blocks to the rows of a handle and take them back.
pub mod Inv
pub mod Slots
pub mod Blocks
pub mod Access
pub mod Present
use cohere_megakernel.Common.{
  ℕ, zero, suc, ◌+◌, ◌-◌, max, min, Bool, true, false, ◌||◌, not, ltb, leb, ◌==◌, if◌then◌else◌,
}
use cohere_megakernel.Common.Int.{ℤ, pos, negsuc, minus_one, is_neg, int_eq}
use cohere_megakernel.Kv.Global.{
  Global, Attempt, done, fails, acquire, retain, release, blocks_outside_row,
}
use cohere_megakernel.Kv.State.{Geometry, State, kv_pt, kv_evict_until, kv_layer_is_sliding}
use cohere_megakernel.Kv.Store.{
  Store, M, pure, throw, ◌>>=◌, ◌>>◌, require, locked, for_range, for_down, read_page, write_page,
  read_evict, write_evict, kv_update_peak,
}

-- `kv_acquire_block_nolock()` and the `block_id` of the block that it returns
abbrev pub acquire_id : Global → Attempt (ℤ × Global)
acquire_id g = elim (acquire g) [
  | done r ↦ done ((r.1.pool.block r.0).block_id, r.1)
  | fails e ↦ fails e
]

abbrev pub unit_result : Attempt Global → Attempt (Unit {0} × Global)
unit_result (done g) = done (tt, g)
unit_result (fails e) = fails e

unfoldable pub acquire_block : M ℤ
acquire_block = locked acquire_id

unfoldable pub retain_block : ℤ → M (Unit {0})
retain_block id = locked λ g. unit_result (retain g id)

unfoldable pub release_block : ℤ → M (Unit {0})
release_block id = locked λ g. unit_result (release g id)

-- `if (slot != -1) continue; slot = kv_acquire_block_nolock().block_id; changed = true;`
unfoldable pub ensure_slot : ℕ → Bool → M Bool
ensure_slot k changed = do
  slot ← read_page k
  if not (int_eq slot minus_one)
      then pure changed
      else do id ← acquire_block; write_page k id; pure true

unfoldable pub kv_ensure_blocks_for_row : Geometry → ℕ → ℕ → ℕ → ℕ → M Bool
kv_ensure_blocks_for_row g layer batch blk_start blk_end =
    if leb blk_end blk_start then pure false else do
      require (leb blk_end g.max_pages_per_seq) blocks_outside_row
      changed ←
          for_range (blk_end - blk_start) blk_start false
            λ blk changed. ensure_slot (kv_pt g layer batch blk) changed
      if changed then kv_update_peak else pure tt
      pure changed

-- `if (slot != -1) { release; slot = -1; changed = true; }`
unfoldable pub evict_slot : ℕ → Bool → M Bool
evict_slot k changed = do
  slot ← read_page k
  if int_eq slot minus_one
      then pure changed
      else do release_block slot; write_page k minus_one; pure true

unfoldable pub kv_evict_below : Geometry → ℕ → ℕ → ℕ → M Bool
kv_evict_below g layer batch keep_from =
    if keep_from == 0
    then pure false
    else if not (kv_layer_is_sliding g layer)
    then pure false
    else do
      let keep = min keep_from g.max_pages_per_seq
      from ← read_evict (kv_evict_until g layer batch)
      changed ←
          for_range (keep - from) from false
            λ blk changed. evict_slot (kv_pt g layer batch blk) changed
      write_evict (kv_evict_until g layer batch) (max from keep)
      pure changed

-- `if (slot >= 0) { release; slot = -1; }`
unfoldable pub clear_slot : ℕ → M (Unit {0})
clear_slot k = do
  slot ← read_page k
  if is_neg slot then pure tt else do release_block slot; write_page k minus_one

-- The blocks of one layer of a row, the last logical block first.
unfoldable pub clear_layer : Geometry → ℕ → ℕ → M (Unit {0})
clear_layer g layer batch = for_down g.max_pages_per_seq λ blk. clear_slot (kv_pt g layer batch blk)

unfoldable pub kv_release_all_blocks_nolock : Geometry → M (Unit {0})
kv_release_all_blocks_nolock g =
    for_range g.bs 0 tt λ b _. for_down g.num_layers λ li. clear_layer g li b
