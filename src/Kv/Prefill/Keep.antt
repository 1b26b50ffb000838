-- ===== src/Kv/Prefill/Keep.antt =====
-- The prefill calls of src/kv/cache.cpp keep the invariant.
use cohere_megakernel.Common.{
  ℕ, ◌<◌, ◌≡◌, Bool, true, false, ◌||◌, ◌&&◌, not, Option, none, some, arith, ltb, leb, ltb→lt,
  ◌==◌, if◌then◌else◌,
}
use cohere_megakernel.Common.Int.{ℤ, pos, negsuc, pos_part, is_neg, below, int_lt}
use cohere_megakernel.Kv.Global.{
  layer_out_of_range, chunk_end_precedes_start, length_outside_context,
}
use cohere_megakernel.Kv.State.{
  Geometry, kv_div_ceil_nonnegative, kv_prefill_swa_keep_from, length_in_context,
}
use cohere_megakernel.Kv.Store.{M, pure, write_seqlen, kv_flush_page_table}
use cohere_megakernel.Kv.Store.Ensures.{
  Keeps, raises, for_range-Keeps, Keeps-bind, Keeps-if, require-then,
}
use cohere_megakernel.Kv.Rows.Inv.{Inv}
use cohere_megakernel.Kv.Rows.Access.{pure-Keeps, write_seqlen-Keeps, kv_flush_cache_seqlens-Keeps}
use cohere_megakernel.Kv.Rows.Blocks.{kv_ensure_blocks_for_row-Keeps, kv_evict_below-Keeps}
use cohere_megakernel.Kv.Decode.{Array, row_on, validate_lengths}
use cohere_megakernel.Kv.Decode.Keep.{flush_if-Keeps, over_layers-Keeps, validate_lengths-Keeps}
use cohere_megakernel.Kv.Prefill.{
  over_rows, prefill_blocks, prefill_row, prefill_rows, prepare_prefill, prepare_prefill_masked,
  chunk_evict, prefill_chunk, checked_chunk, step_prefill_chunk, step_prefill_chunk_masked,
}

module _ (n : ℕ) (others : ℕ → ℕ) (g : Geometry) where
  abbrev Kept : {A : Type 0} → M A → Type 0
  Kept m = Keeps (Inv n others g) m

  over_rows-Keeps :
      (active : Option Array) (changed : Bool) (call : ℕ → M Bool)
      → ((b : ℕ) → b < g.bs → Kept (call b))
      → Kept (over_rows g active changed call)
  unfolding over_rows
  over_rows-Keeps active changed call keep =
      for_range-Keeps (Inv n others g) _ g.bs 0
        (λ b c lo hi.
          Keeps-if (row_on active b) _ (pure c)
            (λ _.
              Keeps-bind (call b) _ (keep b (omega arith)) (λ d. pure-Keeps n others g (d || c)))
            (λ _. pure-Keeps n others g c))
        changed

  prefill_blocks-Keeps : (b row_seq : ℕ) → b < g.bs → Kept (prefill_blocks g b row_seq)
  unfolding prefill_blocks
  prefill_blocks-Keeps b row_seq row =
      Keeps-if (kv_div_ceil_nonnegative row_seq g.page_block_size == 0) (pure false) _
        (λ _. pure-Keeps n others g false)
        λ _.
          over_layers-Keeps n others g false _
            λ li l. kv_ensure_blocks_for_row-Keeps n others g li b l row _ _

  prefill_rows-Keeps :
      (prompt_lengths : Array) (active : Option Array) → Kept (prefill_rows g prompt_lengths active)
  unfolding prefill_rows prefill_row
  prefill_rows-Keeps prompt_lengths active =
      Keeps-bind (validate_lengths g prompt_lengths active) _
        (validate_lengths-Keeps n others g prompt_lengths active)
        λ _.
          Keeps-bind (over_rows g active false (prefill_row g prompt_lengths)) _
            (over_rows-Keeps active false (prefill_row g prompt_lengths) λ b row.
              Keeps-bind (write_seqlen b (prompt_lengths b)) _
                (write_seqlen-Keeps n others g b row (prompt_lengths b))
                λ _. prefill_blocks-Keeps b (pos_part (prompt_lengths b)) row)
            λ c.
              Keeps-bind (if c then kv_flush_page_table else pure tt) _
                (flush_if-Keeps n others g c) λ _. kv_flush_cache_seqlens-Keeps n others g

  pub prepare_prefill-Keeps :
      (prompt_lengths : Option Array) → Kept (prepare_prefill g prompt_lengths)
  unfolding prepare_prefill
  prepare_prefill-Keeps none = λ s inv. raises inv
  prepare_prefill-Keeps (some prompt_lengths) = prefill_rows-Keeps prompt_lengths none

  pub prepare_prefill_masked-Keeps :
      (prompt_lengths active : Option Array) → Kept (prepare_prefill_masked g prompt_lengths active)
  unfolding prepare_prefill_masked
  prepare_prefill_masked-Keeps none active = λ s inv. raises inv
  prepare_prefill_masked-Keeps (some prompt_lengths) none = λ s inv. raises inv
  prepare_prefill_masked-Keeps (some prompt_lengths) (some active) =
      prefill_rows-Keeps prompt_lengths (some active)

  module _ (layer : ℕ) (l : layer < g.num_layers) where
    chunk_evict-Keeps :
        (pos_start : ℕ) (active : Option Array) → Kept (chunk_evict g layer pos_start active)
    unfolding chunk_evict
    chunk_evict-Keeps pos_start active =
        Keeps-if (ltb 0 g.sw_size && leb g.sw_size pos_start) _ (pure false)
          (λ _. over_rows-Keeps active false _ λ b row.
            kv_evict_below-Keeps n others g layer b l row (kv_prefill_swa_keep_from g pos_start))
          (λ _. pure-Keeps n others g false)

    prefill_chunk-Keeps :
        (pos_start pos_end : ℕ) (active : Option Array)
        → Kept (prefill_chunk g layer pos_start pos_end active)
    unfolding prefill_chunk
    prefill_chunk-Keeps pos_start pos_end active =
        Keeps-if (pos_end == pos_start) (pure tt) _ (λ _. pure-Keeps n others g tt)
          λ _.
            Keeps-bind (chunk_evict g layer pos_start active) _ (chunk_evict-Keeps pos_start active)
              λ c.
                Keeps-bind (over_rows g active c _) _
                  (over_rows-Keeps active c _
                    λ b row. kv_ensure_blocks_for_row-Keeps n others g layer b l row _ _)
                  λ d. flush_if-Keeps n others g d

  checked_chunk-Keeps :
      (layer_idx pos_start pos_end : ℤ) (active : Option Array)
      → Kept (checked_chunk g layer_idx pos_start pos_end active)
  unfolding checked_chunk
  checked_chunk-Keeps layer_idx pos_start pos_end active =
      require-then (not (is_neg layer_idx)) layer_out_of_range _ λ nonneg.
        require-then (below layer_idx g.num_layers) layer_out_of_range _ λ l.
          require-then (length_in_context g pos_start) length_outside_context _ λ _.
            require-then (length_in_context g pos_end) length_outside_context _ λ _.
              require-then (not (int_lt pos_end pos_start)) chunk_end_precedes_start _ λ _.
                prefill_chunk-Keeps (pos_part layer_idx) (index_lt layer_idx nonneg l)
                  (pos_part pos_start) (pos_part pos_end) active
    where
      index_lt :
          (z : ℤ) → not (is_neg z) ≡ true → below z g.num_layers ≡ true → pos_part z < g.num_layers
      index_lt (pos k) nonneg h = ltb→lt k g.num_layers h
      index_lt (negsuc k) nonneg h = cc

  pub step_prefill_chunk-Keeps :
      (layer_idx pos_start pos_end : ℤ) → Kept (step_prefill_chunk g layer_idx pos_start pos_end)
  unfolding step_prefill_chunk
  step_prefill_chunk-Keeps layer_idx pos_start pos_end =
      checked_chunk-Keeps layer_idx pos_start pos_end none

  pub step_prefill_chunk_masked-Keeps :
      (layer_idx pos_start pos_end : ℤ) (active : Option Array)
      → Kept (step_prefill_chunk_masked g layer_idx pos_start pos_end active)
  unfolding step_prefill_chunk_masked
  step_prefill_chunk_masked-Keeps layer_idx pos_start pos_end none = λ s inv. raises inv
  step_prefill_chunk_masked-Keeps layer_idx pos_start pos_end (some active) =
      checked_chunk-Keeps layer_idx pos_start pos_end (some active)
