-- ===== src/Kv/Prefill/Present.antt =====
-- What a prefill chunk of src/kv/cache.cpp promises: behind it every position of the chunk has a
-- block in its layer.
use cohere_megakernel.Common.{
  ℕ, ◌/◌, ◌<◌, ◌≤◌, ◌≡◌, ◌⊎◌, refl, true, false, Option, none, some, arith, leb, ltb, ◌==◌,
  Bool-cases, inl, inr,
}
use cohere_megakernel.Common.Int.{pos, int_lt}
use cohere_megakernel.Kv.Global.{out_of_blocks, cuda_failure}
use cohere_megakernel.Kv.State.{
  Geometry, kv_pt, kv_max_tokens, kv_div_ceil_nonnegative, length_in_context,
}
use cohere_megakernel.Kv.State.Window.{kv_div_ceil_nonnegative-least}
use cohere_megakernel.Kv.Store.{Store}
use cohere_megakernel.Kv.Store.Ensures.{Ensures, returns, bind, mono, weaken_error}
use cohere_megakernel.Kv.Rows.Inv.{Inv}
use cohere_megakernel.Kv.Rows.Present.{IsFull}
use cohere_megakernel.Kv.Decode.{Array, row_on}
use cohere_megakernel.Kv.Prefill.{
  prefill_chunk, checked_chunk, step_prefill_chunk, step_prefill_chunk_masked,
}
use cohere_megakernel.Kv.Prefill.Served.{
  Failed, chunk_evict-Runs, ensure_rows, flush_rows, div_mono, div_lt,
}

module _ (n : ℕ) (others : ℕ → ℕ) (g : Geometry) (active : Option Array) (layer : ℕ)
    (l : layer < g.num_layers) where
  -- Every position of a chunk has a block in the layer, in each row that the mask lets count.
  abbrev Covers : ℕ → ℕ → Store → Type 0
  Covers from to t =
      Inv n others g t
      × ((b p : ℕ)
          → b < g.bs
          → row_on active b ≡ true
          → from ≤ p
          → p < to
          → IsFull t (kv_pt g layer b (p / g.page_block_size)))

  prefill_chunk-Covers :
      (from to : ℕ) (s : Store)
      → 0 < g.page_block_size
      → to ≤ kv_max_tokens g
      → Inv n others g s
      → Ensures
          (λ _ t. Covers from to t)
          (Failed n others g active layer l)
          (prefill_chunk g layer from to active s)
  unfolding prefill_chunk kv_max_tokens
  prefill_chunk-Covers from to s block fits inv = elim (Bool-cases (to == from)) [
    | inl empty ↦ rw empty (returns (inv, λ b p r on low high. absurd (ground arith)))
    | inr more ↦
        let ceil = kv_div_ceil_nonnegative-least to g.page_block_size block in
        rw more (
          bind
            (weaken_error (chunk_evict-Runs n others g active layer l from s inv)
              λ _ _ bot. absurd bot)
            λ evicted t kept.
              bind
                (ensure_rows n others g active layer l (from / g.page_block_size)
                  (kv_div_ceil_nonnegative to g.page_block_size) evicted t
                  (ceil.1 g.max_pages_per_seq fits) kept)
                λ changed u served.
                  mono
                    (flush_rows n others g active layer l (from / g.page_block_size)
                      (kv_div_ceil_nonnegative to g.page_block_size) changed u served)
                    λ _ v (kept', full). (
                      kept',
                      λ b p r on low high.
                          full b (p / g.page_block_size) r on
                            (div_mono from p g.page_block_size block low)
                            (div_lt p (kv_div_ceil_nonnegative to g.page_block_size)
                              g.page_block_size block (omega (arith, ceil.0))),
                    ))
  ]

  checked_chunk-Covers :
      (from to : ℕ) (s : Store)
      → 0 < g.page_block_size
      → from ≤ to
      → to ≤ kv_max_tokens g
      → Inv n others g s
      → Ensures
          (λ _ t. Covers from to t)
          (Failed n others g active layer l)
          (checked_chunk g (pos layer) (pos from) (pos to) active s)
  unfolding checked_chunk length_in_context
  checked_chunk-Covers from to s block order fits inv =
      let layer_ok : ltb layer g.num_layers ≡ true = ground arith in
      let from_ok : leb from (kv_max_tokens g) ≡ true = ground arith in
      let to_ok : leb to (kv_max_tokens g) ≡ true = ground arith in
      let order_ok : int_lt (pos to) (pos from) ≡ false = ground arith in
      rw (layer_ok, from_ok, to_ok, order_ok) (prefill_chunk-Covers from to s block fits inv)

-- For a layer in range and a chunk `[from, to)` within the context, `step_prefill_chunk_masked` on a
-- handle that satisfies the invariant returns with a block of that layer for every position of the
-- chunk in every row of the mask, or throws since no block is free or a CUDA call has failed; the
-- invariant holds behind it in either case.
pub step_prefill_chunk_masked_lem :
    (n : ℕ) (others : ℕ → ℕ) (g : Geometry) (active : Array) (layer from to : ℕ) (s : Store)
    → layer < g.num_layers
    → 0 < g.page_block_size
    → from ≤ to
    → to ≤ kv_max_tokens g
    → Inv n others g s
    → Ensures
        (λ _ t.
          Inv n others g t
          × ((b p : ℕ)
              → b < g.bs
              → row_on (some active) b ≡ true
              → from ≤ p
              → p < to
              → IsFull t (kv_pt g layer b (p / g.page_block_size))))
        (λ e t. ((e ≡ out_of_blocks) ⊎ (e ≡ cuda_failure)) × Inv n others g t)
        (step_prefill_chunk_masked g (pos layer) (pos from) (pos to) (some active) s)
unfolding step_prefill_chunk_masked
step_prefill_chunk_masked_lem n others g active layer from to s l block order fits inv =
    checked_chunk-Covers n others g (some active) layer l from to s block order fits inv

-- For a layer in range and a chunk `[from, to)` within the context, `step_prefill_chunk` on a handle
-- that satisfies the invariant returns with a block of that layer for every position of the chunk in
-- every row, or throws since no block is free or a CUDA call has failed; the invariant holds behind it
-- in either case.
pub step_prefill_chunk_lem :
    (n : ℕ) (others : ℕ → ℕ) (g : Geometry) (layer from to : ℕ) (s : Store)
    → layer < g.num_layers
    → 0 < g.page_block_size
    → from ≤ to
    → to ≤ kv_max_tokens g
    → Inv n others g s
    → Ensures
        (λ _ t.
          Inv n others g t
          × ((b p : ℕ)
              → b < g.bs
              → from ≤ p
              → p < to
              → IsFull t (kv_pt g layer b (p / g.page_block_size))))
        (λ e t. ((e ≡ out_of_blocks) ⊎ (e ≡ cuda_failure)) × Inv n others g t)
        (step_prefill_chunk g (pos layer) (pos from) (pos to) s)
unfolding step_prefill_chunk
step_prefill_chunk_lem n others g layer from to s l block order fits inv =
    mono (checked_chunk-Covers n others g none layer l from to s block order fits inv)
      λ _ t (kept, full). (kept, λ b p r low high. full b p r refl low high)
