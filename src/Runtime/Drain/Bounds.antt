-- ===== src/Runtime/Drain/Bounds.antt =====
-- How many splits `nmc_attn_drain_splits` of src/decode/runtime.cu gives a row.
use cohere_megakernel.Common.{ℕ, ◌≡◌, ◌≤◌, ◌<◌, ◌%◌, arith, max}
use cohere_megakernel.Common.Int.{ℤ, pos}
use cohere_megakernel.Runtime.Failure.{returned}
use cohere_megakernel.Runtime.Drain.{
  DrainShape, nmc_div_ceil, max_below, live_length, min_blocks, row_blocks, split_cap, row_splits,
  drain_splits, drain_shape, nmc_attn_drain_splits,
}

split_cap-bounds :
    (d : DrainShape) (max_eff : ℕ)
    → 2 ≤ d.max_attn_splits
    → (2 ≤ split_cap d max_eff) × (split_cap d max_eff ≤ d.max_attn_splits)
unfolding split_cap
split_cap-bounds d max_eff h = ground arith

pub drain_splits-bounds :
    (d : DrainShape) (cache_seqlens : ℕ → ℤ) (b : ℕ)
    → 2 ≤ d.max_attn_splits
    → (2 ≤ drain_splits d cache_seqlens b)
      × (drain_splits d cache_seqlens b ≤ d.max_attn_splits)
      × (drain_splits d cache_seqlens b
          ≤ max 2 (nmc_div_ceil (row_blocks d (cache_seqlens b)) (min_blocks d)))
unfolding drain_splits row_splits
drain_splits-bounds d cache_seqlens b h =
    ground (arith, split_cap-bounds d (max_below (λ c. live_length (cache_seqlens c)) d.batch) h)

module _ (d : DrainShape) (cache_seqlens : ℕ → ℤ) (batch : 0 < d.batch) (hkv : 0 < d.hkv)
    (sms : 0 < d.num_sms) (page : 0 < d.page_block) (chunk : 0 < d.min_attn_chunk)
    (multiple : d.min_attn_chunk % d.page_block ≡ 0) (splits : 2 ≤ d.max_attn_splits) where
  pub nmc_attn_drain_splits-returned :
      nmc_attn_drain_splits cache_seqlens
        (pos d.batch)
        (pos d.hkv)
        (pos d.num_sms)
        (pos d.page_block)
        (pos d.max_attn_splits)
        (pos d.min_attn_chunk)
        d.oversub_k
      ≡ returned (drain_splits d cache_seqlens)
  unfolding nmc_attn_drain_splits drain_shape
  nmc_attn_drain_splits-returned =
      let allowed : max 1 d.max_attn_splits ≡ d.max_attn_splits = omega arith in
      ground (arith, allowed)

  -- For a positive geometry, a chunk that is a multiple of the page, and at least two splits allowed,
  -- `nmc_attn_drain_splits` returns, and gives every row at least two splits, at most the number
  -- allowed, and no more than two or one for each chunk of its blocks.
  pub nmc_attn_drain_splits_lem :
      (splits_out : ℕ → ℕ) × (nmc_attn_drain_splits cache_seqlens
          (pos d.batch)
          (pos d.hkv)
          (pos d.num_sms)
          (pos d.page_block)
          (pos d.max_attn_splits)
          (pos d.min_attn_chunk)
          d.oversub_k
        ≡ returned splits_out)
      × ((b : ℕ)
          → (2 ≤ splits_out b)
            × (splits_out b ≤ d.max_attn_splits)
            × (splits_out b ≤ max 2 (nmc_div_ceil (row_blocks d (cache_seqlens b)) (min_blocks d))))
  nmc_attn_drain_splits_lem = (
    drain_splits d cache_seqlens,
    nmc_attn_drain_splits-returned,
    λ b. drain_splits-bounds d cache_seqlens b splits,
  )
