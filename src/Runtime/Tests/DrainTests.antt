-- ===== src/Runtime/Tests/DrainTests.antt =====
-- The theorems about the attention queue of src/decode/runtime.cu at a small batch.
use cohere_megakernel.Common.{ℕ, ◌*◌, ◌≤◌, ◌≡◌, refl, arith, max, ◌&&◌, All, List, [], length, ltb}
use cohere_megakernel.Common.Int.{ℤ, pos, minus_one}
use cohere_megakernel.Kv.Rows.Inv.{one_if}
use cohere_megakernel.Kv.State.{filled}
use cohere_megakernel.Runtime.Failure.{returned}
use cohere_megakernel.Runtime.Refresh.{DrainState}
use cohere_megakernel.Runtime.Refresh.Synced.{Synced}
use cohere_megakernel.Runtime.Drain.{
  DrainShape, AttnTask, sum_below, min_blocks, row_blocks, nmc_div_ceil, nmc_attn_drain_splits,
  nmc_build_attn_queue_words, qkv_wait_target,
}
use cohere_megakernel.Runtime.Drain.Bounds.{nmc_attn_drain_splits_lem}
use cohere_megakernel.Runtime.Drain.Queue.{occurrences, nmc_build_attn_queue_words_lem}

abbrev shape : DrainShape
shape = record {
  batch = 2;
  hkv = 1;
  num_sms = 8;
  page_block = 64;
  max_attn_splits = 4;
  min_attn_chunk = 64;
  oversub_k = pos 1;
}

abbrev lengths : ℕ → ℤ
lengths _ = pos 200

nmc_attn_drain_splits_lem_example :
    (splits_out : ℕ → ℕ) × (nmc_attn_drain_splits lengths
        (pos 2)
        (pos 1)
        (pos 8)
        (pos 64)
        (pos 4)
        (pos 64)
        (pos 1)
      ≡ returned splits_out)
    × ((b : ℕ)
        → (2 ≤ splits_out b)
          × (splits_out b ≤ 4)
          × (splits_out b ≤ max 2 (nmc_div_ceil (row_blocks shape (pos 200)) (min_blocks shape))))
nmc_attn_drain_splits_lem_example =
    nmc_attn_drain_splits_lem shape lengths (omega arith) (omega arith) (omega arith) (omega arith)
      (omega arith) refl (omega arith)

abbrev two : ℕ → ℕ
two _ = 2

nmc_build_attn_queue_words_lem_example :
    (q : List AttnTask) × (nmc_build_attn_queue_words two 2 1 4 128 8 ≡ returned q)
    × (length q ≡ 1 * sum_below two 2)
    × ((row kvh split : ℕ)
        → occurrences row kvh split q ≡ one_if (ltb row 2 && (ltb kvh 1 && ltb split 2)))
    × All (λ t. (t.num_splits ≡ two t.batch_idx) × (t.wait_target ≡ qkv_wait_target 4 1 128)) q
unfolding sum_below
nmc_build_attn_queue_words_lem_example =
    nmc_build_attn_queue_words_lem two 2 1 4 128 8 refl (omega arith)

-- Before the first refresh
abbrev untouched : DrainState
untouched = record {
  splits_cache = filled 0 minus_one;
  device_tasks = [];
  device_splits = λ _. 0;
  copy_results = [];
}
