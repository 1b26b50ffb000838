-- ===== src/Runtime/Drain.antt =====
-- The attention-drain policy of src/decode/runtime.cu: how many splits each row's full attention
-- gets from its live length, and the queue of ATTN_DECODE instructions for them.
-- `int`s that the code has checked to be positive are natural numbers, and sums and products of them
-- are taken not to overflow.
pub mod Bounds
pub mod Queue
use cohere_megakernel.Common.{
  ℕ, zero, suc, ◌+◌, ◌-◌, ◌*◌, ◌/◌, ◌%◌, ◌^◌, min, max, Bool, true, false, ◌&&◌, not, List, [], ◌∷◌,
  ◌++◌, ltb, leb, ◌==◌, if◌then◌else◌, length,
}
use cohere_megakernel.Common.Int.{ℤ, pos, negsuc, pos_part, is_nonpos}
use cohere_megakernel.Runtime.Failure.{
  Result, returned, thrown, ◌>>=◌, ◌>>◌, require, invalid_geometry, max_splits_too_small,
  head_dim_not_multiple, queue_exceeds_capacity,
}

abbrev pub attn_split_cap_short_context : ℕ
attn_split_cap_short_context = 16

abbrev pub attn_split_short_context_tokens : ℕ
attn_split_short_context_tokens = 65537

abbrev pub attn_drain_min_splits : ℕ
attn_drain_min_splits = 2

unfoldable pub nmc_div_ceil : ℕ → ℕ → ℕ
nmc_div_ceil n d = (n + d - 1) / d

-- `std::max(1, cache_seqlens[b] + 1)`
unfoldable pub live_length : ℤ → ℕ
live_length (pos n) = max 1 (n + 1)
live_length (negsuc n) = 1

-- The accumulators of the two loops over the rows.
unfoldable pub max_below : (ℕ → ℕ) → ℕ → ℕ
max_below f zero = 0
max_below f (suc n) = max (max_below f n) (f n)

unfoldable pub sum_below : (ℕ → ℕ) → ℕ → ℕ
sum_below f zero = 0
sum_below f (suc n) = sum_below f n + f n

-- The parameters behind the checks.
pub record DrainShape : Type 0 where
  pub batch : ℕ
  pub hkv : ℕ
  pub num_sms : ℕ
  pub page_block : ℕ
  pub max_attn_splits : ℕ
  pub min_attn_chunk : ℕ
  pub oversub_k : ℤ

-- `max_splits` behind the cap for short contexts
unfoldable pub split_cap : DrainShape → ℕ → ℕ
split_cap d max_eff =
    let capped =
      if leb max_eff attn_split_short_context_tokens
      then min d.max_attn_splits attn_split_cap_short_context
      else d.max_attn_splits in
    if ltb capped attn_drain_min_splits then attn_drain_min_splits else capped

unfoldable pub min_blocks : DrainShape → ℕ
min_blocks d = max 1 (d.min_attn_chunk / d.page_block)

-- `w[b]`, the blocks of a row
unfoldable pub row_blocks : DrainShape → ℤ → ℕ
row_blocks d seqlen = max 1 (nmc_div_ceil (live_length seqlen) d.page_block)

-- `g`, the blocks that one split is meant to cover
unfoldable pub blocks_per_split : DrainShape → (ℕ → ℤ) → ℕ
unfolding min_blocks row_blocks
blocks_per_split d cache_seqlens =
    let total_work = max 1 (sum_below (λ b. row_blocks d (cache_seqlens b)) d.batch) in
    let k = max 1 (pos_part d.oversub_k) in
    let g_den = max 1 (k * d.num_sms) in
    max (min_blocks d) (nmc_div_ceil (d.hkv * total_work) g_den)

-- `splits_out[b]` in the last loop
unfoldable pub row_splits : DrainShape → (ℕ → ℤ) → ℕ → ℕ
unfolding split_cap min_blocks row_blocks blocks_per_split
row_splits d cache_seqlens b =
    let g = blocks_per_split d cache_seqlens in
    let w = row_blocks d (cache_seqlens b) in
    let splits = if ltb 0 g then (w + g / 2) / g else 1 in
    let max_by_chunk = max 1 (nmc_div_ceil w (min_blocks d)) in
    let max_splits = split_cap d (max_below (λ b. live_length (cache_seqlens b)) d.batch) in
    max attn_drain_min_splits (min splits (min max_splits max_by_chunk))

-- The splits of every row: two where the tasks fill the chip anyway.
unfoldable pub drain_splits : DrainShape → (ℕ → ℤ) → ℕ → ℕ
unfolding row_splits
drain_splits d cache_seqlens =
    if leb d.num_sms (max 1 (d.batch * d.hkv))
    then (λ _. attn_drain_min_splits)
    else row_splits d cache_seqlens

-- The checks in front, in their order.
unfoldable pub drain_shape : ℤ → ℤ → ℤ → ℤ → ℤ → ℤ → ℤ → Result DrainShape
drain_shape batch hkv num_sms page_block max_attn_splits min_attn_chunk oversub_k = do
  require
      (not (is_nonpos batch)
        && not (is_nonpos hkv)
        && not (is_nonpos num_sms)
        && not (is_nonpos page_block)
        && not (is_nonpos min_attn_chunk)
        && (pos_part min_attn_chunk % pos_part page_block == 0))
      invalid_geometry
  require (leb attn_drain_min_splits (max 1 (pos_part max_attn_splits))) max_splits_too_small
  returned (record {
    batch = pos_part batch;
    hkv = pos_part hkv;
    num_sms = pos_part num_sms;
    page_block = pos_part page_block;
    max_attn_splits = max 1 (pos_part max_attn_splits);
    min_attn_chunk = pos_part min_attn_chunk;
    oversub_k = oversub_k;
  })

-- The splits of row `b` are the value at `b`.
unfoldable pub nmc_attn_drain_splits : (ℕ → ℤ) → ℤ → ℤ → ℤ → ℤ → ℤ → ℤ → ℤ → Result (ℕ → ℕ)
unfolding drain_shape drain_splits
nmc_attn_drain_splits cache_seqlens batch hkv num_sms page_block max_attn_splits min_attn_chunk
      oversub_k =
    do
      d ← drain_shape batch hkv num_sms page_block max_attn_splits min_attn_chunk oversub_k
      returned (drain_splits d cache_seqlens)

-- The words of an ATTN_DECODE instruction that are not 0.
pub record AttnTask : Type 0 where
  pub batch_idx : ℕ
  pub kv_head_idx : ℕ
  pub split_idx : ℕ
  pub num_splits : ℕ
  pub wait_target : ℕ

abbrev pub opcode_attn_decode : ℕ
opcode_attn_decode = 3

-- Word `i` of the instruction. The shift and the or of a tile id are a sum, since a head index has
-- less than 16 bits.
unfoldable pub task_word : AttnTask → ℕ → ℕ
task_word t i =
    if i == 0
    then opcode_attn_decode
    else if i == 2
    then t.batch_idx
    else if i == 3
    then t.kv_head_idx
    else if i == 4
    then t.split_idx
    else if i == 5
    then t.num_splits
    else if i == 8
    then t.wait_target
    else if i == 10
    then 1
    else if i == 11
    then t.batch_idx * 2 ^ 16 + t.kv_head_idx
    else 0

-- The body of the innermost loop: one instruction at the cursor, which is the queue's length.
unfoldable pub emit_task : ℕ → AttnTask → List AttnTask → Result (List AttnTask)
emit_task capacity t q =
    if leb capacity (length q) then thrown queue_exceeds_capacity else returned (q ++ t ∷ [])

-- `for (split = nsplit - n; split < nsplit; ++split)`, and so for the heads and the rows
unfoldable pub emit_splits : ℕ → ℕ → ℕ → ℕ → ℕ → ℕ → List AttnTask → Result (List AttnTask)
unfolding emit_task
emit_splits capacity qkv_wait row kvh nsplit zero q = returned q
emit_splits capacity qkv_wait row kvh nsplit (suc n) q = do
  q ←
      emit_task capacity
        (record {
          batch_idx = row;
          kv_head_idx = kvh;
          split_idx = nsplit - suc n;
          num_splits = nsplit;
          wait_target = qkv_wait;
        })
        q
  emit_splits capacity qkv_wait row kvh nsplit n q

unfoldable pub emit_heads : ℕ → ℕ → ℕ → ℕ → ℕ → ℕ → List AttnTask → Result (List AttnTask)
unfolding emit_splits
emit_heads capacity qkv_wait row nsplit hkv zero q = returned q
emit_heads capacity qkv_wait row nsplit hkv (suc n) q = do
  q ← emit_splits capacity qkv_wait row (hkv - suc n) nsplit nsplit q
  emit_heads capacity qkv_wait row nsplit hkv n q

unfoldable pub emit_rows : ℕ → ℕ → (ℕ → ℕ) → ℕ → ℕ → ℕ → List AttnTask → Result (List AttnTask)
unfolding emit_heads
emit_rows capacity qkv_wait splits hkv batch zero q = returned q
emit_rows capacity qkv_wait splits hkv batch (suc n) q = do
  q ← emit_heads capacity qkv_wait (batch - suc n) (splits (batch - suc n)) hkv hkv q
  emit_rows capacity qkv_wait splits hkv batch n q

abbrev pub qkv_bn : ℕ
qkv_bn = 64

-- `(hq / hkv + 2) * (head_dim / BN)`
unfoldable pub qkv_wait_target : ℕ → ℕ → ℕ → ℕ
qkv_wait_target hq hkv head_dim = (hq / hkv + 2) * (head_dim / qkv_bn)

unfoldable pub nmc_build_attn_queue_words : (ℕ → ℕ) → ℕ → ℕ → ℕ → ℕ → ℕ → Result (List AttnTask)
unfolding emit_rows
nmc_build_attn_queue_words splits batch hkv hq head_dim capacity_words = do
  require (head_dim % qkv_bn == 0) head_dim_not_multiple
  emit_rows capacity_words (qkv_wait_target hq hkv head_dim) splits hkv batch batch []
