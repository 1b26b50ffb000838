-- ===== src/Kv/State/Window.antt =====
-- Which blocks the sliding window of src/kv/cache.cpp keeps, and the rounding of lengths.
use cohere_megakernel.Common.{
  ℕ, ◌+◌, ◌-◌, ◌*◌, ◌/◌, ◌≤◌, ◌<◌, arith, Bool-cases, inl, inr, ltb, leb, ◌==◌, ◌||◌,
}
use cohere_megakernel.Kv.State.{
  Geometry, kv_div_ceil_nonnegative, kv_prefill_swa_keep_from, flash_attn_local_block_n,
}

div_mul_le : (a b : ℕ) → a / b * b ≤ a
div_mul_le a b = grind arith

lt_div_mul : (a b : ℕ) → 0 < b → a < (a / b + 1) * b
lt_div_mul a b h = grind arith

lt_of_div_lt : (a b c : ℕ) → 0 < b → a / b < c / b → a < c / b * b
lt_of_div_lt a b c h l = grind (arith, lt_div_mul a b h)

ceil_enough : (v d : ℕ) → 0 < d → 0 < v → v ≤ (1 + (v - 1) / d) * d
ceil_enough v d h p = grind (arith, lt_div_mul (v - 1) d h)

mul_le_cancel : (q k d : ℕ) → q * d < k * d → q < k
mul_le_cancel q k d h = grind arith

ceil_least : (v d k : ℕ) → 0 < v → v ≤ k * d → 1 + (v - 1) / d ≤ k
ceil_least v d k p h =
    omega (arith, mul_le_cancel ((v - 1) / d) k d (omega (arith, div_mul_le (v - 1) d)))

-- For a positive `d`, `kv_div_ceil_nonnegative(v, d)` is the least number of blocks of `d` tokens that
-- hold `v` tokens.
pub kv_div_ceil_nonnegative-least :
    (v d : ℕ)
    → 0 < d
    → (v ≤ kv_div_ceil_nonnegative v d * d)
      × ((k : ℕ) → v ≤ k * d → kv_div_ceil_nonnegative v d ≤ k)
unfolding kv_div_ceil_nonnegative
kv_div_ceil_nonnegative-least v d h = elim (Bool-cases (v == 0)) [
  | inl zero ↦ rw zero (ground arith, λ k l. omega arith)
  | inr more ↦ rw more (ceil_enough v d h (ground arith), λ k l. ceil_least v d k (ground arith) l)
]

-- A token in a block below the cutoff of a prefill chunk that starts at `pos_start` lies at least a
-- window before it, and its 128-token tile is an earlier one than that of the oldest token that the
-- chunk attends to.
pub kv_prefill_swa_keep_from-safe :
    (g : Geometry) (pos_start t : ℕ)
    → 0 < g.page_block_size
    → t / g.page_block_size < kv_prefill_swa_keep_from g pos_start
    → (t + g.sw_size ≤ pos_start)
      × (t / flash_attn_local_block_n < (pos_start - (g.sw_size - 1)) / flash_attn_local_block_n)
unfolding kv_prefill_swa_keep_from
kv_prefill_swa_keep_from-safe g pos_start t h l =
    elim (Bool-cases (leb g.sw_size 0 || ltb pos_start g.sw_size)) [
      | inl off ↦ let nothing : t / g.page_block_size < 0 = rw off at l in absurd (omega arith)
      | inr on ↦
          let oldest = pos_start - (g.sw_size - 1) in
          let tile = oldest / flash_attn_local_block_n * flash_attn_local_block_n in
          let low : t / g.page_block_size < tile / g.page_block_size = rw on at l in
          let first = lt_of_div_lt t g.page_block_size tile h low in
          let second = div_mul_le tile g.page_block_size in
          let third = div_mul_le oldest flash_attn_local_block_n in (ground arith, omega arith)
    ]
