-- ===== src/Kv/State.antt =====
-- `KvHandle::State` of src/kv/cache.cpp: the host mirrors of one handle's device tables, their
-- index functions, and the pure helpers on lengths and positions.
-- A `std::vector` is its size with a function on its indices. The dimensions, which are checked to
-- be positive when they are set, are natural numbers.
pub mod Index
pub mod Window
use cohere_megakernel.Common.{
  ℕ, zero, suc, ◌+◌, ◌-◌, ◌*◌, ◌/◌, ◌%◌, Bool, true, false, ◌||◌, not, ltb, leb, ◌==◌,
  if◌then◌else◌,
}
use cohere_megakernel.Common.Int.{ℤ, pos, negsuc, pos_part}

pub record Vector (A : Type 0) : Type 0 where
  pub size : ℕ
  pub at : ℕ → A

-- `v.assign(n, a)`
abbrev pub filled : {A : Type 0} → ℕ → A → Vector A
filled n a = record { size = n; at = λ _. a }

abbrev pub write_at : {A : Type 0} → Vector A → ℕ → A → Vector A
write_at v i a = record { size = v.size; at = λ j. if i == j then a else v.at j }

-- The part of the state that no call changes once it is set up.
pub record Geometry : Type 0 where
  pub num_layers : ℕ
  pub bs : ℕ
  pub max_pages_per_seq : ℕ
  pub num_phys_pages : ℕ
  pub page_block_size : ℕ
  pub sw_size : ℕ
  pub sw_pattern : ℕ
  pub page_table_elems : ℕ
  pub page_table : ℕ
  pub cache_seqlens : ℕ
  pub row_active : ℕ

pub record State : Type 0 where
  pub geometry : Geometry
  pub open geometry use *
  pub page_table_host : Vector ℤ
  pub cache_seqlens_host : Vector ℤ
  pub row_active_host : Vector ℤ
  pub sliding_evict_until : Vector ℕ
  pub peak_allocated : ℕ

-- The index behind `kv_pt(kv, layer, batch, block)`.
unfoldable pub kv_pt : Geometry → ℕ → ℕ → ℕ → ℕ
kv_pt g layer batch block = (layer * g.bs + batch) * g.max_pages_per_seq + block

-- The index behind `kv_evict_until(kv, layer, batch)`.
unfoldable pub kv_evict_until : Geometry → ℕ → ℕ → ℕ
kv_evict_until g layer batch = layer * g.bs + batch

unfoldable pub kv_layer_is_sliding : Geometry → ℕ → Bool
kv_layer_is_sliding g layer = not (layer % g.sw_pattern == 0)

unfoldable pub kv_div_ceil_nonnegative : ℕ → ℕ → ℕ
kv_div_ceil_nonnegative value divisor = if value == 0 then 0 else 1 + (value - 1) / divisor

-- In 64 bits, so that the product of two `int`s does not wrap.
unfoldable pub kv_max_tokens : Geometry → ℕ
kv_max_tokens g = g.max_pages_per_seq * g.page_block_size

-- `length < 0 || length > kv_max_tokens(kv)` is false.
unfoldable pub length_in_context : Geometry → ℤ → Bool
length_in_context g (pos n) = leb n (kv_max_tokens g)
length_in_context g (negsuc n) = false

-- `kFlashAttnLocalBlockN`
abbrev pub flash_attn_local_block_n : ℕ
flash_attn_local_block_n = 128

unfoldable pub kv_prefill_swa_keep_from : Geometry → ℕ → ℕ
kv_prefill_swa_keep_from g pos_start =
    if leb g.sw_size 0 || ltb pos_start g.sw_size
    then 0
    else (pos_start - (g.sw_size - 1))
      / flash_attn_local_block_n
      * flash_attn_local_block_n
      / g.page_block_size

-- The first logical block that `prepare_prefill` allocates for a layer of a row.
unfoldable pub prefill_blk_lo : Geometry → ℕ → ℕ → ℕ
unfolding kv_layer_is_sliding
prefill_blk_lo g layer row_seq =
    if kv_layer_is_sliding g layer
    then (if ltb 0 g.sw_size
        then (if ltb g.sw_size row_seq then (row_seq - g.sw_size) / g.page_block_size else 0)
        else 0)
    else 0
