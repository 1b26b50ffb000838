-- ===== src/Kv/Create.antt =====
-- The constructor of src/kv/cache.cpp: `runtime_kv_init_from_ptrs` and its size computations.
-- It starts from a store whose device tables hold what the caller has put there, and whose handle
-- is empty. `size_t` has 64 bits and an `int` has 4 bytes.
pub mod Pool
pub mod Keep
pub mod Made
use cohere_megakernel.Common.{
  ℕ, zero, suc, ◌+◌, ◌-◌, ◌*◌, ◌/◌, ◌^◌, max, Bool, true, false, ◌&&◌, ◌||◌, not, Option, none,
  some, ltb, leb, ◌==◌, if◌then◌else◌,
}
use cohere_megakernel.Common.Int.{
  ℤ, pos, negsuc, pos_part, minus_one, is_neg, is_nonpos, below, int_lt,
}
use cohere_megakernel.Kv.Pool.{KvBlockPool, init_once, active_count}
use cohere_megakernel.Kv.Global.{
  Global, Attempt, done, fails, size_overflow, page_table_pointer_zero, dimensions_not_positive,
  start_or_window_negative, start_pos_exceeds_context, initial_length_outside_context,
  initial_block_id_invalid, pool_size_changed,
}
use cohere_megakernel.Kv.State.{Vector, filled, Geometry, State, kv_max_tokens, length_in_context}
use cohere_megakernel.Kv.Store.{
  Store, Device, M, pure, throw, ok, ◌>>=◌, ◌>>◌, require, locked, for_range, set_kv, get,
  read_page, read_seqlen, cuda_call,
}
use cohere_megakernel.Kv.Rows.{retain_block}

-- `std::numeric_limits<size_t>::max()`, shut so that no proof computes with it
unfoldable pub size_max : ℕ
size_max = 2 ^ 64 - 1

unfoldable pub checked_product : ℕ → ℕ → M ℕ
checked_product left right =
    if not (right == 0) && ltb (size_max / right) left
    then throw size_overflow
    else pure (left * right)

unfoldable pub checked_page_table_elems : ℕ → ℕ → ℕ → M ℕ
checked_page_table_elems num_layers batch_size max_pages_per_seq = do
  elements ← checked_product num_layers batch_size
  elements ← checked_product elements max_pages_per_seq
  if ltb (size_max / 4) elements then throw size_overflow else pure elements

pub record KvHandleDesc : Type 0 where
  pub page_table : ℕ
  pub cache_seqlens : ℕ
  pub row_active : ℕ
  pub num_layers : ℤ
  pub bs : ℤ
  pub max_pages_per_seq : ℤ
  pub num_phys_pages : ℤ
  pub page_block_size : ℤ
  pub start_pos : ℤ
  pub sw_size : ℤ
  pub sw_pattern : ℤ

unfoldable pub dimensions_positive : KvHandleDesc → Bool
dimensions_positive d =
    not (is_nonpos d.num_layers)
    && (not (is_nonpos d.bs)
        && (not (is_nonpos d.max_pages_per_seq)
            && (not (is_nonpos d.num_phys_pages) && not (is_nonpos d.page_block_size))))

unfoldable pub window_not_negative : KvHandleDesc → Bool
window_not_negative d =
    not (is_neg d.start_pos) && (not (is_neg d.sw_size) && not (is_nonpos d.sw_pattern))

-- `start_pos > max_tokens` is false.
unfoldable pub start_in_context : KvHandleDesc → Bool
start_in_context d =
    leb (pos_part d.start_pos) (pos_part d.max_pages_per_seq * pos_part d.page_block_size)

-- The checks of the dimensions, in their order.
unfoldable pub check_desc : KvHandleDesc → M (Unit {0})
check_desc d = do
  require (not (d.page_table == 0)) page_table_pointer_zero
  require (dimensions_positive d) dimensions_not_positive
  require (window_not_negative d) start_or_window_negative
  require (start_in_context d) start_pos_exceeds_context

-- The dimensions as numbers, once they are checked.
abbrev pub geometry_of : KvHandleDesc → ℕ → Geometry
geometry_of d elems = record {
  num_layers = pos_part d.num_layers;
  bs = pos_part d.bs;
  max_pages_per_seq = pos_part d.max_pages_per_seq;
  num_phys_pages = pos_part d.num_phys_pages;
  page_block_size = pos_part d.page_block_size;
  sw_size = pos_part d.sw_size;
  sw_pattern = pos_part d.sw_pattern;
  page_table_elems = elems;
  page_table = d.page_table;
  cache_seqlens = d.cache_seqlens;
  row_active = d.row_active;
}

-- `resize` and `assign` of the host vectors
abbrev pub sized_state : Geometry → ℕ → State
sized_state g evict = record {
  geometry = g;
  page_table_host = filled g.page_table_elems (pos 0);
  cache_seqlens_host = filled g.bs (pos 0);
  row_active_host = filled g.bs (pos 1);
  sliding_evict_until = filled evict 0;
  peak_allocated = 0;
}

-- The synchronous copies from the device tables into host vectors of known size.
unfoldable pub load_page_table : M (Unit {0})
load_page_table = do
  cuda_call
  λ s. ok tt (record s {
    kv = record s.kv {
      page_table_host = record { size = s.kv.page_table_host.size; at = s.device.page_table.at };
    };
  })

unfoldable pub load_seqlens : Geometry → ℕ → M (Unit {0})
load_seqlens g start_pos =
    if g.cache_seqlens == 0
    then (λ s.
        ok tt (record s { kv = record s.kv { cache_seqlens_host = filled g.bs (pos start_pos) } }))
    else do
      cuda_call
      λ s. ok tt (record s {
        kv = record s.kv {
          cache_seqlens_host = record {
            size = s.kv.cache_seqlens_host.size;
            at = s.device.cache_seqlens.at;
          };
        };
      })

unfoldable pub load_row_active : Geometry → M (Unit {0})
load_row_active g = if g.row_active == 0 then pure tt else do
  cuda_call
  λ s. ok tt (record s {
    kv = record s.kv {
      row_active_host = record { size = s.kv.row_active_host.size; at = s.device.row_active.at };
    };
  })

-- `v < -1 || v >= num_phys_pages` is false.
abbrev pub valid_slot : ℕ → ℤ → Bool
valid_slot n (pos i) = ltb i n
valid_slot n (negsuc k) = k == 0

unfoldable pub init_pool : ℕ → M (Unit {0})
init_pool n = locked λ gl. elim (init_once gl.pool n) [
  | none ↦ fails pool_size_changed
  | some p ↦ done (tt, record gl { pool = p })
]

-- `for (int v : page_table_host) if (v >= 0) kv_retain_block_nolock(v);`
unfoldable pub retain_slot : ℕ → M (Unit {0})
retain_slot k = do v ← read_page k; if is_neg v then pure tt else retain_block v

-- The locked part at the end: the pool, and a reference for each slot that names a block.
unfoldable pub adopt_slots : Geometry → M (Unit {0})
adopt_slots g = do
  init_pool g.num_phys_pages
  for_range g.page_table_elems 0 tt λ k _. retain_slot k
  λ s. ok tt (record s { kv = record s.kv { peak_allocated = active_count s.global.pool } })

unfoldable pub check_length : Geometry → ℕ → M (Unit {0})
check_length g b = do
  length ← read_seqlen b
  require (length_in_context g length) initial_length_outside_context

unfoldable pub check_slot : Geometry → ℕ → M (Unit {0})
check_slot g k = do
  v ← read_page k
  require (valid_slot g.num_phys_pages v) initial_block_id_invalid

unfoldable pub load_tables : Geometry → ℕ → M (Unit {0})
load_tables g start_pos = do
  load_page_table
  load_seqlens g start_pos
  for_range g.bs 0 tt λ b _. check_length g b
  load_row_active g
  for_range g.page_table_elems 0 tt λ k _. check_slot g k

unfoldable pub create : KvHandleDesc → M (Unit {0})
create d = do
  check_desc d
  elems ←
      checked_page_table_elems (pos_part d.num_layers) (pos_part d.bs)
        (pos_part d.max_pages_per_seq)
  evict ← checked_product (pos_part d.num_layers) (pos_part d.bs)
  set_kv (sized_state (geometry_of d elems) evict)
  load_tables (geometry_of d elems) (pos_part d.start_pos)
  adopt_slots (geometry_of d elems)
