-- ===== src/Kv/Stats.antt =====
-- The introspection of src/kv/cache.cpp: `stats`, `free_blocks`, the dimensions and `host_snapshot`.
pub mod Balance
use cohere_megakernel.Common.{
  ℕ, zero, suc, ◌+◌, ◌-◌, ◌^◌, Bool, true, false, not, Option, none, some, ltb, leb, ◌==◌,
  if◌then◌else◌,
}
use cohere_megakernel.Common.Int.{ℤ}
use cohere_megakernel.Kv.Pool.{active_count}
use cohere_megakernel.Kv.Global.{
  Global, page_table_elems_exceeds_int32, capacity_too_small, size_disagrees,
}
use cohere_megakernel.Kv.State.{Vector, Geometry, State}
use cohere_megakernel.Kv.Store.{Store, M, pure, throw, ◌>>=◌, ◌>>◌, require, get}

pub record KvStats : Type 0 where
  pub total : ℕ
  pub allocated : ℕ
  pub peak_allocated : ℕ
  pub free : ℕ

unfoldable pub stats : Store → KvStats
stats s = record {
  total = s.kv.num_phys_pages;
  allocated = active_count s.global.pool;
  peak_allocated = s.kv.peak_allocated;
  free = s.global.pool.free_count;
}

unfoldable pub free_blocks : Store → ℕ
free_blocks s = s.global.pool.free_count

unfoldable pub batch_size : Store → ℕ
batch_size s = s.kv.bs

unfoldable pub num_layers : Store → ℕ
num_layers s = s.kv.num_layers

unfoldable pub max_pages_per_seq : Store → ℕ
max_pages_per_seq s = s.kv.max_pages_per_seq

-- What the caller asks for: the capacity of a page-table buffer, where it gives one, and whether it
-- gives the two others.
pub record SnapshotRequest : Type 0 where
  pub page_table_cap : Option ℕ
  pub wants_seqlens : Bool
  pub wants_active : Bool

pub record KvHostSnapshot : Type 0 where
  pub geometry : Geometry
  pub page_table_elems : ℕ
  pub stats : KvStats
  pub page_table_out : Option (Vector ℤ)
  pub cache_seqlens_out : Option (Vector ℤ)
  pub row_active_out : Option (Vector ℤ)

-- A vector copied into a buffer that is asked for; its size has to be the one that is expected.
unfoldable pub copied : Bool → Vector ℤ → ℕ → M (Option (Vector ℤ))
copied false v n = pure none
copied true v n = do require (v.size == n) size_disagrees; pure (some v)

unfoldable pub copied_page_table : Option ℕ → State → M (Option (Vector ℤ))
copied_page_table none kv = pure none
copied_page_table (some capacity) kv = do
  require (leb kv.page_table_elems capacity) capacity_too_small
  copied true kv.page_table_host kv.page_table_elems

unfoldable pub host_snapshot : SnapshotRequest → M KvHostSnapshot
unfolding copied copied_page_table stats
host_snapshot r = do
  s ← get
  require (ltb s.kv.page_table_elems (2 ^ 31)) page_table_elems_exceeds_int32
  page_table ← copied_page_table r.page_table_cap s.kv
  seqlens ← copied r.wants_seqlens s.kv.cache_seqlens_host s.kv.bs
  active ← copied r.wants_active s.kv.row_active_host s.kv.bs
  pure (record {
    geometry = s.kv.geometry;
    page_table_elems = s.kv.page_table_elems;
    stats = stats s;
    page_table_out = page_table;
    cache_seqlens_out = seqlens;
    row_active_out = active;
  })
