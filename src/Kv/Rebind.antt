-- ===== src/Kv/Rebind.antt =====
-- `KvHandle::rebind` of src/kv/cache.cpp: a handle of another batch size whose rows take over the
-- blocks of chosen rows of an old one. The store's handle is the new one; the old one is read only.
pub mod Region
pub mod Copy
pub mod Parts
pub mod Made
use cohere_megakernel.Common.{
  ℕ, zero, suc, Bool, true, false, ◌&&◌, ◌||◌, not, Option, none, some, List, [], ◌∷◌, ltb, ◌==◌,
  if◌then◌else◌,
}
use cohere_megakernel.Common.Int.{ℤ, pos, pos_part, minus_one, is_neg, is_nonpos, below, int_lt}
use cohere_megakernel.Kv.Global.{
  missing_arguments, batch_size_not_positive, source_row_out_of_range, duplicate_source_row,
}
use cohere_megakernel.Kv.State.{Vector, filled, Geometry, State, kv_pt, kv_evict_until}
use cohere_megakernel.Kv.Store.{
  Store, Outcome, ok, throws, undefined, M, pure, throw, ◌>>=◌, ◌>>◌, require, for_range, set_kv,
  write_page, write_evict, write_seqlen, write_active, cuda_call, kv_flush_page_table,
  kv_flush_cache_seqlens, kv_flush_row_active,
}
use cohere_megakernel.Kv.Rows.{retain_block}
use cohere_megakernel.Kv.Decode.{Array, destroy}
use cohere_megakernel.Kv.Create.{checked_product, checked_page_table_elems}

-- An element of a vector of the old handle
unfoldable pub peek : {A : Type 0} → Vector A → ℕ → M A
peek v k = if ltb k v.size then pure (v.at k) else (λ _. undefined)

-- `seen_rows`
unfoldable pub seen : ℕ → List ℕ → Bool
seen row [] = false
seen row (r ∷ rs) = (row == r) || seen row rs

-- The checks of the source rows from `d` on, `n` of them
unfoldable pub check_sources : Geometry → Array → ℕ → ℕ → List ℕ → M (Unit {0})
check_sources g src_rows zero d rows = pure tt
check_sources g src_rows (suc n) d rows = do
  require (not (int_lt (src_rows d) minus_one) && below (src_rows d) g.bs) source_row_out_of_range
  require (is_neg (src_rows d) || not (seen (pos_part (src_rows d)) rows)) duplicate_source_row
  check_sources g src_rows n (suc d)
      (if is_neg (src_rows d) then rows else pos_part (src_rows d) ∷ rows)

-- The destination tensors, and the old handle's other dimensions
abbrev pub rebound : Geometry → ℕ → ℕ → ℕ → ℕ → ℕ → Geometry
rebound g new_bs elems new_page_table new_cache_seqlens new_row_active = record g {
  bs = new_bs;
  page_table_elems = elems;
  page_table = new_page_table;
  cache_seqlens = new_cache_seqlens;
  row_active = new_row_active;
}

-- The new state before its vectors have a size, and behind it
abbrev pub unsized : Geometry → State → State
unsized g' old = record {
  geometry = g';
  page_table_host = filled 0 (pos 0);
  cache_seqlens_host = filled 0 (pos 0);
  row_active_host = filled 0 (pos 0);
  sliding_evict_until = filled 0 0;
  peak_allocated = old.peak_allocated;
}

abbrev pub sized : Geometry → State → State
sized g' old = record (unsized g' old) {
  page_table_host = filled g'.page_table_elems minus_one;
  cache_seqlens_host = filled g'.bs (pos 0);
  row_active_host = filled g'.bs (pos 0);
}

-- The body of the three loops: row `d` takes over the blocks of `row`.
unfoldable pub copy_slot : Geometry → State → Geometry → ℕ → ℕ → ℕ → ℕ → M (Unit {0})
copy_slot g old g' d row li blk = do
  slot ← peek old.page_table_host (kv_pt g li row blk)
  if is_neg slot then pure tt else retain_block slot
  write_page (kv_pt g' li d blk) slot

unfoldable pub copy_layer : Geometry → State → Geometry → ℕ → ℕ → ℕ → M (Unit {0})
copy_layer g old g' d row li = do
  until ← peek old.sliding_evict_until (kv_evict_until g li row)
  write_evict (kv_evict_until g' li d) until
  for_range g'.max_pages_per_seq 0 tt λ blk _. copy_slot g old g' d row li blk

unfoldable pub copy_row : Geometry → State → Geometry → Array → ℕ → M (Unit {0})
copy_row g old g' src_rows d = if is_neg (src_rows d) then pure tt else do
  let row = pos_part (src_rows d)
  length ← peek old.cache_seqlens_host row
  write_seqlen d length
  active ← peek old.row_active_host row
  write_active d active
  for_range g'.num_layers 0 tt λ li _. copy_layer g old g' d row li

-- The locked loop and the copies to the device behind it
unfoldable pub copy_rows : Geometry → State → Geometry → Array → M (Unit {0})
copy_rows g old g' src_rows = do
  for_range g'.bs 0 tt λ d _. copy_row g old g' src_rows d
  kv_flush_page_table
  kv_flush_cache_seqlens g'
  kv_flush_row_active g'
  cuda_call

-- The unwinding of a throw through the new handle, whose destructor runs. A throw out of the
-- destructor would end the process.
abbrev pub destroyed : {A : Type 0} → Geometry → Outcome A → Outcome A
destroyed g' (ok a s) = ok a s
destroyed g' undefined = undefined
destroyed g' (throws e s) = elim (destroy g' s) [
  | ok _ t ↦ throws e t
  | throws _ _ ↦ undefined
  | undefined ↦ undefined
]

unfoldable pub owned : {A : Type 0} → Geometry → M A → M A
owned g' m s = destroyed g' (m s)

unfoldable pub size_evict : Geometry → M (Unit {0})
size_evict g' = do
  evict ← checked_product g'.num_layers g'.bs
  λ s. ok tt (record s { kv = record s.kv { sliding_evict_until = filled evict 0 } })

-- Behind the checks
unfoldable pub rebuild : Geometry → State → Array → ℕ → ℕ → ℕ → ℕ → M Geometry
rebuild g old src_rows new_bs new_page_table new_cache_seqlens new_row_active = do
  let g₀ = rebound g new_bs 0 new_page_table new_cache_seqlens new_row_active
  set_kv (unsized g₀ old)
  elems ← owned g₀ (checked_page_table_elems g₀.num_layers g₀.bs g₀.max_pages_per_seq)
  let g' = rebound g new_bs elems new_page_table new_cache_seqlens new_row_active
  set_kv (sized g' old)
  owned g' (do size_evict g'; copy_rows g old g' src_rows)
  pure g'

-- The dimensions of the new handle, which the store holds then
unfoldable pub rebind : Geometry → State → Option Array → ℤ → ℕ → ℕ → ℕ → M Geometry
rebind g old none new_bs new_page_table new_cache_seqlens new_row_active = throw missing_arguments
rebind g old (some src_rows) new_bs new_page_table new_cache_seqlens new_row_active = do
  require (not (is_nonpos new_bs)) batch_size_not_positive
  require (not (new_page_table == 0) && (not (new_cache_seqlens == 0) && not (new_row_active == 0)))
      missing_arguments
  check_sources g src_rows (pos_part new_bs) 0 []
  rebuild g old src_rows (pos_part new_bs) new_page_table new_cache_seqlens new_row_active
