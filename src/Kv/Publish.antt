-- ===== src/Kv/Publish.antt =====
-- `prefix_publish` and the process-global calls `prefix_cache_clear`, `prefix_cache_size` and
-- `prefix_cache_stats` of src/kv/cache.cpp.
pub mod Mark
pub mod Found
pub mod RoundTrip
pub mod Keep
use cohere_megakernel.Common.{
  ℕ, zero, suc, ◌+◌, Bool, true, false, ◌&&◌, not, Option, none, some, List, [], ◌∷◌, ltb, ◌==◌,
  if◌then◌else◌, length,
}
use cohere_megakernel.Common.Int.{ℤ, pos, negsuc, pos_part, is_neg, is_nonpos, below}
use cohere_megakernel.Kv.Pool.{
  BlockHash, KvBlockPool, KvCacheBlock, zero_hash, hash_eq, update, active_count,
}
use cohere_megakernel.Kv.Prefix.{Entry, PrefixCache, find, has_any}
use cohere_megakernel.Kv.Global.{
  Global, Attempt, done, fails, block_at, two_prefix_hashes, missing_arguments,
  row_or_block_out_of_range,
}
use cohere_megakernel.Kv.State.{Geometry, kv_pt}
use cohere_megakernel.Kv.Store.{Store, M, ok, pure, throw, ◌>>=◌, ◌>>◌, require, look, read_page}
use cohere_megakernel.Kv.Attach.{parse_block_hash, in_range}

-- `block.has_hash && !(block.block_hash == h)` is false for the block of a slot.
unfoldable pub check_unhashed : BlockHash → ℤ → Global → Attempt (Unit {0})
check_unhashed h (negsuc _) gl = done tt
check_unhashed h (pos i) gl = elim (block_at gl.pool (pos i)) [
  | done j ↦
      if (gl.pool.block j).has_hash && not (hash_eq (gl.pool.block j).block_hash h)
      then fails two_prefix_hashes
      else done tt
  | fails e ↦ fails e
]

-- The entry for a row's logical block, from layer `li` on, with the check of each block.
unfoldable pub collect_entry : Geometry → BlockHash → ℕ → ℕ → ℕ → ℕ → M Entry
collect_entry g h row logical_block zero li = pure []
collect_entry g h row logical_block (suc n) li = do
  id ← read_page (kv_pt g li row logical_block)
  look (check_unhashed h id)
  rest ← collect_entry g h row logical_block n (suc li)
  pure (id ∷ rest)

-- `block.block_hash = h; block.has_hash = true;`
abbrev pub carry : BlockHash → KvCacheBlock → KvCacheBlock
carry h b = record b { block_hash = h; has_hash = true }

-- The last loop: every block of the entry carries the hash.
unfoldable pub mark_blocks : BlockHash → Entry → (ℕ → KvCacheBlock) → ℕ → KvCacheBlock
mark_blocks h [] f = f
mark_blocks h (pos i ∷ ids) f = mark_blocks h ids (update f i (carry h))
mark_blocks h (negsuc _ ∷ ids) f = mark_blocks h ids f

-- `emplace` of a key that the cache does not have, and the last loop
unfoldable pub published : BlockHash → Entry → Global → Global
published h entry gl = record {
  pool = record gl.pool { block = mark_blocks h entry gl.pool.block };
  cache = (h, entry) ∷ gl.cache;
}

unfoldable pub store_entry : BlockHash → Entry → M Bool
store_entry h entry =
    if has_any entry
    then (λ s. ok true (record s { global = published h entry s.global }))
    else pure false

-- `none` where the key is in the cache already
abbrev pub publish_new : Geometry → BlockHash → ℕ → ℕ → Option Entry → M Bool
publish_new g h row logical_block (some _) = pure false
publish_new g h row logical_block none = do
  entry ← collect_entry g h row logical_block g.num_layers 0
  store_entry h entry

unfoldable pub publish_at : Geometry → BlockHash → ℕ → ℕ → M Bool
publish_at g h row logical_block s = publish_new g h row logical_block (find h s.global.cache) s

unfoldable pub prefix_publish : Geometry → Option (List ℕ) → ℤ → ℤ → ℤ → M Bool
prefix_publish g none key_len row logical_block = throw missing_arguments
prefix_publish g (some key) key_len row logical_block = do
  require (not (is_nonpos key_len)) missing_arguments
  require (in_range g row logical_block) row_or_block_out_of_range
  h ← look λ _. parse_block_hash (some key) key_len
  publish_at g h (pos_part row) (pos_part logical_block)

-- Every block of the pool forgets its hash.
unfoldable pub clear_hashes : ℕ → (ℕ → KvCacheBlock) → ℕ → KvCacheBlock
clear_hashes zero f = f
clear_hashes (suc n) f =
    update (clear_hashes n f) n (λ b. record b { has_hash = false; block_hash = zero_hash })

unfoldable pub prefix_cache_clear : Global → Global
prefix_cache_clear gl = record {
  pool = record gl.pool { block = clear_hashes gl.pool.size gl.pool.block };
  cache = [];
}

unfoldable pub prefix_cache_size : Global → ℕ
prefix_cache_size gl = length gl.cache

pub record PrefixCacheStats : Type 0 where
  pub entries : ℕ
  pub total_blocks : ℕ
  pub active_blocks : ℕ
  pub free_blocks : ℕ
  pub cached_blocks : ℕ
  pub free_cached_blocks : ℕ
  pub evicted_blocks : ℕ

-- How many of the first `n` blocks pass a test.
unfoldable pub count_blocks : (KvCacheBlock → Bool) → ℕ → (ℕ → KvCacheBlock) → ℕ
count_blocks test zero f = 0
count_blocks test (suc n) f = (if test (f n) then 1 else 0) + count_blocks test n f

unfoldable pub prefix_cache_stats : Global → PrefixCacheStats
prefix_cache_stats gl = record {
  entries = length gl.cache;
  total_blocks = gl.pool.size;
  active_blocks = active_count gl.pool;
  free_blocks = gl.pool.free_count;
  cached_blocks = count_blocks (λ b. b.has_hash) gl.pool.size gl.pool.block;
  free_cached_blocks = count_blocks (λ b. b.has_hash && b.in_free_queue) gl.pool.size gl.pool.block;
  evicted_blocks = gl.pool.evicted_blocks;
}
