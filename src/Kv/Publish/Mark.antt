-- ===== src/Kv/Publish/Mark.antt =====
-- Publishing an entry, as in src/kv/cache.cpp, keeps cache and blocks in step.
use cohere_megakernel.Common.{
  ℕ, ◌<◌, ◌≡◌, refl, true, false, ◌&&◌, not, none, List, [], ◌∷◌, arith, ltb, if◌then◌else◌, zero,
  suc,
}
use cohere_megakernel.Common.Int.{pos, negsuc}
use cohere_megakernel.Kv.Pool.{BlockHash, KvCacheBlock, hash_eq, update, zero_hash}
use cohere_megakernel.Kv.Pool.FreeList.{IsFreeList-frame}
use cohere_megakernel.Kv.Prefix.{Entry, find, has_any, lists, holds, hash_eq_iff}
use cohere_megakernel.Kv.Global.{Global}
use cohere_megakernel.Kv.Global.Invariant.{IsConsistent, IsCached}
use cohere_megakernel.Kv.Publish.{carry, mark_blocks, published, clear_hashes, prefix_cache_clear}

-- Just the blocks of the entry are changed.
pub mark_blocks-if :
    (h : BlockHash) (e : Entry) (f : ℕ → KvCacheBlock) (j : ℕ)
    → mark_blocks h e f j ≡ (if lists j e then carry h (f j) else f j)
unfolding mark_blocks lists
mark_blocks-if h [] f j = refl
mark_blocks-if h (pos i ∷ ids) f j = ground (arith, mark_blocks-if h ids (update f i (carry h)) j)
mark_blocks-if h (negsuc k ∷ ids) f j = mark_blocks-if h ids f j

-- The entry names blocks of the pool that carry no other hash.
pub record CanPublish (gl : Global) (h : BlockHash) (e : Entry) : Type 0 where
  pub within : (i : ℕ) → lists i e ≡ true → i < gl.pool.size
  pub unhashed :
      (i : ℕ)
      → lists i e ≡ true
      → ((gl.pool.block i).has_hash && not (hash_eq (gl.pool.block i).block_hash h)) ≡ false

module _ (gl : Global) (h : BlockHash) (e : Entry) (new : find h gl.cache ≡ none)
    (can : CanPublish gl h e) (some_block : has_any e ≡ true) where
  published-IsCached : IsCached gl → IsCached (published h e gl)
  unfolding published holds find
  published-IsCached c = record {
    ids = λ i l. ground (arith, mark_blocks-if h e gl.pool.block i, c.ids i);
    cached = λ k j. ground (
      arith,
      hash_eq_iff h k,
      hash_eq_iff (gl.pool.block j).block_hash k,
      hash_eq_iff (gl.pool.block j).block_hash h,
      mark_blocks-if h e gl.pool.block j,
      can.within j,
      can.unhashed j,
      c.cached k j,
      c.cached h j,
    );
    none_empty = λ k ids f. ground (arith, hash_eq_iff h k, c.none_empty k ids);
  }

  -- Publishing an entry under a key that the cache does not have, with some block in it, each of them
  -- in the pool and under no other hash, keeps a consistent pool consistent with the same references
  -- and the same free queue: in particular the cache names a block under a key exactly if the block
  -- carries that hash.
  pub published-IsConsistent :
      (refs : ℕ → ℕ) (q : List ℕ) → IsConsistent refs gl q → IsConsistent refs (published h e gl) q
  published-IsConsistent refs q c = record {
    free =
        unfold published in
        IsFreeList-frame gl.pool (published h e gl).pool q
          (refl, refl, refl, λ j. ground (arith, mark_blocks-if h e gl.pool.block j)) c.free;
    counted =
        unfold published in λ j l. ground (arith, mark_blocks-if h e gl.pool.block j, c.counted j);
    idle = unfold published in c.idle;
    named = published-IsCached c.named;
  }

clear_hashes-if :
    (n : ℕ) (f : ℕ → KvCacheBlock) (j : ℕ)
    → clear_hashes n f j
      ≡ (if ltb j n then record (f j) { has_hash = false; block_hash = zero_hash } else f j)
unfolding clear_hashes
clear_hashes-if zero f j = ground arith
clear_hashes-if (suc n) f j = ground (arith, clear_hashes-if n f j)

-- `prefix_cache_clear` keeps a consistent pool consistent with the same references and the same free
-- queue.
pub prefix_cache_clear-IsConsistent :
    (refs : ℕ → ℕ) (gl : Global) (q : List ℕ)
    → IsConsistent refs gl q
    → IsConsistent refs (prefix_cache_clear gl) q
unfolding prefix_cache_clear holds find
prefix_cache_clear-IsConsistent refs gl q c =
    let after = clear_hashes-if gl.pool.size gl.pool.block in
    record {
      free =
          IsFreeList-frame gl.pool (prefix_cache_clear gl).pool q
            (refl, refl, refl, λ j. ground (arith, after j)) c.free;
      counted = λ j l. ground (arith, after j, c.counted j);
      idle = c.idle;
      named = record {
        ids = λ i l. ground (arith, after i, c.named.ids i);
        cached = λ h i. ground (arith, after i);
        none_empty = λ h ids f. cc;
      };
    }
