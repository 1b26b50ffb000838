-- ===== src/Kv/Global/Invariant.antt =====
-- What holds of the block pool and the prefix cache of src/kv/cache.cpp between two calls.
use cohere_megakernel.Common.{
  ℕ, ◌+◌, ◌-◌, ◌<◌, ◌≡◌, refl, Bool, List, arith, ◌&&◌, ltb, ◌==◌, if◌then◌else◌, has, false,
  Bool-cases, inl, inr,
}
use cohere_megakernel.Common.Int.{pos}
use cohere_megakernel.Kv.Pool.{KvBlockPool, update_peak, BlockHash, KvCacheBlock, hash_eq}
use cohere_megakernel.Kv.Pool.FreeList.{IsFreeList, SameQueue, IsFreeList-frame}
use cohere_megakernel.Kv.Prefix.{
  holds, NoneEmpty, hash_eq_iff, holds-remove_block, remove_block-NoneEmpty,
}
use cohere_megakernel.Kv.Global.{Global, remove_cached, count_refs_at}

-- Block `i` carries the hash `h`.
abbrev pub carries : Global → BlockHash → ℕ → Bool
carries g h i =
    ltb i g.pool.size && ((g.pool.block i).has_hash && hash_eq (g.pool.block i).block_hash h)

-- The ids are the indices, and the cache names a block under a key exactly if the block carries it.
pub record IsCached (g : Global) : Type 0 where
  pub ids : (i : ℕ) → i < g.pool.size → (g.pool.block i).block_id ≡ pos i
  pub cached : (h : BlockHash) (i : ℕ) → holds g.cache h i ≡ carries g h i
  pub none_empty : NoneEmpty g.cache

-- `refs` says how often each block is referenced, and `q` lists the free blocks in the order in which
-- they will be taken.
pub record IsConsistent (refs : ℕ → ℕ) (g : Global) (q : List ℕ) : Type 0 where
  pub free : IsFreeList g.pool q
  pub counted : (i : ℕ) → i < g.pool.size → (g.pool.block i).ref_cnt ≡ refs i
  pub idle : (i : ℕ) → has i q ≡ (ltb i g.pool.size && (refs i == 0))
  pub named : IsCached g

-- One more reference to block `i`, and one less.
abbrev pub bump : ℕ → (ℕ → ℕ) → ℕ → ℕ
bump i refs j = if i == j then refs j + 1 else refs j

abbrev pub drop : ℕ → (ℕ → ℕ) → ℕ → ℕ
drop i refs j = if i == j then refs j - 1 else refs j

abbrev pub SameName : KvCacheBlock → KvCacheBlock → Type 0
SameName a b = (a.block_id ≡ b.block_id) × (a.block_hash ≡ b.block_hash) × (a.has_hash ≡ b.has_hash)

pub IsCached-frame :
    (g g' : Global)
    → g'.pool.size ≡ g.pool.size
    → g'.cache ≡ g.cache
    → ((i : ℕ) → SameName (g'.pool.block i) (g.pool.block i))
    → IsCached g
    → IsCached g'
IsCached-frame g g' size cache same c = record {
  ids = λ i h. ground (arith, same i, c.ids i);
  cached = λ h i. ground (arith, same i, c.cached h i);
  none_empty = rw cache c.none_empty;
}

-- A block taken out of the cache carries no hash, and all else stays.
pub remove_cached-IsCached :
    (g : Global) (i : ℕ) → i < g.pool.size → IsCached g → IsCached (remove_cached g i)
unfolding remove_cached
remove_cached-IsCached g i h c = elim (Bool-cases (g.pool.block i).has_hash) [
  | inr plain ↦ rw (plain, remove_cached) c
  | inl hashed ↦
      let b = g.pool.block i in
      record {
        ids = λ j l. ground (arith, c.ids j);
        cached = λ k j. rw hashed (
            ground (
              arith,
              c.ids i h,
              c.cached k j,
              hash_eq_iff b.block_hash k,
              holds-remove_block b.block_hash k i j g.cache,
            ));
        none_empty =
            rw hashed (remove_block-NoneEmpty b.block_hash b.block_id g.cache c.none_empty);
      }
]

pub remove_cached-has_hash :
    (g : Global) (i : ℕ) → ((remove_cached g i).pool.block i).has_hash ≡ false
unfolding remove_cached
remove_cached-has_hash g i = ground arith

pub remove_cached-SameQueue : (g : Global) (i : ℕ) → SameQueue g.pool (remove_cached g i).pool
unfolding remove_cached
remove_cached-SameQueue g i = ground arith

pub remove_cached-counts :
    (g : Global) (i : ℕ)
    → ((remove_cached g i).pool.size ≡ g.pool.size)
      × ((j : ℕ) → ((remove_cached g i).pool.block j).ref_cnt ≡ (g.pool.block j).ref_cnt)
unfolding remove_cached
remove_cached-counts g i = (ground arith, λ j. ground arith)

pub remove_cached_none :
    (g : Global) (i : ℕ) → (g.pool.block i).has_hash ≡ false → remove_cached g i ≡ g
unfolding remove_cached
remove_cached_none g i e = rw e

pub count_refs_at-ref_cnt :
    (i n : ℕ) (p : KvBlockPool) (j : ℕ)
    → ((count_refs_at i n p).block j).ref_cnt ≡ (if i == j then n else (p.block j).ref_cnt)
unfolding count_refs_at update_peak
count_refs_at-ref_cnt i n p j = ground arith

pub count_refs_at-has_hash :
    (i n : ℕ) (p : KvBlockPool) (j : ℕ)
    → ((count_refs_at i n p).block j).has_hash ≡ (p.block j).has_hash
unfolding count_refs_at update_peak
count_refs_at-has_hash i n p j = ground arith

pub count_refs_at-size : (i n : ℕ) (p : KvBlockPool) → (count_refs_at i n p).size ≡ p.size
unfolding count_refs_at update_peak
count_refs_at-size i n p = refl

-- Setting a count leaves the queue and the names.
pub count_refs_at-IsFreeList :
    (i n : ℕ) (p : KvBlockPool) (q : List ℕ) → IsFreeList p q → IsFreeList (count_refs_at i n p) q
unfolding count_refs_at update_peak
count_refs_at-IsFreeList i n p q w = IsFreeList-frame p (count_refs_at i n p) q (ground arith) w

pub count_refs_at-IsCached :
    (i n : ℕ) (g : Global) → IsCached g → IsCached (record g { pool = count_refs_at i n g.pool })
unfolding count_refs_at update_peak
count_refs_at-IsCached i n g c =
    IsCached-frame g (record g { pool = count_refs_at i n g.pool }) refl refl (ground arith) c
