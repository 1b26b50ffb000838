-- ===== src/Kv/Global/Acquire.antt =====
-- `kv_acquire_block_nolock` of src/kv/cache.cpp on a consistent pool.
use cohere_megakernel.Common.{ℕ, ◌<◌, ◌≡◌, refl, false, some, List, [], ◌∷◌, arith, ◌∙◌}
use cohere_megakernel.Kv.Pool.{BlockHash, KvBlockPool, pop_free_head, remove_from_free_queue}
use cohere_megakernel.Kv.Pool.FreeList.{IsFreeList-frame, remove-SamePayload, remove-size}
use cohere_megakernel.Kv.Pool.Remove.{pop-nil, pop-cons}
use cohere_megakernel.Kv.Prefix.{holds}
use cohere_megakernel.Kv.Global.{
  Global, done, fails, out_of_blocks, acquire, remove_cached, count_refs_at,
}
use cohere_megakernel.Kv.Global.Invariant.{
  IsConsistent, IsCached, bump, IsCached-frame, remove_cached-IsCached, remove_cached-has_hash,
  remove_cached-SameQueue, remove_cached-counts, remove_cached_none, count_refs_at-ref_cnt,
  count_refs_at-size, count_refs_at-has_hash, count_refs_at-IsFreeList, count_refs_at-IsCached,
}

-- On a consistent pool whose free queue is empty `acquire` throws that the blocks are exhausted.
pub acquire-nil :
    (refs : ℕ → ℕ) (g : Global) → IsConsistent refs g [] → acquire g ≡ fails out_of_blocks
unfolding acquire
acquire-nil refs g c = rw (pop-nil g.pool c.free, acquire)

-- The state behind a successful `acquire`.
taken : Global → ℕ → Global
taken g i = record g { pool = remove_from_free_queue g.pool (some i) }

acquire-done :
    (g : Global) (i : ℕ) (p : KvBlockPool)
    → pop_free_head g.pool ≡ (p, some i)
    → let g₂ = remove_cached (record g { pool = p }) i in
      acquire g ≡ done (i, record g₂ { pool = count_refs_at i 1 g₂.pool })
unfolding acquire
acquire-done g i p e = ground (arith, remove_cached_none (record g { pool = p }) i)

-- What a successful `acquire` of block `i` has done.
pub record Acquired (refs : ℕ → ℕ) (g : Global) (i : ℕ) (q : List ℕ) (g' : Global) : Type 0 where
  pub succeeds : acquire g ≡ done (i, g')
  pub consistent : IsConsistent (bump i refs) g' q
  pub size : g'.pool.size ≡ g.pool.size
  pub within : i < g.pool.size
  pub unused : refs i ≡ 0
  pub forgotten : (h : BlockHash) → holds g'.cache h i ≡ false

-- On a consistent pool whose free queue is not empty `acquire` succeeds with the block at the head
-- of the queue, which nothing referenced; behind it the pool is consistent with one reference to
-- that block and the queue without it, and the cache names the block under no key any more.
pub acquire-cons :
    (refs : ℕ → ℕ) (g : Global) (i : ℕ) (q : List ℕ)
    → IsConsistent refs g (i ∷ q)
    → (g' : Global) × Acquired refs g i q g'
unfolding taken
acquire-cons refs g i q c =
    let g₁ = taken g i in
    let g₂ = remove_cached g₁ i in
    let g' : Global = record g₂ { pool = count_refs_at i 1 g₂.pool } in
    let (popped, free) = pop-cons g.pool i q c.free in
    let named : IsCached g₁ =
      IsCached-frame g g₁ (remove-size g.pool (some i)) refl
        (λ j. ground (arith, remove-SamePayload g.pool (some i) j)) c.named in
    let within : i < g.pool.size = ground (arith, c.idle i) in
    let named' : IsCached g' =
      count_refs_at-IsCached i 1 g₂
        (remove_cached-IsCached g₁ i (ground (arith, remove-size g.pool (some i))) named) in
    let size : g'.pool.size ≡ g.pool.size =
      count_refs_at-size i 1 g₂.pool
      ∙ (remove_cached-counts g₁ i).0
      ∙ remove-size g.pool (some i) in
    (
      g',
      record {
        succeeds = acquire-done g i (remove_from_free_queue g.pool (some i)) popped;
        consistent = record {
          free =
              count_refs_at-IsFreeList i 1 g₂.pool q
                (IsFreeList-frame g₁.pool g₂.pool q (remove_cached-SameQueue g₁ i) free);
          counted = λ j l. ground (
            arith,
            count_refs_at-ref_cnt i 1 g₂.pool j,
            count_refs_at-size i 1 g₂.pool,
            (remove_cached-counts g₁ i).0,
            (remove_cached-counts g₁ i).1 j,
            remove-SamePayload g.pool (some i) j,
            remove-size g.pool (some i),
            c.counted j,
            c.idle i,
          );
          idle = λ j. ground (arith, size, c.idle i, c.idle j, c.free.distinct);
          named = named';
        };
        size = size;
        within = within;
        unused = ground (arith, c.idle i);
        forgotten = λ h. ground (
          arith,
          named'.cached h i,
          remove_cached-has_hash g₁ i,
          count_refs_at-has_hash i 1 g₂.pool i,
        );
      },
    )
