-- ===== src/Kv/Tests/PoolTests.antt =====
-- The theorems about the pool and the prefix cache of src/kv/cache.cpp at concrete states.
use cohere_megakernel.Common.{◌&&◌, not, ◌==◌, ◌<◌, ◌≡◌, refl, some, [], ◌∷◌, arith}
use cohere_megakernel.Common.Int.{pos}
use cohere_megakernel.Kv.Pool.{
  BlockHash, KvBlockPool, numbered, cleared, init_blocks, push_free_tail, remove_from_free_queue,
  pop_free_head, hash_eq,
}
use cohere_megakernel.Kv.Pool.FreeList.{IsFreeList}
use cohere_megakernel.Kv.Pool.Push.{push-IsFreeList}
use cohere_megakernel.Kv.Pool.Remove.{erase, remove-IsFreeList, pop-cons}
use cohere_megakernel.Kv.Pool.Init.{upto, init-Filled}
use cohere_megakernel.Kv.Prefix.{
  PrefixCache, find, remove_block, holds, holds-remove_block, lists, has_any,
}
use cohere_megakernel.Kv.Global.{Global, done, retain, retain_at, release, release_at}
use cohere_megakernel.Kv.Global.Invariant.{IsConsistent, bump, drop}
use cohere_megakernel.Kv.Global.Acquire.{Acquired, acquire-cons}
use cohere_megakernel.Kv.Global.Counts.{
  retain_lem, retain_at-size, release_lem, queue_after_retain, queue_after_release,
}
use cohere_megakernel.Kv.Publish.{published, prefix_cache_clear}
use cohere_megakernel.Kv.Publish.Mark.{
  CanPublish, published-IsConsistent, prefix_cache_clear-IsConsistent,
}
use cohere_megakernel.Kv.Tests.{
  no_others, blank-IsShared, two_blocks, two_blocks-IsConsistent, two_blocks-size,
}

free_pair : IsFreeList two_blocks.pool (0 ∷ 1 ∷ [])
unfolding upto
free_pair = two_blocks-IsConsistent.free

-- The pool without its first block.
abbrev popped : KvBlockPool
popped = remove_from_free_queue two_blocks.pool (some 0)

pop-cons_example : (pop_free_head two_blocks.pool ≡ (popped, some 0)) × IsFreeList popped (1 ∷ [])
pop-cons_example = pop-cons two_blocks.pool 0 (1 ∷ []) free_pair

remove-IsFreeList_example :
    IsFreeList (remove_from_free_queue two_blocks.pool (some 1)) (erase 1 (0 ∷ 1 ∷ []))
remove-IsFreeList_example = remove-IsFreeList two_blocks.pool 1 (0 ∷ 1 ∷ []) free_pair refl

push-IsFreeList_example : IsFreeList (push_free_tail popped (some 0)) (1 ∷ 0 ∷ [])
unfolding push_free_tail remove_from_free_queue numbered cleared init_blocks
push-IsFreeList_example =
    push-IsFreeList popped 0 refl refl (1 ∷ []) (pop-cons two_blocks.pool 0 (1 ∷ []) free_pair).1

acquire-cons_example : (g' : Global) × Acquired no_others two_blocks 0 (1 ∷ []) g'
unfolding upto
acquire-cons_example = acquire-cons no_others two_blocks 0 (1 ∷ []) two_blocks-IsConsistent

first_within : 0 < two_blocks.pool.size
first_within = omega (arith, two_blocks-size)

retain_lem_example :
    (retain two_blocks (pos 0) ≡ done (retain_at two_blocks 0))
    × IsConsistent
        (bump 0 no_others)
        (retain_at two_blocks 0)
        (queue_after_retain no_others 0 (upto 0 2))
retain_lem_example =
    retain_lem no_others two_blocks (upto 0 2) 0 two_blocks-IsConsistent first_within

abbrev once : Global
once = retain_at two_blocks 0

within_once : 0 < once.pool.size
within_once = omega (
  arith,
  two_blocks-size,
  retain_at-size no_others two_blocks (upto 0 2) 0 two_blocks-IsConsistent first_within,
)

release_lem_example :
    (release once (pos 0) ≡ done (release_at once 0))
    × IsConsistent
        (drop 0 (bump 0 no_others))
        (release_at once 0)
        (queue_after_release (bump 0 no_others) 0 (queue_after_retain no_others 0 (upto 0 2)))
release_lem_example =
    release_lem (bump 0 no_others) once _ 0 retain_lem_example.1 within_once (omega arith)

digest : BlockHash
digest = record { bytes = 7 ∷ [] }

can : CanPublish two_blocks digest (pos 1 ∷ [])
unfolding lists blank-IsShared
can = record {
  within = λ i m. ground (arith, two_blocks-size);
  unhashed =
      λ i m. ground (arith, (init-Filled 2 cleared blank-IsShared.consistent.free).0.unhashed i);
}

published-IsConsistent_example :
    IsConsistent no_others (published digest (pos 1 ∷ []) two_blocks) (upto 0 2)
unfolding find has_any
published-IsConsistent_example =
    published-IsConsistent two_blocks digest (pos 1 ∷ []) refl can refl no_others (upto 0 2)
      two_blocks-IsConsistent

prefix_cache_clear-IsConsistent_example :
    IsConsistent no_others (prefix_cache_clear two_blocks) (upto 0 2)
prefix_cache_clear-IsConsistent_example =
    prefix_cache_clear-IsConsistent no_others two_blocks (upto 0 2) two_blocks-IsConsistent

-- One entry, of two layers.
abbrev one_entry : PrefixCache
one_entry = (digest, pos 1 ∷ pos 0 ∷ []) ∷ []

holds-remove_block_example :
    holds (remove_block digest (pos 1) one_entry) digest 1
    ≡ (holds one_entry digest 1 && not (hash_eq digest digest && (1 == 1)))
holds-remove_block_example = holds-remove_block digest digest 1 1 one_entry
