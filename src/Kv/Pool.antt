-- ===== src/Kv/Pool.antt =====
-- The block pool of src/kv/cache.cpp: BlockHash, KVCacheBlock and KVBlockPool.
-- The vector `blocks` is a function on its indices with its size, and a pointer to a block is the
-- block's index in it, `none` for a null pointer.
pub mod Segment
pub mod FreeList
pub mod Push
pub mod Remove
pub mod Init
use cohere_megakernel.Common.{
  ℕ, zero, suc, ◌+◌, ◌-◌, max, Bool, true, false, ◌||◌, not, Option, none, some, List, [], ◌∷◌, ltb,
  ◌==◌, if◌then◌else◌, bytes_eq,
}
use cohere_megakernel.Common.Int.{ℤ, pos, minus_one}

-- The 32 bytes of a SHA-256 digest.
pub record BlockHash : Type 0 where
  pub bytes : List ℕ

unfoldable pub replicate_byte : ℕ → ℕ → List ℕ
replicate_byte zero b = []
replicate_byte (suc n) b = b ∷ replicate_byte n b

-- `BlockHash{}`
unfoldable pub zero_hash : BlockHash
unfolding replicate_byte
zero_hash = record { bytes = replicate_byte 32 0 }

unfoldable pub hash_eq : BlockHash → BlockHash → Bool
hash_eq a b = bytes_eq a.bytes b.bytes

abbrev pub Ptr : Type 0
Ptr = Option ℕ

pub record KvCacheBlock : Type 0 where
  pub block_id : ℤ
  pub block_hash : BlockHash
  pub has_hash : Bool
  pub ref_cnt : ℕ
  pub prev_free_block : Ptr
  pub next_free_block : Ptr
  pub in_free_queue : Bool

abbrev pub new_block : KvCacheBlock
new_block = record {
  block_id = minus_one;
  block_hash = zero_hash;
  has_hash = false;
  ref_cnt = 0;
  prev_free_block = none;
  next_free_block = none;
  in_free_queue = false;
}

pub record KvBlockPool : Type 0 where
  pub size : ℕ
  pub block : ℕ → KvCacheBlock
  pub free_head : Ptr
  pub free_tail : Ptr
  pub free_count : ℕ
  pub peak_active : ℕ
  pub evicted_blocks : ℕ

-- `clear()`, which is also the state of a pool that nothing has used yet
unfoldable pub cleared : KvBlockPool
cleared = record {
  size = 0;
  block = λ _. new_block;
  free_head = none;
  free_tail = none;
  free_count = 0;
  peak_active = 0;
  evicted_blocks = 0;
}

-- One block of the vector changes.
abbrev pub update : (ℕ → KvCacheBlock) → ℕ → (KvCacheBlock → KvCacheBlock) → ℕ → KvCacheBlock
update f i g j = if i == j then g (f j) else f j

abbrev pub set_next : Ptr → KvCacheBlock → KvCacheBlock
set_next p b = record b { next_free_block = p }

abbrev pub set_prev : Ptr → KvCacheBlock → KvCacheBlock
set_prev p b = record b { prev_free_block = p }

abbrev pub set_refs : ℕ → KvCacheBlock → KvCacheBlock
set_refs n b = record b { ref_cnt = n }

-- A write through a pointer that is tested for null first.
abbrev pub update_at : (ℕ → KvCacheBlock) → Ptr → (KvCacheBlock → KvCacheBlock) → ℕ → KvCacheBlock
update_at f none g = f
update_at f (some i) g = update f i g

-- `if (p) keep else changed`, for the ends of the queue
abbrev pub end_after : Ptr → Ptr → Ptr → Ptr
end_after none old new = new
end_after (some _) old new = old

unfoldable pub push_free_tail : KvBlockPool → Ptr → KvBlockPool
push_free_tail p none = p
push_free_tail p (some i) =
    let b = p.block i in
    if b.in_free_queue || not (b.ref_cnt == 0) then p else record p {
      block =
          update
            (update_at
              (update p.block i
                λ b. record b { prev_free_block = p.free_tail; next_free_block = none })
              p.free_tail (set_next (some i)))
            i (λ b. record b { in_free_queue = true });
      free_head = end_after p.free_tail p.free_head (some i);
      free_tail = some i;
      free_count = p.free_count + 1;
    }

-- The blocks once block `i` is taken out from between `prev` and `next`.
abbrev pub unlinked : (ℕ → KvCacheBlock) → ℕ → Ptr → Ptr → ℕ → KvCacheBlock
unlinked f i prev next =
    update (update_at (update_at f prev (set_next next)) next (set_prev prev)) i
      (λ b. record b { prev_free_block = none; next_free_block = none; in_free_queue = false })

unfoldable pub remove_from_free_queue : KvBlockPool → Ptr → KvBlockPool
remove_from_free_queue p none = p
remove_from_free_queue p (some i) =
    let b = p.block i in
    if not b.in_free_queue then p else record p {
      block = unlinked p.block i b.prev_free_block b.next_free_block;
      free_head = end_after b.prev_free_block p.free_head b.next_free_block;
      free_tail = end_after b.next_free_block p.free_tail b.prev_free_block;
      free_count = p.free_count - 1;
    }

unfoldable pub pop_free_head : KvBlockPool → KvBlockPool × Ptr
unfolding remove_from_free_queue
pop_free_head p = elim p.free_head [
  | none ↦ (p, none)
  | some i ↦ (remove_from_free_queue p (some i), some i)
]

unfoldable pub active_count : KvBlockPool → ℕ
active_count p = p.size - p.free_count

unfoldable pub update_peak : KvBlockPool → KvBlockPool
unfolding active_count
update_peak p = record p { peak_active = max p.peak_active (active_count p) }

-- `blocks[i].block_id = i`
unfoldable pub numbered : KvBlockPool → ℕ → KvBlockPool
numbered p i = record p { block = update p.block i (λ b. record b { block_id = pos i }) }

-- The loop of `init_once`, from block `i` with `n` blocks to go.
unfoldable pub init_blocks : ℕ → ℕ → KvBlockPool → KvBlockPool
init_blocks zero i p = p
init_blocks (suc n) i p = init_blocks n (suc i) (push_free_tail (numbered p i) (some i))

-- `none` where the pool throws since its size has changed.
unfoldable pub init_once : KvBlockPool → ℕ → Option KvBlockPool
unfolding init_blocks
init_once p num_blocks =
    if not (p.size == 0)
    then (if p.size == num_blocks then some p else none)
    else some (init_blocks num_blocks 0 (record p { size = num_blocks; block = λ _. new_block }))
