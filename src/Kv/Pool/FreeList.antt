-- ===== src/Kv/Pool/FreeList.antt =====
-- The free queue as a list of block indices.
use cohere_megakernel.Common.{ℕ, ◌≡◌, none, List, length, has, Distinct, arith}
use cohere_megakernel.Kv.Pool.{
  KvBlockPool, KvCacheBlock, Ptr, push_free_tail, remove_from_free_queue,
}
use cohere_megakernel.Kv.Pool.Segment.{Seg, SameLinks, Seg-frame}

-- `q` lists the free queue from its head to its tail.
pub record IsFreeList (p : KvBlockPool) (q : List ℕ) : Type 0 where
  pub chain : Seg p.block none q p.free_head p.free_tail none
  pub distinct : Distinct q
  pub member : (i : ℕ) → (p.block i).in_free_queue ≡ has i q
  pub count : p.free_count ≡ length q

-- Two pools have the same queue fields.
abbrev pub SameQueue : KvBlockPool → KvBlockPool → Type 0
SameQueue p r =
    (r.free_head ≡ p.free_head)
    × (r.free_tail ≡ p.free_tail)
    × (r.free_count ≡ p.free_count)
    × ((i : ℕ)
        → SameLinks (r.block i) (p.block i)
          × ((r.block i).in_free_queue ≡ (p.block i).in_free_queue))

pub IsFreeList-frame :
    (p r : KvBlockPool) (q : List ℕ) → SameQueue p r → IsFreeList p q → IsFreeList r q
IsFreeList-frame p r q same w = record {
  chain =
      rw (same.0, same.1)
        (Seg-frame p.block r.block none q p.free_head p.free_tail none (λ a h. (same.3 a).0)
          w.chain);
  distinct = w.distinct;
  member = λ i. ground (arith, same.3 i, w.member i);
  count = ground (arith, same.2, w.count);
}

-- The queue operations leave all of a block but its links and its flag.
abbrev pub SamePayload : KvCacheBlock → KvCacheBlock → Type 0
SamePayload a b =
    (a.block_id ≡ b.block_id)
    × (a.block_hash ≡ b.block_hash)
    × (a.has_hash ≡ b.has_hash)
    × (a.ref_cnt ≡ b.ref_cnt)

pub push-SamePayload :
    (p : KvBlockPool) (b : Ptr) (j : ℕ) → SamePayload ((push_free_tail p b).block j) (p.block j)
unfolding push_free_tail
push-SamePayload p b j = ground arith

pub remove-SamePayload :
    (p : KvBlockPool) (b : Ptr) (j : ℕ)
    → SamePayload ((remove_from_free_queue p b).block j) (p.block j)
unfolding remove_from_free_queue
remove-SamePayload p b j = ground arith

pub push-size : (p : KvBlockPool) (b : Ptr) → (push_free_tail p b).size ≡ p.size
unfolding push_free_tail
push-size p b = ground arith

pub remove-size : (p : KvBlockPool) (b : Ptr) → (remove_from_free_queue p b).size ≡ p.size
unfolding remove_from_free_queue
remove-size p b = ground arith
