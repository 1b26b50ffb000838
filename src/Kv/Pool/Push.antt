-- ===== src/Kv/Pool/Push.antt =====
-- `push_free_tail` of src/kv/cache.cpp on a well-formed free queue.
use cohere_megakernel.Common.{
  ℕ, ◌≡◌, refl, false, none, some, List, [], ◌∷◌, ◌++◌, arith, length-append, has, Distinct,
  has-append, subst, sym, ◌∙◌,
}
use cohere_megakernel.Kv.Pool.{KvBlockPool, push_free_tail}
use cohere_megakernel.Kv.Pool.Segment.{Seg, Seg-append, Seg-last, Seg-relink_last}
use cohere_megakernel.Kv.Pool.FreeList.{IsFreeList}

Distinct-snoc : (q : List ℕ) (i : ℕ) → Distinct q → has i q ≡ false → Distinct (q ++ i ∷ [])
Distinct-snoc [] i d h = (refl, tt)
Distinct-snoc (x ∷ xs) i d h =
    (ground (arith, has-append x xs (i ∷ [])), Distinct-snoc xs i d.1 (ground arith))

module _ (p : KvBlockPool) (i : ℕ) (unused : (p.block i).ref_cnt ≡ 0)
    (outside : (p.block i).in_free_queue ≡ false) where
  push-chain :
      (q : List ℕ)
      → has i q ≡ false
      → Distinct q
      → Seg p.block none q p.free_head p.free_tail none
      → let p' = push_free_tail p (some i) in
        Seg p'.block none (q ++ i ∷ []) p'.free_head p'.free_tail none
  unfolding push_free_tail
  push-chain [] out d s = ground arith
  push-chain (x ∷ xs) out d s =
      let p' = push_free_tail p (some i) in
      let (t, e, h) = Seg-last p.block none x xs p.free_head p.free_tail none s in
      let s' = subst (λ c. Seg p.block none (x ∷ xs) p.free_head c none) e s in
      let head : p'.free_head ≡ p.free_head = ground arith in
      let front =
        Seg-relink_last p.block p'.block none x xs p.free_head t none (some i) d
          (λ a m n. ground arith) (ground arith) (ground arith) s' in
      subst (λ c. Seg p'.block none (x ∷ xs ++ i ∷ []) c p'.free_tail none) (sym head)
        (Seg-append p'.block none (x ∷ xs) (i ∷ []) p.free_head (some t) p'.free_tail (some i) none
          front (ground arith))

  push-member :
      (q : List ℕ)
      → ((j : ℕ) → (p.block j).in_free_queue ≡ has j q)
      → (j : ℕ) → ((push_free_tail p (some i)).block j).in_free_queue ≡ has j (q ++ i ∷ [])
  unfolding push_free_tail
  push-member q m j = ground (arith, m j, has-append j q (i ∷ []))

  -- `push_free_tail` puts a block that is neither referenced nor queued at the end of a well-formed
  -- queue, which stays well-formed.
  pub push-IsFreeList :
      (q : List ℕ) → IsFreeList p q → IsFreeList (push_free_tail p (some i)) (q ++ i ∷ [])
  push-IsFreeList q w = record {
    chain = push-chain q (sym (w.member i) ∙ outside) w.distinct w.chain;
    distinct = Distinct-snoc q i w.distinct (sym (w.member i) ∙ outside);
    member = push-member q w.member;
    count = unfold push_free_tail in ground (arith, w.count, length-append q (i ∷ []));
  }
