-- ===== src/Kv/Global/Counts.antt =====
-- `kv_retain_block_nolock` and `kv_release_block_nolock` of src/kv/cache.cpp on a consistent pool.
use cohere_megakernel.Common.{
  ℕ, ◌+◌, ◌-◌, ◌<◌, ◌≡◌, refl, true, false, some, List, [], ◌∷◌, ◌++◌, arith, ◌==◌, has-append,
  Bool-cases, inl, inr, subst, sym, if◌then◌else◌, ◌∙◌,
}
use cohere_megakernel.Common.Int.{pos}
use cohere_megakernel.Kv.Pool.{
  KvBlockPool, update, set_refs, push_free_tail, remove_from_free_queue,
}
use cohere_megakernel.Kv.Pool.FreeList.{
  IsFreeList, IsFreeList-frame, remove-SamePayload, remove-size, push-SamePayload, push-size,
}
use cohere_megakernel.Kv.Pool.Remove.{erase, has-erase, remove-IsFreeList}
use cohere_megakernel.Kv.Pool.Push.{push-IsFreeList}
use cohere_megakernel.Kv.Global.{
  Global, done, retain_at, retain, release_at, release, count_refs_at, block_at,
}
use cohere_megakernel.Kv.Global.Invariant.{
  IsConsistent, IsCached, bump, drop, IsCached-frame, count_refs_at-ref_cnt, count_refs_at-size,
  count_refs_at-IsFreeList, count_refs_at-IsCached,
}

-- The queue behind a `retain`: a block with no reference leaves it.
abbrev pub queue_after_retain : (ℕ → ℕ) → ℕ → List ℕ → List ℕ
queue_after_retain refs i q = if refs i == 0 then erase i q else q

-- The queue behind a `release`: a block that loses its last reference goes to the end of it.
abbrev pub queue_after_release : (ℕ → ℕ) → ℕ → List ℕ → List ℕ
queue_after_release refs i q = if refs i == 1 then q ++ i ∷ [] else q

module _ (refs : ℕ → ℕ) (g : Global) (q : List ℕ) (i : ℕ) (c : IsConsistent refs g q)
    (within : i < g.pool.size) where
  pub retain-done : retain g (pos i) ≡ done (retain_at g i)
  unfolding retain block_at
  retain-done = ground arith

  dequeued : KvBlockPool
  dequeued = if refs i == 0 then remove_from_free_queue g.pool (some i) else g.pool

  dequeued-IsFreeList : IsFreeList dequeued (queue_after_retain refs i q)
  unfolding dequeued
  dequeued-IsFreeList = elim (Bool-cases (refs i == 0)) [
    | inl z ↦ rw z (remove-IsFreeList g.pool i q c.free (ground (arith, c.idle i)))
    | inr n ↦ rw n c.free
  ]

  retain_at-dequeued : retain_at g i ≡ record g { pool = count_refs_at i (refs i + 1) dequeued }
  unfolding retain_at dequeued
  retain_at-dequeued = rw (c.counted i within)

  dequeued-size : dequeued.size ≡ g.pool.size
  unfolding dequeued
  dequeued-size = ground (arith, remove-size g.pool (some i))

  dequeued-ref_cnt : (j : ℕ) → (dequeued.block j).ref_cnt ≡ (g.pool.block j).ref_cnt
  unfolding dequeued
  dequeued-ref_cnt j = ground (arith, remove-SamePayload g.pool (some i) j)

  dequeued-IsCached : IsCached (record g { pool = dequeued })
  unfolding dequeued
  dequeued-IsCached =
      IsCached-frame g (record g { pool = dequeued }) (ground (arith, remove-size g.pool (some i)))
        refl (λ j. ground (arith, remove-SamePayload g.pool (some i) j)) c.named

  pub retain-IsConsistent : IsConsistent (bump i refs) (retain_at g i) (queue_after_retain refs i q)
  retain-IsConsistent =
      let n = refs i + 1 in
      let size = count_refs_at-size i n dequeued ∙ dequeued-size in
      subst (λ h. IsConsistent (bump i refs) h (queue_after_retain refs i q))
        (sym retain_at-dequeued)
        (record {
          free =
              count_refs_at-IsFreeList i n dequeued (queue_after_retain refs i q)
                dequeued-IsFreeList;
          counted = λ j l.
              ground (
                arith,
                size,
                count_refs_at-ref_cnt i n dequeued j,
                dequeued-ref_cnt j,
                c.counted j,
              );
          idle = λ j. ground (arith, size, c.idle j, has-erase i j q c.free.distinct);
          named = count_refs_at-IsCached i n (record g { pool = dequeued }) dequeued-IsCached;
        })

  -- On a consistent pool `retain` of a block in range succeeds; behind it the pool is consistent with
  -- one reference more to the block, which has left the free queue if it had none.
  pub retain_lem :
      (retain g (pos i) ≡ done (retain_at g i))
      × IsConsistent (bump i refs) (retain_at g i) (queue_after_retain refs i q)
  retain_lem = (retain-done, retain-IsConsistent)

  pub retain_at-size : (retain_at g i).pool.size ≡ g.pool.size
  retain_at-size =
      rw retain_at-dequeued (count_refs_at-size i (refs i + 1) dequeued ∙ dequeued-size)

module _ (refs : ℕ → ℕ) (g : Global) (q : List ℕ) (i : ℕ) (c : IsConsistent refs g q)
    (within : i < g.pool.size) (held : 0 < refs i) where
  pub release-done : release g (pos i) ≡ done (release_at g i)
  unfolding release block_at
  release-done = ground (arith, c.counted i within)

  lowered : KvBlockPool
  lowered = record g.pool { block = update g.pool.block i (set_refs (refs i - 1)) }

  release_at-lowered :
      release_at g i
      ≡ record g { pool = if refs i - 1 == 0 then push_free_tail lowered (some i) else lowered }
  unfolding release_at lowered
  release_at-lowered = rw (c.counted i within)

  lowered-IsFreeList : IsFreeList lowered q
  unfolding lowered
  lowered-IsFreeList = IsFreeList-frame g.pool lowered q (ground arith) c.free

  released : KvBlockPool
  released = if refs i - 1 == 0 then push_free_tail lowered (some i) else lowered

  released-IsFreeList : IsFreeList released (queue_after_release refs i q)
  unfolding released
  released-IsFreeList = elim (Bool-cases (refs i - 1 == 0)) [
    | inl z ↦
        let last : (refs i == 1) ≡ true = ground arith in
        rw (z, last)
          (push-IsFreeList lowered i (unfold lowered in ground arith)
            (unfold lowered in ground (arith, c.free.member i, c.idle i)) q lowered-IsFreeList)
    | inr n ↦ let more : (refs i == 1) ≡ false = ground arith in rw (n, more) lowered-IsFreeList
  ]

  released-size : released.size ≡ g.pool.size
  unfolding released lowered
  released-size = ground (arith, push-size lowered (some i))

  released-ref_cnt :
      (j : ℕ)
      → (released.block j).ref_cnt ≡ (if i == j then refs i - 1 else (g.pool.block j).ref_cnt)
  unfolding released lowered
  released-ref_cnt j = ground (arith, push-SamePayload lowered (some i) j)

  released-IsCached : IsCached (record g { pool = released })
  unfolding released lowered
  released-IsCached =
      IsCached-frame g (record g { pool = released }) (ground (arith, push-size lowered (some i)))
        refl (λ j. ground (arith, push-SamePayload lowered (some i) j)) c.named

  pub release-IsConsistent :
      IsConsistent (drop i refs) (release_at g i) (queue_after_release refs i q)
  release-IsConsistent =
      subst (λ h. IsConsistent (drop i refs) h (queue_after_release refs i q))
        (sym release_at-lowered)
        (record {
          free = unfold released in released-IsFreeList;
          counted = λ j l.
              unfold released in ground (arith, released-size, released-ref_cnt j, c.counted j);
          idle = λ j.
              unfold released in ground (arith, released-size, c.idle j, has-append j q (i ∷ []));
          named = unfold released in released-IsCached;
        })

  -- On a consistent pool `release` of a referenced block in range succeeds; behind it the pool is
  -- consistent with one reference less to the block, which stands at the end of the free queue if
  -- that was the last one.
  pub release_lem :
      (release g (pos i) ≡ done (release_at g i))
      × IsConsistent (drop i refs) (release_at g i) (queue_after_release refs i q)
  release_lem = (release-done, release-IsConsistent)

  pub release_at-size : (release_at g i).pool.size ≡ g.pool.size
  release_at-size = rw release_at-lowered (unfold released in released-size)
