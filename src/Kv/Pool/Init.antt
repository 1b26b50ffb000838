-- ===== src/Kv/Pool/Init.antt =====
-- `init_once` of src/kv/cache.cpp: every block of a new pool is free, in the order of the ids.
use cohere_megakernel.Common.{
  ℕ, zero, suc, ◌+◌, ◌<◌, ◌≡◌, refl, sym, subst, ◌∙◌, true, false, none, some, [], ◌∷◌, ◌++◌, arith,
  has, has-append, ltb, ◌&&◌, if◌then◌else◌, List,
}
use mathlib.Core.List.{append_assoc, append-nil}
use cohere_megakernel.Common.Int.{pos}
use cohere_megakernel.Kv.Pool.{KvBlockPool, new_block, numbered, push_free_tail, init_blocks}
use cohere_megakernel.Kv.Pool.FreeList.{IsFreeList}
use cohere_megakernel.Kv.Pool.Push.{push-IsFreeList}
use cohere_megakernel.Kv.Pool.Segment.{Seg-frame}

-- `n` numbers from `i` on
unfoldable pub upto : ℕ → ℕ → List ℕ
upto i zero = []
upto i (suc n) = i ∷ upto (suc i) n

pub has-upto : (i n j : ℕ) → has j (upto i n) ≡ (ltb j (i + n) && (if ltb j i then false else true))
unfolding upto
has-upto i zero j = ground arith
has-upto i (suc n) j = ground (arith, has-upto (suc i) n j)

-- The loop of `init_once` before block `i`: what stands behind is untouched.
pub record Filled (i : ℕ) (p : KvBlockPool) (q : List ℕ) : Type 0 where
  pub free : IsFreeList p q
  pub within : (j : ℕ) → has j q ≡ ltb j i
  pub ids : (j : ℕ) → j < i → (p.block j).block_id ≡ pos j
  pub unused : (j : ℕ) → (p.block j).ref_cnt ≡ 0
  pub unhashed : (j : ℕ) → (p.block j).has_hash ≡ false

numbered-IsFreeList :
    (p : KvBlockPool) (i : ℕ) (q : List ℕ) → IsFreeList p q → IsFreeList (numbered p i) q
unfolding numbered
numbered-IsFreeList p i q w = record {
  chain =
      Seg-frame p.block (numbered p i).block none q p.free_head p.free_tail none
        (λ a h. ground arith) w.chain;
  distinct = w.distinct;
  member = λ j. ground (arith, w.member j);
  count = w.count;
}

Filled-push :
    (p : KvBlockPool) (i : ℕ) (q : List ℕ)
    → Filled i p q
    → Filled (suc i) (push_free_tail (numbered p i) (some i)) (q ++ i ∷ [])
Filled-push p i q f = record {
  free =
      push-IsFreeList (numbered p i) i (unfold numbered in ground (arith, f.unused i))
        (unfold numbered in ground (arith, f.free.member i, f.within i)) q
        (numbered-IsFreeList p i q f.free);
  within = λ j. ground (arith, f.within j, has-append j q (i ∷ []));
  ids = λ j h. unfold push_free_tail numbered in ground (arith, f.ids j);
  unused = λ j. unfold push_free_tail numbered in ground (arith, f.unused j);
  unhashed = λ j. unfold push_free_tail numbered in ground (arith, f.unhashed j);
}

init_blocks-Filled :
    (n i : ℕ) (p : KvBlockPool) (q : List ℕ)
    → Filled i p q
    → Filled (i + n) (init_blocks n i p) (q ++ upto i n)
unfolding init_blocks upto
init_blocks-Filled zero i p q f =
    subst (λ k. Filled k p (q ++ [])) (omega arith) (subst (Filled i p) (sym (append-nil q)) f)
init_blocks-Filled (suc n) i p q f =
    let p' = push_free_tail (numbered p i) (some i) in
    let rest = init_blocks-Filled n (suc i) p' (q ++ i ∷ []) (Filled-push p i q f) in
    let more = init_blocks n (suc i) p' in
    subst (λ k. Filled k more (q ++ i ∷ upto (suc i) n)) (omega arith)
      (subst (Filled (suc i + n) more) (append_assoc q (i ∷ []) (upto (suc i) n)) rest)

-- The loop leaves the number of blocks as it was.
pub init_blocks-size : (n i : ℕ) (p : KvBlockPool) → (init_blocks n i p).size ≡ p.size
unfolding init_blocks
init_blocks-size zero i p = refl
init_blocks-size (suc n) i p =
    init_blocks-size n (suc i) (push_free_tail (numbered p i) (some i))
    ∙ (unfold push_free_tail numbered in ground arith)

-- A new pool of `n` blocks has them all in its queue.
pub init-Filled :
    (n : ℕ) (p : KvBlockPool)
    → IsFreeList p []
    → let p' = init_blocks n 0 (record p { size = n; block = λ _. new_block }) in
      Filled n p' (upto 0 n) × (p'.size ≡ n)
init-Filled n p w =
    let fresh = record p { size = n; block = λ _. new_block } in
    (
      subst (λ k. Filled k (init_blocks n 0 fresh) (upto 0 n)) (omega arith)
          (init_blocks-Filled n 0 fresh [] (record {
            free = record { chain = w.chain; distinct = tt; member = λ i. refl; count = w.count };
            within = λ j. ground arith;
            ids = λ j h. absurd (omega arith);
            unused = λ j. refl;
            unhashed = λ j. refl;
          })),
      init_blocks-size n 0 fresh,
    )
