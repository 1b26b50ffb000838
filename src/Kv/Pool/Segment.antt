-- ===== src/Kv/Pool/Segment.antt =====
-- Segments of the doubly linked free queue of src/kv/cache.cpp (KVBlockPool).
use cohere_megakernel.Common.{
  ℕ, ◌≡◌, sym, subst, true, false, some, List, [], ◌∷◌, ◌++◌, arith, ◌==◌, has, Distinct,
}
use cohere_megakernel.Kv.Pool.{KvCacheBlock, Ptr}

-- From `cur`, with `before` in front of it, the `next` pointers lead through the blocks of the list
-- to `stop`, the `prev` pointers lead back, and the last block is `tail`.
abbrev pub Seg : (ℕ → KvCacheBlock) → Ptr → List ℕ → Ptr → Ptr → Ptr → Type 0
Seg f before [] cur tail stop = (cur ≡ stop) × (tail ≡ before)
Seg f before (x ∷ xs) cur tail stop =
    (cur ≡ some x)
    × ((f x).prev_free_block ≡ before)
    × Seg f (some x) xs (f x).next_free_block tail stop

-- A block counts as unchanged if its pointers are.
abbrev pub SameLinks : KvCacheBlock → KvCacheBlock → Type 0
SameLinks a b = (a.prev_free_block ≡ b.prev_free_block) × (a.next_free_block ≡ b.next_free_block)

pub Seg-frame :
    (f g : ℕ → KvCacheBlock) (before : Ptr) (xs : List ℕ) (cur tail stop : Ptr)
    → ((a : ℕ) → has a xs ≡ true → SameLinks (g a) (f a))
    → Seg f before xs cur tail stop
    → Seg g before xs cur tail stop
Seg-frame f g before [] cur tail stop same s = s
Seg-frame f g before (x ∷ xs) cur tail stop same s =
    let here = same x (ground arith) in
    let rest =
      Seg-frame f g (some x) xs (f x).next_free_block tail stop (λ a h. same a (ground arith))
        s.2 in
    (s.0, ground arith, subst (λ c. Seg g (some x) xs c tail stop) (sym here.1) rest)

pub Seg-append :
    (f : ℕ → KvCacheBlock) (before : Ptr) (xs ys : List ℕ) (cur mid_tail tail mid stop : Ptr)
    → Seg f before xs cur mid_tail mid
    → Seg f mid_tail ys mid tail stop
    → Seg f before (xs ++ ys) cur tail stop
Seg-append f before [] ys cur mid_tail tail mid stop s t =
    subst (λ c. Seg f before ys c tail stop) (sym s.0) (subst (λ b. Seg f b ys mid tail stop) s.1 t)
Seg-append f before (x ∷ xs) ys cur mid_tail tail mid stop s t =
    (s.0, s.1, Seg-append f (some x) xs ys (f x).next_free_block mid_tail tail mid stop s.2 t)

-- A segment through `i` is a segment up to `i` and one behind it.
pub Seg-split :
    (f : ℕ → KvCacheBlock) (before : Ptr) (xs ys : List ℕ) (i : ℕ) (cur tail stop : Ptr)
    → Seg f before (xs ++ i ∷ ys) cur tail stop
    → Seg f before xs cur (f i).prev_free_block (some i)
      × Seg f (some i) ys (f i).next_free_block tail stop
Seg-split f before [] ys i cur tail stop s = ((s.0, s.1), s.2)
Seg-split f before (x ∷ xs) ys i cur tail stop s =
    let rest = Seg-split f (some x) xs ys i (f x).next_free_block tail stop s.2 in
    ((s.0, s.1, rest.0), rest.1)

-- The last block of a segment that has one is a block of it.
pub Seg-last :
    (f : ℕ → KvCacheBlock) (before : Ptr) (x : ℕ) (xs : List ℕ) (cur tail stop : Ptr)
    → Seg f before (x ∷ xs) cur tail stop
    → (t : ℕ) × (tail ≡ some t) × (has t (x ∷ xs) ≡ true)
Seg-last f before x [] cur tail stop s = (x, s.2.1, ground arith)
Seg-last f before x (y ∷ ys) cur tail stop s =
    let (t, e, h) = Seg-last f (some x) y ys (f x).next_free_block tail stop s.2 in
    (t, e, ground arith)

-- The segment ends in another block when the `next` pointer of its last block is set.
pub Seg-relink_last :
    (f g : ℕ → KvCacheBlock) (before : Ptr) (x : ℕ) (xs : List ℕ) (cur : Ptr) (t : ℕ)
    (stop new : Ptr)
    → Distinct (x ∷ xs)
    → ((a : ℕ) → has a (x ∷ xs) ≡ true → (a == t) ≡ false → SameLinks (g a) (f a))
    → (g t).prev_free_block ≡ (f t).prev_free_block
    → (g t).next_free_block ≡ new
    → Seg f before (x ∷ xs) cur (some t) stop
    → Seg g before (x ∷ xs) cur (some t) new
Seg-relink_last f g before x [] cur t stop new d same p n s = ground arith
Seg-relink_last f g before x (y ∷ ys) cur t stop new d same p n s =
    let (u, e, h) = Seg-last f (some x) y ys (f x).next_free_block (some t) stop s.2 in
    let apart : (x == t) ≡ false = ground arith in
    let here = same x (ground arith) apart in
    let rest =
      Seg-relink_last f g (some x) y ys (f x).next_free_block t stop new d.1
        (λ a h. same a (ground arith)) p n s.2 in
    (s.0, ground arith, subst (λ c. Seg g (some x) (y ∷ ys) c (some t) new) (sym here.1) rest)
