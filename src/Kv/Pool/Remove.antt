-- ===== src/Kv/Pool/Remove.antt =====
-- `remove_from_free_queue` and `pop_free_head` of src/kv/cache.cpp on a well-formed free queue.
use cohere_megakernel.Common.{
  ℕ, ◌≡◌, refl, sym, subst, ◌∙◌, true, false, none, some, List, [], ◌∷◌, ◌++◌, arith, ◌==◌,
  length-append, has, Distinct, has-append, ◌&&◌, not, Bool-cases, inl, inr, if◌then◌else◌,
}
use cohere_megakernel.Kv.Pool.{
  KvCacheBlock, KvBlockPool, Ptr, unlinked, end_after, remove_from_free_queue, pop_free_head,
}
use cohere_megakernel.Kv.Pool.Segment.{
  Seg, Seg-append, Seg-last, Seg-relink_last, Seg-split, Seg-frame,
}
use cohere_megakernel.Kv.Pool.FreeList.{IsFreeList}

-- What distinctness says of the two sides of a block.
abbrev Around : List ℕ → ℕ → List ℕ → Type 0
Around xs i ys =
    (has i xs ≡ false)
    × (has i ys ≡ false)
    × Distinct xs
    × Distinct ys
    × ((a : ℕ) → has a xs ≡ true → has a ys ≡ false)

Distinct-Around : (xs : List ℕ) (i : ℕ) (ys : List ℕ) → Distinct (xs ++ i ∷ ys) → Around xs i ys
Distinct-Around [] i ys d = (refl, d.0, tt, d.1, λ a h. ground arith)
Distinct-Around (x ∷ xs) i ys d =
    let w = Distinct-Around xs i ys d.1 in
    let fresh = has-append x xs (i ∷ ys) in
    (ground (arith, w.0), w.1, (ground arith, w.2), w.3, λ a h. ground (arith, w.4 a, fresh))

Distinct-append :
    (xs ys : List ℕ)
    → Distinct xs
    → Distinct ys
    → ((a : ℕ) → has a xs ≡ true → has a ys ≡ false)
    → Distinct (xs ++ ys)
Distinct-append [] ys d e apart = e
Distinct-append (x ∷ xs) ys d e apart = (
  ground (arith, has-append x xs ys, apart x),
  Distinct-append xs ys d.1 e (λ a h. apart a (ground arith)),
)

-- The blocks in front of `i` end at the block behind it.
front :
    (f : ℕ → KvCacheBlock) (i : ℕ) (xs ys : List ℕ) (pr nx head : Ptr)
    → Around xs i ys
    → ((a : ℕ) → nx ≡ some a → has a ys ≡ true)
    → Seg f none xs head pr (some i)
    → Seg (unlinked f i pr nx) none xs (end_after pr head nx) pr nx
front f i [] ys pr nx head w behind s = ground arith
front f i (x ∷ xs) ys pr nx head w behind s =
    let (t, e, h) = Seg-last f none x xs head pr (some i) s in
    let g = unlinked f i (some t) nx in
    let links =
      Seg-relink_last f g none x xs head t (some i) nx w.2
        (λ a m n. ground (arith, behind a, w.4 a)) (ground (arith, behind t, w.4 t))
        (ground (arith, behind t, w.4 t)) (subst (λ c. Seg f none (x ∷ xs) head c (some i)) e s) in
    subst (λ c. Seg (unlinked f i c nx) none (x ∷ xs) (end_after c head nx) c nx) (sym e) links

-- The blocks behind `i` begin at the block in front of it.
back :
    (f : ℕ → KvCacheBlock) (i : ℕ) (xs ys : List ℕ) (pr nx tail : Ptr)
    → Around xs i ys
    → ((a : ℕ) → pr ≡ some a → has a xs ≡ true)
    → Seg f (some i) ys nx tail none
    → Seg (unlinked f i pr nx) pr ys nx (end_after nx tail pr) none
back f i xs [] pr nx tail w before s = ground arith
back f i xs (y ∷ ys) pr nx tail w before s =
    let g = unlinked f i pr nx in
    let e : nx ≡ some y = s.0 in
    let rest =
      Seg-frame f g (some y) ys (f y).next_free_block tail none
        (λ a m. ground (arith, before a, w.4 a)) s.2 in
    let links : (g y).next_free_block ≡ (f y).next_free_block = ground (arith, before y, w.4 y) in
    (e, ground arith, rw (links, e) rest)

first-mem :
    (f : ℕ → KvCacheBlock) (before : Ptr) (ys : List ℕ) (nx tail : Ptr)
    → Seg f before ys nx tail none
    → (a : ℕ) → nx ≡ some a
    → has a ys ≡ true
first-mem f before [] nx tail s a e = cc
first-mem f before (y ∷ ys) nx tail s a e = ground arith

last-mem :
    (f : ℕ → KvCacheBlock) (xs : List ℕ) (head pr stop : Ptr)
    → Seg f none xs head pr stop
    → (a : ℕ) → pr ≡ some a
    → has a xs ≡ true
last-mem f [] head pr stop s a e = cc
last-mem f (x ∷ xs) head pr stop s a e =
    let (t, last, h) = Seg-last f none x xs head pr stop s in ground arith

module _ (p : KvBlockPool) (i : ℕ) (xs ys : List ℕ) (w : IsFreeList p (xs ++ i ∷ ys)) where
  remove-chain :
      let p' = remove_from_free_queue p (some i) in
      Seg p'.block none (xs ++ ys) p'.free_head p'.free_tail none
  unfolding remove_from_free_queue
  remove-chain =
      let pr = (p.block i).prev_free_block in
      let nx = (p.block i).next_free_block in
      let g = unlinked p.block i pr nx in
      let around = Distinct-Around xs i ys w.distinct in
      let (s, t) = Seg-split p.block none xs ys i p.free_head p.free_tail none w.chain in
      let here : (p.block i).in_free_queue ≡ true =
        w.member i ∙ has-append i xs (i ∷ ys) ∙ ground arith in
      rw here (
        Seg-append g none xs ys (end_after pr p.free_head nx) pr (end_after nx p.free_tail pr) nx
          none
          (front p.block i xs ys pr nx p.free_head around
            (first-mem p.block (some i) ys nx p.free_tail t) s)
          (back p.block i xs ys pr nx p.free_tail around
            (last-mem p.block xs p.free_head pr (some i) s) t))

  remove-member :
      (j : ℕ) → ((remove_from_free_queue p (some i)).block j).in_free_queue ≡ has j (xs ++ ys)
  unfolding remove_from_free_queue
  remove-member j =
      let around = Distinct-Around xs i ys w.distinct in
      ground (
        arith,
        w.member i,
        w.member j,
        has-append i xs (i ∷ ys),
        has-append j xs (i ∷ ys),
        has-append j xs ys,
      )

  remove_split-IsFreeList : IsFreeList (remove_from_free_queue p (some i)) (xs ++ ys)
  remove_split-IsFreeList =
      let around = Distinct-Around xs i ys w.distinct in
      record {
        chain = remove-chain;
        distinct = Distinct-append xs ys around.2 around.3 around.4;
        member = remove-member;
        count =
            unfold remove_from_free_queue in
            ground (
              arith,
              w.count,
              w.member i,
              has-append i xs (i ∷ ys),
              length-append xs (i ∷ ys),
              length-append xs ys,
            );
      }

-- The list without its first `i`.
unfoldable pub erase : ℕ → List ℕ → List ℕ
erase i [] = []
erase i (x ∷ xs) = if x == i then xs else x ∷ erase i xs

erase-split :
    (i : ℕ) (q : List ℕ)
    → has i q ≡ true
    → (xs : List ℕ) × (ys : List ℕ) × (q ≡ xs ++ i ∷ ys) × (erase i q ≡ xs ++ ys)
unfolding erase
erase-split i [] h = cc
erase-split i (x ∷ q) h = elim (Bool-cases (x == i)) [
  | inl hit ↦ ([], q, ground arith, ground arith)
  | inr miss ↦
      let (xs, ys, e, d) = erase-split i q (ground arith) in
      (x ∷ xs, ys, ground arith, ground arith)
]

-- `remove_from_free_queue` takes a block of a well-formed queue out of it, wherever it stands; the
-- others keep their order and their links, and the count is one less.
pub remove-IsFreeList :
    (p : KvBlockPool) (i : ℕ) (q : List ℕ)
    → IsFreeList p q
    → has i q ≡ true
    → IsFreeList (remove_from_free_queue p (some i)) (erase i q)
remove-IsFreeList p i q w h =
    let (xs, ys, e, d) = erase-split i q h in
    subst (λ r. IsFreeList (remove_from_free_queue p (some i)) r) (sym d)
      (remove_split-IsFreeList p i xs ys (subst (IsFreeList p) e w))

pub has-erase : (i j : ℕ) (q : List ℕ) → Distinct q → has j (erase i q) ≡ (has j q && not (i == j))
unfolding erase
has-erase i j [] d = refl
has-erase i j (x ∷ q) d = ground (arith, has-erase i j q d.1)

-- A pop of the empty queue changes nothing and gives no block.
pub pop-nil : (p : KvBlockPool) → IsFreeList p [] → pop_free_head p ≡ (p, none)
unfolding pop_free_head
pop-nil p w = rw w.chain.0

-- A pop of a well-formed queue gives its first block, and the rest of the queue is left, well-formed.
pub pop-cons :
    (p : KvBlockPool) (i : ℕ) (q : List ℕ)
    → IsFreeList p (i ∷ q)
    → (pop_free_head p ≡ (remove_from_free_queue p (some i), some i))
      × IsFreeList (remove_from_free_queue p (some i)) q
unfolding pop_free_head
pop-cons p i q w = (rw w.chain.0, remove_split-IsFreeList p i [] q w)
