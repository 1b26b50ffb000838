-- ===== src/Kv/Stats/Balance.antt =====
-- What the counters of src/kv/cache.cpp's `stats` say of a handle that satisfies the invariant.
use cohere_megakernel.Common.{
  ℕ, zero, suc, ◌+◌, ◌<◌, ◌≡◌, refl, ◌∙◌, Bool, true, false, not, List, [], ◌∷◌, arith, ltb, ◌==◌,
  length, has, Distinct,
}
use cohere_megakernel.Kv.Pool.{active_count}
use cohere_megakernel.Kv.State.{Geometry}
use cohere_megakernel.Kv.Store.{Store}
use cohere_megakernel.Kv.Rows.Inv.{Inv, one_if, refs_of}
use cohere_megakernel.Kv.Stats.{stats}

-- How many of the first `n` blocks pass a test.
unfoldable pub count_below : (ℕ → Bool) → ℕ → ℕ
count_below test zero = 0
count_below test (suc n) = one_if (test n) + count_below test n

count_cons :
    (n x : ℕ) (q : List ℕ)
    → has x q ≡ false
    → count_below (λ i. has i (x ∷ q)) n ≡ count_below (λ i. has i q) n + one_if (ltb x n)
unfolding count_below
count_cons zero x q h = ground arith
count_cons (suc n) x q h = ground (arith, count_cons n x q h)

count_none : (n : ℕ) → count_below (λ i. has i []) n ≡ 0
unfolding count_below
count_none zero = refl
count_none (suc n) = ground (arith, count_none n)

length-count :
    (n : ℕ) (q : List ℕ)
    → Distinct q
    → ((i : ℕ) → has i q ≡ true → i < n)
    → length q ≡ count_below (λ i. has i q) n
length-count n [] d h = ground (arith, count_none n)
length-count n (x ∷ q) d h =
    ground (arith, h x, count_cons n x q d.0, length-count n q d.1 (λ i m. h i (ground arith)))

count-ext :
    (f g : ℕ → Bool) (n : ℕ) → ((i : ℕ) → i < n → f i ≡ g i) → count_below f n ≡ count_below g n
unfolding count_below
count-ext f g zero h = refl
count-ext f g (suc n) h = ground (arith, h n, count-ext f g n (λ i l. h i (omega arith)))

count-not : (f : ℕ → Bool) (n : ℕ) → count_below f n + count_below (λ i. not (f i)) n ≡ n
unfolding count_below
count-not f zero = refl
count-not f (suc n) = ground (arith, count-not f n)

-- For a handle that satisfies the invariant the free counter is the number of blocks that no slot of
-- any handle names, the allocated counter the number of those that some slot names, and they add up
-- to the size of the pool.
pub stats-Inv :
    (n : ℕ) (others : ℕ → ℕ) (g : Geometry) (s : Store)
    → Inv n others g s
    → let refs : ℕ → ℕ = λ i. refs_of s.kv.page_table_host i + others i in
      ((stats s).free ≡ count_below (λ i. refs i == 0) n)
      × ((stats s).allocated ≡ count_below (λ i. not (refs i == 0)) n)
      × ((stats s).allocated + (stats s).free ≡ n)
unfolding stats active_count
stats-Inv n others g s inv =
    let refs : ℕ → ℕ = λ i. refs_of s.kv.page_table_host i + others i in
    let c = inv.consistent in
    let free : s.global.pool.free_count ≡ count_below (λ i. refs i == 0) n =
      c.free.count
      ∙ length-count n inv.queue c.free.distinct (λ i m. ground (arith, c.idle i, inv.pool_size))
      ∙ count-ext (λ i. has i inv.queue) (λ i. refs i == 0) n
          (λ i l. ground (arith, c.idle i, inv.pool_size)) in
    let both = count-not (λ i. refs i == 0) n in
    (free, omega (arith, inv.pool_size), omega (arith, inv.pool_size))
