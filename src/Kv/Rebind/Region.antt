-- ===== src/Kv/Rebind/Region.antt =====
-- The order in which the loops of `KvHandle::rebind` in src/kv/cache.cpp reach the slots.
use cohere_megakernel.Common.{
  ℕ, suc, ◌+◌, ◌<◌, ◌≡◌, arith, Bool, ◌&&◌, ◌||◌, ltb, ◌==◌, Bool-cases, inl, inr,
}

-- The slots that the loops have reached at block `blk` of layer `li` of row `d`
unfoldable pub before : ℕ → ℕ → ℕ → ℕ → ℕ → ℕ → Bool
before d li blk d' li' blk' =
    ltb d' d || ((d' == d) && (ltb li' li || ((li' == li) && ltb blk' blk)))

pub before-step :
    (d li blk d' li' blk' : ℕ)
    → ((d ≡ d') × (li ≡ li') × (blk ≡ blk') → ⊥)
    → before d li (suc blk) d' li' blk' ≡ before d li blk d' li' blk'
unfolding before
before-step d li blk d' li' blk' apart = elim (Bool-cases (blk' == blk)) [
  | inr other ↦ ground (arith, other)
  | inl e ↦ elim (Bool-cases (li' == li)) [
    | inr other ↦ ground (arith, other)
    | inl e' ↦ elim (Bool-cases (d' == d)) [
      | inr other ↦ ground (arith, other)
      | inl e'' ↦ absurd (apart (ground (arith, e''), ground (arith, e'), ground (arith, e)))
    ]
  ]
]

pub before-layer :
    (d li pages d' li' blk' : ℕ)
    → blk' < pages
    → before d li (0 + pages) d' li' blk' ≡ before d (suc li) 0 d' li' blk'
unfolding before
before-layer d li pages d' li' blk' h = ground arith

pub before-row :
    (d layers d' li' blk' : ℕ)
    → li' < layers
    → before d (0 + layers) 0 d' li' blk' ≡ before (suc d) 0 0 d' li' blk'
unfolding before
before-row d layers d' li' blk' h = ground arith
