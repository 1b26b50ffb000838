-- ===== src/Kv/Decode/Release.antt =====
-- `kv_release_all_blocks_nolock` of src/kv/cache.cpp empties the page table of a handle.
use cohere_megakernel.Common.{
  ℕ, zero, suc, List, ◌+◌, ◌<◌, ◌≤◌, ◌≡◌, ◌⊎◌, inl, inr, refl, subst, sym, arith,
}
use cohere_megakernel.Common.Int.{ℤ, minus_one}
use cohere_megakernel.Kv.Global.Invariant.{IsConsistent}
use cohere_megakernel.Kv.State.{Geometry, kv_pt}
use cohere_megakernel.Kv.State.Index.{kv_pt-lt, kv_pt-onto}
use cohere_megakernel.Kv.Store.{Store}
use cohere_megakernel.Kv.Store.Ensures.{Ensures, mono, for_range-Ensures, for_down-Ensures}
use cohere_megakernel.Kv.Rows.{clear_slot, clear_layer, kv_release_all_blocks_nolock}
use cohere_megakernel.Kv.Rows.Inv.{Inv, count_slots, refs_of, IsConsistent-ext}
use cohere_megakernel.Kv.Rows.Slots.{clear_slot-Cleared}
use cohere_megakernel.Kv.Decode.{destroy}

module _ (n : ℕ) (others : ℕ → ℕ) (g : Geometry) where
  -- A set of triples of row, layer and logical block.
  abbrev Region : Type 1
  Region = ℕ → ℕ → ℕ → Type 0

  -- The slots of a region are empty.
  abbrev Emptied : Region → Store → Type 0
  Emptied done t =
      Inv n others g t
      × ((b li blk : ℕ)
          → b < g.bs
          → li < g.num_layers
          → blk < g.max_pages_per_seq
          → done b li blk
          → t.kv.page_table_host.at (kv_pt g li b blk) ≡ minus_one)

  clear_slot-Emptied :
      (done more : Region) (b li blk : ℕ) (s : Store)
      → b < g.bs
      → li < g.num_layers
      → blk < g.max_pages_per_seq
      → ((b' li' blk' : ℕ)
          → more b' li' blk'
          → done b' li' blk' ⊎ ((b' ≡ b) × (li' ≡ li) × (blk' ≡ blk)))
      → Emptied done s
      → Ensures (λ _ t. Emptied more t) (λ _ _. ⊥) (clear_slot (kv_pt g li b blk) s)
  clear_slot-Emptied done more b li blk s row layer block split (inv, e) =
      let within =
        subst (λ m. kv_pt g li b blk < m) (sym inv.shaped.page_table)
          (kv_pt-lt g li b blk layer row block) in
      mono (clear_slot-Cleared n others g (kv_pt g li b blk) s inv within) λ _ t (kept, at). (
        kept,
        λ b' li' blk' row' layer' block' d. elim (split b' li' blk' d) [
          | inl old ↦
              let before = e b' li' blk' row' layer' block' old in
              ground (arith, at (kv_pt g li' b' blk'))
          | inr (p, q, r) ↦ ground (arith, at (kv_pt g li' b' blk'))
        ],
      )

  -- The rows in front of `b`, and of row `b` the layers behind `li` and in layer `li` the blocks from
  -- `blk` on.
  abbrev Before : ℕ → ℕ → ℕ → Region
  Before b li blk b' li' blk' = (b' < b) ⊎ ((b' ≡ b) × ((li < li') ⊎ ((li' ≡ li) × (blk ≤ blk'))))

  -- The same between two layers.
  abbrev From : ℕ → ℕ → Region
  From b li b' li' blk' = (b' < b) ⊎ ((b' ≡ b) × (li ≤ li'))

  clear_layer-Emptied :
      (b li : ℕ) (s : Store)
      → b < g.bs
      → li < g.num_layers
      → Emptied (From b (suc li)) s
      → Ensures (λ _ t. Emptied (From b li) t) (λ _ _. ⊥) (clear_layer g li b s)
  unfolding clear_layer
  clear_layer-Emptied b li s row layer (inv, e) =
      mono
        (for_down-Ensures (λ blk t. Emptied (Before b li blk) t) (λ _ _. ⊥)
          (λ blk. clear_slot (kv_pt g li b blk)) g.max_pages_per_seq
          (λ blk t l h.
            clear_slot-Emptied (Before b li (suc blk)) (Before b li blk) b li blk t row layer l
              (λ b' li' blk' d. grind arith) h)
          s (inv, λ b' li' blk' r l k d. e b' li' blk' r l k (grind arith)))
        λ _ t (inv', e'). (inv', λ b' li' blk' r l k d. e' b' li' blk' r l k (grind arith))

  release_all-Emptied :
      (s : Store)
      → Inv n others g s
      → Ensures
          (λ _ t. Emptied (λ b' _ _. b' < g.bs) t)
          (λ _ _. ⊥)
          (kv_release_all_blocks_nolock g s)
  unfolding kv_release_all_blocks_nolock
  release_all-Emptied s inv =
      mono
        (for_range-Ensures (λ b _ t. Emptied (λ b' _ _. b' < b) t) (λ _ _. ⊥) _ g.bs 0
          (λ b _ t lo hi (inv', e).
            mono
              (for_down-Ensures (λ li u. Emptied (From b li) u) (λ _ _. ⊥)
                (λ li. clear_layer g li b) g.num_layers
                (λ li u l h. clear_layer-Emptied b li u (omega arith) l h) t
                (inv', λ b' li' blk' r l k d. e b' li' blk' r l k (grind arith)))
              λ _ u (inv'', e'').
                (inv'', λ b' li' blk' r l k d. e'' b' li' blk' r l k (grind arith)))
          tt s (inv, λ b' li' blk' r l k d. absurd (omega arith)))
        λ _ t (inv', e'). (inv', λ b' li' blk' r l k d. e' b' li' blk' r l k (omega arith))

  pub no_slots :
      (m : ℕ) (f : ℕ → ℤ) (i : ℕ) → ((k : ℕ) → k < m → f k ≡ minus_one) → count_slots m f i ≡ 0
  unfolding count_slots
  no_slots zero f i h = refl
  no_slots (suc m) f i h = ground (arith, h m, no_slots m f i (λ k l. h k (omega arith)))

  -- The destructor of a handle that satisfies the invariant returns without an error, and gives back
  -- every reference: all slots are empty, and the pool is consistent with what the other handles
  -- hold.
  pub destroy-lem :
      (s : Store)
      → Inv n others g s
      → Ensures
          (λ _ t.
            ((k : ℕ) → k < t.kv.page_table_host.size → t.kv.page_table_host.at k ≡ minus_one)
            × ((q : List ℕ) × IsConsistent others t.global q))
          (λ _ _. ⊥)
          (destroy g s)
  unfolding destroy
  destroy-lem s inv = mono (release_all-Emptied s inv) λ _ t (kept, e).
      let empty : (k : ℕ) → k < t.kv.page_table_host.size → t.kv.page_table_host.at k ≡ minus_one =
        (λ k l.
          let p = kv_pt-onto g k (subst (λ m. k < m) kept.shaped.page_table l) in
          subst (λ j. t.kv.page_table_host.at j ≡ minus_one) p.index
            (e p.batch p.layer p.block p.batch_lt p.layer_lt p.block_lt p.batch_lt)) in
      (
        empty,
        (
          kept.queue,
          IsConsistent-ext (λ i. refs_of t.kv.page_table_host i + others i) others t.global
              kept.queue
              (λ i.
                unfold refs_of in
                omega (arith, no_slots t.kv.page_table_host.size t.kv.page_table_host.at i empty))
              kept.consistent,
        ),
      )
