-- ===== src/Kv/Rebind/Copy.antt =====
-- The loops of `KvHandle::rebind` in src/kv/cache.cpp give every row of the new handle the blocks of its
-- source row, and count a reference for each.
use cohere_megakernel.Common.{
  ℕ, zero, suc, ◌+◌, ◌<◌, ◌≡◌, ◌∙◌, refl, subst, sym, arith, Bool, true, false, ◌==◌, ==_iff,
  lt→ltb, Bool-cases, inl, inr, if◌then◌else◌,
}
use cohere_megakernel.Common.Int.{ℤ, pos, negsuc, pos_part, minus_one, is_neg}
use cohere_megakernel.Kv.Global.{retain_at}
use cohere_megakernel.Kv.Global.Invariant.{bump}
use cohere_megakernel.Kv.Global.Counts.{
  retain-done, retain-IsConsistent, retain_at-size, queue_after_retain,
}
use cohere_megakernel.Kv.State.{Geometry, State, kv_pt, kv_evict_until}
use cohere_megakernel.Kv.State.Index.{kv_pt-lt, kv_pt_injective, kv_evict_until-lt}
use cohere_megakernel.Kv.Store.{
  Store, ok, pure, and_then, for_range, write_page, write_evict, write_seqlen, write_active,
}
use cohere_megakernel.Kv.Store.Ensures.{Ensures, returns, mono, for_range-Ensures}
use cohere_megakernel.Kv.Rows.{retain_block}
use cohere_megakernel.Kv.Rows.Inv.{Inv, IsShaped, IsSlot, refs_of, Inv-frame}
use cohere_megakernel.Kv.Rows.Slots.{retain_block-some, write_page-some, rewritten, rewritten-Inv}
use cohere_megakernel.Kv.Decode.{Array}
use cohere_megakernel.Kv.Rebind.Region.{before, before-step, before-layer, before-row}
use cohere_megakernel.Kv.Rebind.{peek, rebound, copy_slot, copy_layer, copy_row}

module _ (n : ℕ) (others : ℕ → ℕ) (g : Geometry) (old : State) (src_rows : Array)
    (new_bs elems page_table seqlens active : ℕ) (shaped : IsShaped g old)
    (slots : (k : ℕ) → k < old.page_table_host.size → IsSlot n (old.page_table_host.at k))
    (sources : (d : ℕ)
      → d < new_bs
      → is_neg (src_rows d) ≡ false
      → pos_part (src_rows d) < g.bs) where
  abbrev pub g' : Geometry
  g' = rebound g new_bs elems page_table seqlens active

  -- What a slot of the new page table takes over
  abbrev pub wanted : ℕ → ℕ → ℕ → ℤ
  wanted d li blk =
      if is_neg (src_rows d)
      then minus_one
      else old.page_table_host.at (kv_pt g li (pos_part (src_rows d)) blk)

  -- The slots that have been reached have their values, the others are empty.
  abbrev pub Copied : (ℕ → ℕ → ℕ → Bool) → Store → Type 0
  Copied done t =
      Inv n others g' t
      × ((d li blk : ℕ)
          → d < new_bs
          → li < g.num_layers
          → blk < g.max_pages_per_seq
          → t.kv.page_table_host.at (kv_pt g' li d blk)
            ≡ (if done d li blk then wanted d li blk else minus_one))

  regroup :
      (done more : ℕ → ℕ → ℕ → Bool) (t : Store)
      → ((d li blk : ℕ)
          → d < new_bs
          → li < g.num_layers
          → blk < g.max_pages_per_seq
          → (if done d li blk then wanted d li blk else minus_one)
            ≡ (if more d li blk then wanted d li blk else minus_one))
      → Copied done t
      → Copied more t
  regroup done more t same (inv, h) =
      (inv, λ d li blk a b c. h d li blk a b c ∙ same d li blk a b c)

  -- An empty slot takes over a value, for which the references have been counted.
  module _ (k : ℕ) (s : Store) (inv : Inv n others g' s) (within : k < s.kv.page_table_host.size)
      (empty : s.kv.page_table_host.at k ≡ minus_one) where
    abbrev refs_now : ℕ → ℕ
    refs_now j = refs_of s.kv.page_table_host j + others j

    put_empty : Inv n others g' (rewritten n others g' s s.global k minus_one)
    put_empty =
        rewritten-Inv n others g' s s.global k minus_one refs_now inv.queue inv within refl
          inv.pool_size inv.consistent (λ j. ground (arith, empty))

    module _ (i : ℕ) (id : i < n) where
      here : i < s.global.pool.size
      here = ground (arith, id, inv.pool_size)

      put_block : Inv n others g' (rewritten n others g' s (retain_at s.global i) k (pos i))
      put_block =
          rewritten-Inv n others g' s (retain_at s.global i) k (pos i) (bump i refs_now)
            (queue_after_retain refs_now i inv.queue) inv within id
            (retain_at-size refs_now s.global inv.queue i inv.consistent here ∙ inv.pool_size)
            (retain-IsConsistent refs_now s.global inv.queue i inv.consistent here)
            (λ j. ground (arith, empty))

      taken : retain_block (pos i) s ≡ ok tt (record s { global = retain_at s.global i })
      taken =
          retain_block-some s (pos i) (retain_at s.global i)
            (retain-done refs_now s.global inv.queue i inv.consistent here)

  -- The slots behind a write to the slot of one triple
  stored :
      (done more : ℕ → ℕ → ℕ → Bool) (d li blk : ℕ) (z : ℤ) (f : ℕ → ℤ)
      → d < new_bs
      → blk < g.max_pages_per_seq
      → wanted d li blk ≡ z
      → more d li blk ≡ true
      → ((d' li' blk' : ℕ)
          → ((d ≡ d') × (li ≡ li') × (blk ≡ blk') → ⊥)
          → more d' li' blk' ≡ done d' li' blk')
      → ((d' li' blk' : ℕ)
          → d' < new_bs
          → li' < g.num_layers
          → blk' < g.max_pages_per_seq
          → f (kv_pt g' li' d' blk') ≡ (if done d' li' blk' then wanted d' li' blk' else minus_one))
      → (d' li' blk' : ℕ) → d' < new_bs
      → li' < g.num_layers
      → blk' < g.max_pages_per_seq
      → (if kv_pt g' li d blk == kv_pt g' li' d' blk' then z else f (kv_pt g' li' d' blk'))
        ≡ (if more d' li' blk' then wanted d' li' blk' else minus_one)
  stored done more d li blk z f row block value reached other h d' li' blk' row' layer' block' =
      elim (Bool-cases (kv_pt g' li d blk == kv_pt g' li' d' blk')) [
        | inl same ↦
            let (p, q, r) =
              kv_pt_injective g' li d blk li' d' blk' row row' block block'
                ((==_iff (kv_pt g' li d blk) (kv_pt g' li' d' blk')).0 same) in
            rw (same, ← p, ← q, ← r, reached) (sym value)
        | inr apart ↦
            let distinct : (d ≡ d') × (li ≡ li') × (blk ≡ blk') → ⊥ =
              (λ (p, q, r). absurd (ground (arith, apart, p, q, r))) in
            rw (apart, other d' li' blk' distinct) (h d' li' blk' row' layer' block')
      ]

  copy_slot-Copied :
      (done more : ℕ → ℕ → ℕ → Bool) (d li blk : ℕ) (s : Store)
      → d < new_bs
      → li < g.num_layers
      → blk < g.max_pages_per_seq
      → is_neg (src_rows d) ≡ false
      → done d li blk ≡ false
      → more d li blk ≡ true
      → ((d' li' blk' : ℕ)
          → ((d ≡ d') × (li ≡ li') × (blk ≡ blk') → ⊥)
          → more d' li' blk' ≡ done d' li' blk')
      → Copied done s
      → Ensures
          (λ _ t. Copied more t)
          (λ _ _. ⊥)
          (copy_slot g old g' d (pos_part (src_rows d)) li blk s)
  unfolding copy_slot peek
  copy_slot-Copied done more d li blk s row layer block source fresh reached other (inv, h) =
      let k₀ = kv_pt g li (pos_part (src_rows d)) blk in
      let within₀ : k₀ < old.page_table_host.size =
        subst (λ m. k₀ < m) (sym shaped.page_table)
          (kv_pt-lt g li (pos_part (src_rows d)) blk layer (sources d row source) block) in
      rw (lt→ltb k₀ old.page_table_host.size within₀)
        (go (old.page_table_host.at k₀) (rw source refl) (slots k₀ within₀))
    where
      k : ℕ
      k = kv_pt g' li d blk

      within : k < s.kv.page_table_host.size
      within =
          subst (λ m. kv_pt g' li d blk < m) (sym inv.shaped.page_table)
            (kv_pt-lt g' li d blk layer row block)

      empty : s.kv.page_table_host.at k ≡ minus_one
      empty = rw fresh at (h d li blk row layer block)

      go :
          (z : ℤ)
          → wanted d li blk ≡ z
          → IsSlot n z
          → Ensures
              (λ _ t. Copied more t)
              (λ _ _. ⊥)
              (and_then
                ((if is_neg z then pure tt else retain_block z) s)
                (λ _. write_page (kv_pt g' li d blk) z))
      go (pos i) value id = rw (taken (kv_pt g' li d blk) s inv within empty i id) (
          rw
            (write_page-some (kv_pt g' li d blk) (pos i)
              (record s { global = retain_at s.global i }) within)
            (returns (
              put_block (kv_pt g' li d blk) s inv within empty i id,
              stored done more d li blk (pos i) s.kv.page_table_host.at row block value reached
                  other h,
            )))
      go (negsuc zero) value zero_ = rw (write_page-some (kv_pt g' li d blk) minus_one s within) (
          returns (
            put_empty (kv_pt g' li d blk) s inv within empty,
            stored done more d li blk minus_one s.kv.page_table_host.at row block value reached
                other h,
          ))
      go (negsuc (suc m)) value zero_ = absurd (omega arith)

  Copied-frame :
      (done : ℕ → ℕ → ℕ → Bool) (s t : Store)
      → t.global ≡ s.global
      → t.kv.page_table_host ≡ s.kv.page_table_host
      → IsShaped g' t.kv
      → Copied done s
      → Copied done t
  Copied-frame done s t pool table kept (inv, h) =
      (Inv-frame n others g' s t pool table kept inv, rw table h)

  copy_blocks-Copied :
      (d li : ℕ) (s : Store)
      → d < new_bs
      → li < g.num_layers
      → is_neg (src_rows d) ≡ false
      → Copied (before d li 0) s
      → Ensures
          (λ _ t. Copied (before d (suc li) 0) t)
          (λ _ _. ⊥)
          (for_range g.max_pages_per_seq 0 tt
            (λ blk _. copy_slot g old g' d (pos_part (src_rows d)) li blk)
            s)
  unfolding before
  copy_blocks-Copied d li s row layer source h =
      mono
        (for_range-Ensures (λ blk _ t. Copied (before d li blk) t) (λ _ _. ⊥)
          (λ blk _. copy_slot g old g' d (pos_part (src_rows d)) li blk) g.max_pages_per_seq 0
          (λ blk _ t lo hi c.
            copy_slot-Copied (before d li blk) (before d li (suc blk)) d li blk t row layer
              (omega arith) source (ground arith) (ground arith)
              (λ d' li' blk' apart. before-step d li blk d' li' blk' apart) c)
          tt s h)
        λ _ t c.
          regroup (before d li (0 + g.max_pages_per_seq)) (before d (suc li) 0) t
            (λ d' li' blk' a b e. rw (← before-layer d li g.max_pages_per_seq d' li' blk' e) refl) c

  copy_layer-Copied :
      (d li : ℕ) (s : Store)
      → d < new_bs
      → li < g.num_layers
      → is_neg (src_rows d) ≡ false
      → Copied (before d li 0) s
      → Ensures
          (λ _ t. Copied (before d (suc li) 0) t)
          (λ _ _. ⊥)
          (copy_layer g old g' d (pos_part (src_rows d)) li s)
  unfolding copy_layer peek write_evict
  copy_layer-Copied d li s row layer source (inv, h) =
      let from = kv_evict_until g li (pos_part (src_rows d)) in
      let into = kv_evict_until g' li d in
      let from_in : from < old.sliding_evict_until.size =
        subst (λ m. from < m) (sym shaped.evict)
          (kv_evict_until-lt g li (pos_part (src_rows d)) layer (sources d row source)) in
      let into_in : into < s.kv.sliding_evict_until.size =
        subst (λ m. into < m) (sym inv.shaped.evict) (kv_evict_until-lt g' li d layer row) in
      rw
        (
          lt→ltb from old.sliding_evict_until.size from_in,
          lt→ltb into s.kv.sliding_evict_until.size into_in,
        )
        (copy_blocks-Copied d li _ row layer source
          (Copied-frame (before d li 0) s _ refl refl (ground (arith, inv.shaped)) (inv, h)))

  row_done :
      (d : ℕ) (t : Store) → Copied (before d (0 + g.num_layers) 0) t → Copied (before (suc d) 0 0) t
  row_done d t =
      regroup (before d (0 + g.num_layers) 0) (before (suc d) 0 0) t
        (λ d' li' blk' a b e. rw (← before-row d g.num_layers d' li' blk' b) refl)

  skipped :
      (d d' li' blk' : ℕ)
      → is_neg (src_rows d) ≡ true
      → (if before d 0 0 d' li' blk' then wanted d' li' blk' else minus_one)
        ≡ (if before (suc d) 0 0 d' li' blk' then wanted d' li' blk' else minus_one)
  unfolding before
  skipped d d' li' blk' none_ = elim (Bool-cases (d' == d)) [
    | inl e ↦
        let same = (==_iff d' d).0 e in
        let no_source : is_neg (src_rows d') ≡ true = rw same none_ in ground (arith, no_source)
    | inr other ↦ ground (arith, other)
  ]

  copy_row-Copied :
      (d : ℕ) (s : Store)
      → d < new_bs
      → Copied (before d 0 0) s
      → Ensures (λ _ t. Copied (before (suc d) 0 0) t) (λ _ _. ⊥) (copy_row g old g' src_rows d s)
  unfolding copy_row peek write_seqlen write_active
  copy_row-Copied d s row (inv, h) = elim (Bool-cases (is_neg (src_rows d))) [
    | inl none_ ↦ rw none_ (
        returns (
          regroup (before d 0 0) (before (suc d) 0 0) s
            (λ d' li' blk' a b e. skipped d d' li' blk' none_) (inv, h)))
    | inr source ↦
        let r = pos_part (src_rows d) in
        let r_in = sources d row source in
        let len_in : r < old.cache_seqlens_host.size =
          subst (λ m. r < m) (sym shaped.seqlens) r_in in
        let act_in : r < old.row_active_host.size = subst (λ m. r < m) (sym shaped.active) r_in in
        let len_to : d < s.kv.cache_seqlens_host.size =
          subst (λ m. d < m) (sym inv.shaped.seqlens) row in
        let act_to : d < s.kv.row_active_host.size =
          subst (λ m. d < m) (sym inv.shaped.active) row in
        rw
          (
            source,
            lt→ltb r old.cache_seqlens_host.size len_in,
            lt→ltb d s.kv.cache_seqlens_host.size len_to,
            lt→ltb r old.row_active_host.size act_in,
            lt→ltb d s.kv.row_active_host.size act_to,
          )
          (mono
            (for_range-Ensures (λ li _ t. Copied (before d li 0) t) (λ _ _. ⊥)
              (λ li _. copy_layer g old g' d r li) g.num_layers 0
              (λ li _ t lo hi c. copy_layer-Copied d li t row (omega arith) source c) tt _
              (Copied-frame (before d 0 0) s _ refl refl (ground (arith, inv.shaped)) (inv, h)))
            λ _ t c. row_done d t c)
  ]

  -- The whole loop, from an empty page table
  pub copy_all-Copied :
      (s : Store)
      → Inv n others g' s
      → ((k : ℕ) → s.kv.page_table_host.at k ≡ minus_one)
      → Ensures
          (λ _ t.
            Inv n others g' t
            × ((d li blk : ℕ)
                → d < new_bs
                → li < g.num_layers
                → blk < g.max_pages_per_seq
                → t.kv.page_table_host.at (kv_pt g' li d blk) ≡ wanted d li blk))
          (λ _ _. ⊥)
          (for_range new_bs 0 tt (λ d _. copy_row g old g' src_rows d) s)
  unfolding before
  copy_all-Copied s inv empty =
      mono
        (for_range-Ensures (λ d _ t. Copied (before d 0 0) t) (λ _ _. ⊥)
          (λ d _. copy_row g old g' src_rows d) new_bs 0
          (λ d _ t lo hi c. copy_row-Copied d t (omega arith) c) tt s
          (inv, λ d li blk a b c. empty (kv_pt g' li d blk) ∙ start d li blk))
        λ _ t (kept, h). (kept, λ d li blk a b c. h d li blk a b c ∙ finish d li blk a)
    where
      start :
          (d li blk : ℕ)
          → minus_one ≡ (if before 0 0 0 d li blk then wanted d li blk else minus_one)
      start d li blk = ground arith

      finish :
          (d li blk : ℕ)
          → d < new_bs
          → (if before (0 + new_bs) 0 0 d li blk then wanted d li blk else minus_one)
            ≡ wanted d li blk
      finish d li blk a = ground arith
