-- ===== src/Kv/Rows/Blocks.antt =====
-- `kv_ensure_blocks_for_row`, `kv_evict_below` and the release loops of src/kv/cache.cpp keep the
-- invariant, whether they return or throw, and touch no slot out of bounds.
use cohere_megakernel.Common.{
  ℕ, ◌-◌, ◌<◌, refl, false, not, min, max, arith, ◌==◌, leb, lt→ltb, leb→le, if◌then◌else◌, subst,
  sym,
}
use cohere_megakernel.Kv.State.{Geometry, kv_pt, kv_evict_until, kv_layer_is_sliding}
use cohere_megakernel.Kv.State.Index.{kv_pt-lt, kv_evict_until-lt}
use cohere_megakernel.Kv.Global.{blocks_outside_row}
use cohere_megakernel.Kv.Store.{Store, M, pure, for_range, read_evict, write_evict, kv_update_peak}
use cohere_megakernel.Kv.Store.Ensures.{
  Keeps, Runs, Runs-Keeps, Runs-bind, Runs-if, for_range-Runs, returns, for_range-Keeps,
  for_down-Keeps, Keeps-bind, Keeps-if, require-then,
}
use cohere_megakernel.Kv.Rows.{
  ensure_slot, kv_ensure_blocks_for_row, evict_slot, kv_evict_below, clear_slot, clear_layer,
  kv_release_all_blocks_nolock,
}
use cohere_megakernel.Kv.Rows.Inv.{Inv, Inv-frame}
use cohere_megakernel.Kv.Rows.Slots.{ensure_slot-Inv, evict_slot-Inv, clear_slot-Inv}

module _ (n : ℕ) (others : ℕ → ℕ) (g : Geometry) where
  abbrev Kept : {A : Type 0} → M A → Type 0
  Kept m = Keeps (Inv n others g) m

  pub kv_update_peak-Keeps : Kept kv_update_peak
  unfolding kv_update_peak
  kv_update_peak-Keeps s inv =
      returns (Inv-frame n others g s _ refl refl (ground (arith, inv.shaped)) inv)

  pub read_evict-Runs :
      (k : ℕ)
      → ((s : Store) → Inv n others g s → k < s.kv.sliding_evict_until.size)
      → Runs (Inv n others g) (read_evict k)
  unfolding read_evict
  read_evict-Runs k within s inv =
      rw (lt→ltb k s.kv.sliding_evict_until.size (within s inv)) (returns inv)

  pub write_evict-Runs :
      (k v : ℕ)
      → ((s : Store) → Inv n others g s → k < s.kv.sliding_evict_until.size)
      → Runs (Inv n others g) (write_evict k v)
  unfolding write_evict
  write_evict-Runs k v within s inv =
      rw (lt→ltb k s.kv.sliding_evict_until.size (within s inv))
        (returns (Inv-frame n others g s _ refl refl (ground (arith, inv.shaped)) inv))

  pub write_evict-Keeps :
      (k v : ℕ)
      → ((s : Store) → Inv n others g s → k < s.kv.sliding_evict_until.size)
      → Kept (write_evict k v)
  write_evict-Keeps k v within = Runs-Keeps (write_evict k v) (write_evict-Runs k v within)

  module _ (layer batch : ℕ) (l : layer < g.num_layers) (b : batch < g.bs) where
    pub slot_within :
        (blk : ℕ) (s : Store)
        → blk < g.max_pages_per_seq
        → Inv n others g s
        → kv_pt g layer batch blk < s.kv.page_table_host.size
    slot_within blk s h inv =
        subst (λ m. kv_pt g layer batch blk < m) (sym inv.shaped.page_table)
          (kv_pt-lt g layer batch blk l b h)

    pub until_within :
        (s : Store)
        → Inv n others g s
        → kv_evict_until g layer batch < s.kv.sliding_evict_until.size
    until_within s inv =
        subst (λ m. kv_evict_until g layer batch < m) (sym inv.shaped.evict)
          (kv_evict_until-lt g layer batch l b)

    pub kv_ensure_blocks_for_row-Keeps :
        (blk_start blk_end : ℕ) → Kept (kv_ensure_blocks_for_row g layer batch blk_start blk_end)
    unfolding kv_ensure_blocks_for_row
    kv_ensure_blocks_for_row-Keeps blk_start blk_end =
        Keeps-if (leb blk_end blk_start) (pure false) _ (λ _ s inv. returns inv)
          λ _. require-then (leb blk_end g.max_pages_per_seq) blocks_outside_row _ λ fits.
            Keeps-bind
              (for_range (blk_end - blk_start) blk_start false
                λ blk changed. ensure_slot (kv_pt g layer batch blk) changed)
              _
              (for_range-Keeps (Inv n others g)
                (λ blk changed. ensure_slot (kv_pt g layer batch blk) changed) (blk_end - blk_start)
                blk_start
                (λ j a lo hi s inv.
                  ensure_slot-Inv n others g (kv_pt g layer batch j) s inv
                    (slot_within j s (omega (arith, leb→le blk_end g.max_pages_per_seq fits)) inv)
                    a)
                false)
              λ changed.
                Keeps-bind (if changed then kv_update_peak else pure tt) (λ _. pure changed)
                  (Keeps-if changed kv_update_peak (pure tt) (λ _. kv_update_peak-Keeps)
                    (λ _ s inv. returns inv))
                  (λ _ s inv. returns inv)

    pub kv_evict_below-Runs :
        (keep_from : ℕ) → Runs (Inv n others g) (kv_evict_below g layer batch keep_from)
    unfolding kv_evict_below
    kv_evict_below-Runs keep_from =
        let keep = min keep_from g.max_pages_per_seq in
        let until = kv_evict_until g layer batch in
        Runs-if (keep_from == 0) (pure false) _ (λ _ s inv. returns inv)
          λ _.
            Runs-if (not (kv_layer_is_sliding g layer)) (pure false) _ (λ _ s inv. returns inv)
              λ _. Runs-bind (read_evict until) _ (read_evict-Runs until until_within) λ from.
                Runs-bind
                  (for_range (keep - from) from false
                    λ blk changed. evict_slot (kv_pt g layer batch blk) changed)
                  _
                  (for_range-Runs (Inv n others g)
                    (λ blk changed. evict_slot (kv_pt g layer batch blk) changed) (keep - from) from
                    (λ j a lo hi s inv.
                      evict_slot-Inv n others g (kv_pt g layer batch j) s inv
                        (slot_within j s (omega arith) inv) a)
                    false)
                  λ changed.
                    Runs-bind (write_evict until (max from keep)) _
                      (write_evict-Runs until (max from keep) until_within) (λ _ s inv. returns inv)

    pub kv_evict_below-Keeps : (keep_from : ℕ) → Kept (kv_evict_below g layer batch keep_from)
    kv_evict_below-Keeps keep_from = Runs-Keeps _ (kv_evict_below-Runs keep_from)

    pub clear_layer-Keeps : Kept (clear_layer g layer batch)
    unfolding clear_layer
    clear_layer-Keeps =
        for_down-Keeps (Inv n others g) (λ blk. clear_slot (kv_pt g layer batch blk))
          g.max_pages_per_seq
          λ j h s inv.
            clear_slot-Inv n others g (kv_pt g layer batch j) s inv (slot_within j s h inv)

  pub kv_release_all_blocks_nolock-Keeps : Kept (kv_release_all_blocks_nolock g)
  unfolding kv_release_all_blocks_nolock
  kv_release_all_blocks_nolock-Keeps =
      for_range-Keeps (Inv n others g) _ g.bs 0
        (λ b _ lo hi.
          for_down-Keeps (Inv n others g) (λ li. clear_layer g li b) g.num_layers
            λ li l. clear_layer-Keeps li b l (omega arith))
        tt
