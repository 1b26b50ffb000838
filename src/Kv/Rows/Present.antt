-- ===== src/Kv/Rows/Present.antt =====
-- What `kv_ensure_blocks_for_row` of src/kv/cache.cpp promises: behind it the logical blocks of its
-- range have physical ones.
use cohere_megakernel.Common.{
  ℕ, ◌+◌, ◌-◌, ◌<◌, ◌≤◌, ◌≡◌, refl, ◌∙◌, true, false, Bool, arith, leb, ◌==◌, ==_iff, Bool-cases,
  inl, inr, if◌then◌else◌,
}
use cohere_megakernel.Common.Int.{minus_one, int_eq}
use cohere_megakernel.Kv.Global.{KvError, out_of_blocks}
use cohere_megakernel.Kv.State.{Geometry, kv_pt}
use cohere_megakernel.Kv.Store.{Store, pure, and_then, for_range, kv_update_peak}
use cohere_megakernel.Kv.Store.Ensures.{Ensures, returns, bind, mono, for_range-Ensures}
use cohere_megakernel.Kv.Rows.{ensure_slot, kv_ensure_blocks_for_row}
use cohere_megakernel.Kv.Rows.Inv.{Inv, Inv-frame}
use cohere_megakernel.Kv.Rows.Slots.{ensure_slot-Filled}
use cohere_megakernel.Kv.Rows.Blocks.{slot_within}

-- Slot `k` names a block.
abbrev pub IsFull : Store → ℕ → Type 0
IsFull t k = int_eq (t.kv.page_table_host.at k) minus_one ≡ false

-- Every slot that names a block in `s` names the same in `t`.
abbrev pub Grows : Store → Store → Type 0
Grows s t = (j : ℕ) → IsFull s j → t.kv.page_table_host.at j ≡ s.kv.page_table_host.at j

pub Grows-IsFull : (s t : Store) (j : ℕ) → Grows s t → IsFull s j → IsFull t j
Grows-IsFull s t j grows full = ground (arith, grows j full)

pub Grows-trans : (s t u : Store) → Grows s t → Grows t u → Grows s u
Grows-trans s t u first second j full = second j (Grows-IsFull s t j first full) ∙ first j full

module _ (n : ℕ) (others : ℕ → ℕ) (g : Geometry) where
  abbrev pub Exhausted : KvError → Store → Type 0
  Exhausted e t = (e ≡ out_of_blocks) × Inv n others g t

  -- The blocks of a range are there, and nothing was taken from the state `s` before.
  abbrev pub Present : Store → ℕ → ℕ → ℕ → ℕ → Store → Type 0
  Present s layer batch from to t =
      Inv n others g t
      × Grows s t
      × ((blk : ℕ) → from ≤ blk → blk < to → IsFull t (kv_pt g layer batch blk))

  module _ (layer batch : ℕ) (l : layer < g.num_layers) (b : batch < g.bs) where
    ensure_loop :
        (from n' : ℕ) (s : Store)
        → Inv n others g s
        → from + n' ≤ g.max_pages_per_seq
        → Ensures
            (λ _ t. Present s layer batch from (from + n') t)
            Exhausted
            (for_range n' from false
              (λ blk changed. ensure_slot (kv_pt g layer batch blk) changed)
              s)
    ensure_loop from n' s inv fits =
        for_range-Ensures (λ blk _ t. Present s layer batch from blk t) Exhausted
          (λ blk changed. ensure_slot (kv_pt g layer batch blk) changed) n' from
          (λ blk changed t lo hi (kept, grows, full).
            mono
              (ensure_slot-Filled n others g (kv_pt g layer batch blk) t kept
                (slot_within n others g layer batch l b blk t (omega arith) kept) changed)
              λ _ u (kept', new, grows'). (
                kept',
                Grows-trans s t u grows grows',
                λ j lo' hi'. elim (Bool-cases (j == blk)) [
                  | inl same ↦ ground (arith, new, (==_iff j blk).0 same)
                  | inr other ↦
                      Grows-IsFull t u (kv_pt g layer batch j) grows'
                        (full j lo' (ground (arith, other)))
                ],
              ))
          false s (inv, λ j full. refl, λ j lo hi. absurd (omega arith))

    -- Where the range lies within the row, the call ends with the blocks there, or without free blocks.
    pub kv_ensure_blocks_for_row-Present :
        (from to : ℕ) (s : Store)
        → Inv n others g s
        → to ≤ g.max_pages_per_seq
        → Ensures
            (λ _ t. Present s layer batch from to t)
            Exhausted
            (kv_ensure_blocks_for_row g layer batch from to s)
    unfolding kv_ensure_blocks_for_row kv_update_peak
    kv_ensure_blocks_for_row-Present from to s inv fits = elim (Bool-cases (leb to from)) [
      | inl none_ ↦ rw none_ (returns (inv, λ j full. refl, λ j lo hi. absurd (ground arith)))
      | inr some_ ↦
          let fit : leb to g.max_pages_per_seq ≡ true = ground arith in
          rw (some_, fit) (bind (ensure_loop from (to - from) s inv (ground arith)) finish)
    ]
      where
        finish :
            (changed : Bool) (t : Store)
            → Present s layer batch from (from + (to - from)) t
            → Ensures
                (λ _ u. Present s layer batch from to u)
                Exhausted
                (and_then ((if changed then kv_update_peak else pure tt) t) (λ _. pure changed))
        finish true t (kept, grows, full) = returns (
          Inv-frame n others g t _ refl refl (ground (arith, kept.shaped)) kept,
          grows,
          λ blk lo hi. full blk lo (omega arith),
        )
        finish false t (kept, grows, full) =
            returns (kept, grows, λ blk lo hi. full blk lo (omega arith))
