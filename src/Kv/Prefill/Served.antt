-- ===== src/Kv/Prefill/Served.antt =====
-- The loops over the rows in a prefill chunk of src/kv/cache.cpp: eviction in front of the chunk, the
-- blocks of the chunk, and the copy to the device.
use cohere_megakernel.Common.{
  ℕ, suc, ◌*◌, ◌/◌, ◌<◌, ◌≤◌, ◌≡◌, ◌⊎◌, true, false, Bool, Option, arith, leb, ltb, ◌==◌, ==_iff,
  Bool-cases, inl, inr, if◌then◌else◌, ◌&&◌, ◌||◌,
}
use cohere_megakernel.Kv.Global.{KvError, out_of_blocks, cuda_failure}
use cohere_megakernel.Kv.State.{Geometry, kv_pt, kv_prefill_swa_keep_from}
use cohere_megakernel.Kv.Store.{Store, pure, and_then, kv_flush_page_table}
use cohere_megakernel.Kv.Store.Ensures.{
  Ensures, Runs, Runs-if, Runs-bind, for_range-Runs, returns, bind, mono, weaken_error, both,
  for_range-Ensures,
}
use cohere_megakernel.Kv.Rows.{kv_ensure_blocks_for_row, kv_evict_below}
use cohere_megakernel.Kv.Rows.Inv.{Inv}
use cohere_megakernel.Kv.Rows.Blocks.{kv_evict_below-Runs}
use cohere_megakernel.Kv.Rows.Access.{kv_flush_page_table-Keeps}
use cohere_megakernel.Kv.Rows.Present.{IsFull, Grows-IsFull, kv_ensure_blocks_for_row-Present}
use cohere_megakernel.Kv.Decode.{Array, row_on}
use cohere_megakernel.Kv.Attach.Atomic.{flush-error}
use cohere_megakernel.Kv.Prefill.{over_rows, chunk_evict}

pub div_mono : (a b d : ℕ) → 0 < d → a ≤ b → a / d ≤ b / d
div_mono a b d h l = grind arith

pub div_lt : (a q d : ℕ) → 0 < d → a < q * d → a / d < q
div_lt a q d h l = grind arith

module _ (n : ℕ) (others : ℕ → ℕ) (g : Geometry) (active : Option Array) (layer : ℕ)
    (l : layer < g.num_layers) where
  pub chunk_evict-Runs : (from : ℕ) → Runs (Inv n others g) (chunk_evict g layer from active)
  unfolding chunk_evict over_rows
  chunk_evict-Runs from =
      Runs-if (ltb 0 g.sw_size && leb g.sw_size from) _ (pure false)
        (λ _.
          for_range-Runs (Inv n others g) _ g.bs 0
            (λ b c lo hi.
              Runs-if (row_on active b) _ (pure c)
                (λ _.
                  Runs-bind (kv_evict_below g layer b (kv_prefill_swa_keep_from g from)) _
                    (kv_evict_below-Runs n others g layer b l (omega arith)
                      (kv_prefill_swa_keep_from g from))
                    λ _ s inv. returns inv)
                (λ _ s inv. returns inv))
            false)
        (λ _ s inv. returns inv)

  -- The active rows in front of row `to` have the blocks of a range.
  abbrev pub Served : ℕ → ℕ → ℕ → Store → Type 0
  Served lo hi to t =
      Inv n others g t
      × ((b blk : ℕ)
          → b < to
          → row_on active b ≡ true
          → lo ≤ blk
          → blk < hi
          → IsFull t (kv_pt g layer b blk))

  abbrev pub Failed : KvError → Store → Type 0
  Failed e t = ((e ≡ out_of_blocks) ⊎ (e ≡ cuda_failure)) × Inv n others g t

  pub ensure_rows :
      (lo hi : ℕ) (changed : Bool) (s : Store)
      → hi ≤ g.max_pages_per_seq
      → Inv n others g s
      → Ensures
          (λ _ t. Served lo hi g.bs t)
          Failed
          (over_rows g active changed (λ b. kv_ensure_blocks_for_row g layer b lo hi) s)
  unfolding over_rows
  ensure_rows lo hi changed s fits inv =
      mono
        (for_range-Ensures (λ b _ t. Served lo hi b t) Failed
          (λ b c.
            if row_on active b
            then (λ t. and_then (kv_ensure_blocks_for_row g layer b lo hi t) λ d. pure (d || c))
            else pure c)
          g.bs 0 (λ b c t _ below. ensure_row b c t (omega arith)) changed s
          (inv, λ b blk r. absurd (omega arith)))
        λ _ t (kept, full). (kept, λ b blk r. full b blk (omega arith))
    where
      ensure_row :
          (b : ℕ) (c : Bool) (t : Store)
          → b < g.bs
          → Served lo hi b t
          → Ensures
              (λ _ u. Served lo hi (suc b) u)
              Failed
              ((if row_on active b
                  then (λ t.
                      and_then (kv_ensure_blocks_for_row g layer b lo hi t) λ d. pure (d || c))
                  else pure c)
                t)
      ensure_row b c t row (kept, full) = elim (Bool-cases (row_on active b)) [
        | inr off ↦ rw off (
            returns (
              kept,
              λ b' blk r on.
                  full b' blk
                    (elim (Bool-cases (b' == b)) [
                      | inl same ↦ absurd (ground (arith, on, off))
                      | inr other ↦ ground arith
                    ])
                    on,
            ))
        | inl on ↦ rw on (
            bind
              (weaken_error
                (kv_ensure_blocks_for_row-Present n others g layer b l row lo hi t kept fits)
                λ e u (exhausted, kept'). (inl exhausted, kept'))
              λ d u (kept', grows, new). returns (
                kept',
                λ b' blk r on' low high. elim (Bool-cases (b' == b)) [
                  | inl same ↦ ground (arith, new blk low high, (==_iff b' b).0 same)
                  | inr other ↦
                      Grows-IsFull t u (kv_pt g layer b' blk) grows
                        (full b' blk (ground (arith, other)) on' low high)
                ],
              ))
      ]

  pub flush_rows :
      (lo hi : ℕ) (changed : Bool) (s : Store)
      → Served lo hi g.bs s
      → Ensures
          (λ _ t. Served lo hi g.bs t)
          Failed
          ((if changed then kv_flush_page_table else pure tt) s)
  flush_rows lo hi false s served = returns served
  flush_rows lo hi true s (inv, full) =
      mono
        (weaken_error
          (both (kv_flush_page_table s) (kv_flush_page_table-Keeps n others g s inv)
            (flush-error s))
          λ e t (kept, cuda). (inr cuda, kept))
        λ _ t (kept, (same, _)). (kept, λ b blk r on low high. rw same (full b blk r on low high))
