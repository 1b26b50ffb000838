-- ===== src/Kv/Decode/Keep.antt =====
-- The decode calls of src/kv/cache.cpp keep the invariant.
use cohere_megakernel.Common.{
  ℕ, ◌-◌, ◌/◌, ◌<◌, Bool, false, ◌||◌, not, Option, none, some, arith, ltb, leb, ltb→lt,
  if◌then◌else◌,
}
use cohere_megakernel.Common.Int.{ℤ, pos, negsuc, pos_part, is_neg, below}
use cohere_megakernel.Kv.Global.{
  decode_position_outside_context, decode_block_outside_row, length_outside_context,
}
use cohere_megakernel.Kv.State.{Geometry, kv_evict_until, kv_max_tokens, length_in_context}
use cohere_megakernel.Kv.Store.{
  M, pure, for_range, write_seqlen, write_active, kv_flush_page_table, kv_flush_cache_seqlens,
}
use cohere_megakernel.Kv.Store.Ensures.{
  Keeps, raises, for_range-Keeps, for_down-Keeps, Keeps-bind, Keeps-if, require-then, require-Keeps,
}
use cohere_megakernel.Kv.Rows.{clear_layer}
use cohere_megakernel.Kv.Rows.Inv.{Inv}
use cohere_megakernel.Kv.Rows.Access.{
  pure-Keeps, read_seqlen-Keeps, write_seqlen-Keeps, write_active-Keeps, kv_flush_page_table-Keeps,
  kv_flush_cache_seqlens-Keeps, kv_flush_row_active-Keeps,
}
use cohere_megakernel.Kv.Rows.Blocks.{
  kv_ensure_blocks_for_row-Keeps, kv_evict_below-Keeps, clear_layer-Keeps, write_evict-Keeps,
  until_within,
}
use cohere_megakernel.Kv.Decode.{
  Array, row_on, position_of, over_layers, decode_check, decode_evict, decode_active_row,
  decode_row, kv_step_decode_positions, step_decode_positions, validate_lengths, set_cache_seqlens,
  free_row_layers, free_row_at, free_row,
}

module _ (n : ℕ) (others : ℕ → ℕ) (g : Geometry) where
  abbrev Kept : {A : Type 0} → M A → Type 0
  Kept m = Keeps (Inv n others g) m

  -- A flush that is made only where something changed.
  pub flush_if-Keeps : (c : Bool) → Kept (if c then kv_flush_page_table else pure tt)
  flush_if-Keeps c =
      Keeps-if c kv_flush_page_table (pure tt) (λ _. kv_flush_page_table-Keeps n others g)
        (λ _. pure-Keeps n others g tt)

  pub over_layers-Keeps :
      (changed : Bool) (call : ℕ → M Bool)
      → ((li : ℕ) → li < g.num_layers → Kept (call li))
      → Kept (over_layers g changed call)
  unfolding over_layers
  over_layers-Keeps changed call keep =
      for_range-Keeps (Inv n others g) _ g.num_layers 0
        (λ li c lo hi.
          Keeps-bind (call li) _ (keep li (omega arith)) (λ d. pure-Keeps n others g (d || c)))
        changed

  position_of-Keeps : (positions : Option Array) (b : ℕ) → b < g.bs → Kept (position_of positions b)
  unfolding position_of
  position_of-Keeps none b row = read_seqlen-Keeps n others g b row
  position_of-Keeps (some positions) b row = pure-Keeps n others g (positions b)

  decode_check-Keeps : (positions active : Option Array) → Kept (decode_check g positions active)
  unfolding decode_check
  decode_check-Keeps positions active =
      for_range-Keeps (Inv n others g) _ g.bs 0
        (λ b _ lo hi.
          Keeps-if (not (row_on active b)) (pure tt) _ (λ _. pure-Keeps n others g tt)
            λ _.
              Keeps-bind (position_of positions b) _ (position_of-Keeps positions b (omega arith))
                λ p.
                  require-then (not (is_neg p)) decode_position_outside_context _
                    λ _. require-Keeps (below p (kv_max_tokens g)) decode_position_outside_context)
        tt

  module _ (b : ℕ) (row : b < g.bs) where
    decode_evict-Keeps : (p : ℕ) (changed : Bool) → Kept (decode_evict g b p changed)
    unfolding decode_evict
    decode_evict-Keeps p changed =
        Keeps-if (ltb 0 g.sw_size) _ (pure changed)
          (λ _.
            Keeps-if (leb g.sw_size p) _ (pure changed)
              (λ _. over_layers-Keeps changed _ λ li l.
                kv_evict_below-Keeps n others g li b l row ((p - g.sw_size) / g.page_block_size))
              (λ _. pure-Keeps n others g changed))
          (λ _. pure-Keeps n others g changed)

    decode_active_row-Keeps : (p : ℕ) (changed : Bool) → Kept (decode_active_row g b p changed)
    unfolding decode_active_row
    decode_active_row-Keeps p changed =
        Keeps-bind (write_seqlen b (pos p)) _ (write_seqlen-Keeps n others g b row (pos p)) λ _.
          require-then (ltb (p / g.page_block_size) g.max_pages_per_seq) decode_block_outside_row _
            λ _. Keeps-bind (decode_evict g b p changed) _ (decode_evict-Keeps p changed) λ c.
              over_layers-Keeps c _ λ li l. kv_ensure_blocks_for_row-Keeps n others g li b l row _ _

    decode_row-Keeps :
        (positions active : Option Array) (changed : Bool)
        → Kept (decode_row g positions active b changed)
    unfolding decode_row
    decode_row-Keeps positions active changed =
        Keeps-if (row_on active b) _ _
          (λ _.
            Keeps-bind (write_active b (pos 1)) _ (write_active-Keeps n others g b row (pos 1)) λ _.
              Keeps-bind (position_of positions b) _ (position_of-Keeps positions b row)
                λ p. decode_active_row-Keeps (pos_part p) changed)
          (λ _.
            Keeps-bind (write_active b (pos 0)) _ (write_active-Keeps n others g b row (pos 0))
              λ _. pure-Keeps n others g changed)

  kv_step_decode_positions-Keeps :
      (positions active : Option Array) → Kept (kv_step_decode_positions g positions active)
  unfolding kv_step_decode_positions
  kv_step_decode_positions-Keeps positions active =
      Keeps-bind (decode_check g positions active) _ (decode_check-Keeps positions active) λ _.
        Keeps-bind (for_range g.bs 0 false (decode_row g positions active)) _
          (for_range-Keeps (Inv n others g) (decode_row g positions active) g.bs 0
            (λ b c lo hi. decode_row-Keeps b (omega arith) positions active c) false)
          λ c. Keeps-bind (if c then kv_flush_page_table else pure tt) _ (flush_if-Keeps c) λ _.
            Keeps-bind (kv_flush_cache_seqlens g) _ (kv_flush_cache_seqlens-Keeps n others g)
              λ _. kv_flush_row_active-Keeps n others g

  pub step_decode_positions-Keeps :
      (positions active : Option Array) → Kept (step_decode_positions g positions active)
  unfolding step_decode_positions
  step_decode_positions-Keeps none active = λ s inv. raises inv
  step_decode_positions-Keeps (some positions) active =
      kv_step_decode_positions-Keeps (some positions) active

  pub validate_lengths-Keeps :
      (lengths : Array) (active : Option Array) → Kept (validate_lengths g lengths active)
  unfolding validate_lengths
  validate_lengths-Keeps lengths active =
      for_range-Keeps (Inv n others g) _ g.bs 0
        (λ b _ lo hi.
          Keeps-if (row_on active b) _ (pure tt)
            (λ _. require-Keeps (length_in_context g (lengths b)) length_outside_context)
            (λ _. pure-Keeps n others g tt))
        tt

  pub set_cache_seqlens-Keeps : (lengths : Option Array) → Kept (set_cache_seqlens g lengths)
  unfolding set_cache_seqlens
  set_cache_seqlens-Keeps none = λ s inv. raises inv
  set_cache_seqlens-Keeps (some lengths) =
      Keeps-bind (validate_lengths g lengths none) _ (validate_lengths-Keeps lengths none) λ _.
        Keeps-bind (for_range g.bs 0 tt λ b _. write_seqlen b (lengths b)) _
          (for_range-Keeps (Inv n others g) _ g.bs 0
            (λ b _ lo hi. write_seqlen-Keeps n others g b (omega arith) (lengths b)) tt)
          λ _. kv_flush_cache_seqlens-Keeps n others g

  free_row_layers-Keeps : (row : ℕ) → row < g.bs → Kept (free_row_layers g row)
  unfolding free_row_layers
  free_row_layers-Keeps row r = for_down-Keeps (Inv n others g) _ g.num_layers λ li l.
      Keeps-bind (clear_layer g li row) _ (clear_layer-Keeps n others g li row l r) λ _.
        write_evict-Keeps n others g (kv_evict_until g li row) 0
          (until_within n others g li row l r)

  pub free_row-Keeps : (row : ℤ) → Kept (free_row g row)
  unfolding free_row free_row_at
  free_row-Keeps (negsuc k) = λ s inv. raises inv
  free_row-Keeps (pos row) =
      Keeps-if (ltb row g.bs) _ _
        (λ h.
          let r = ltb→lt row g.bs h in
          Keeps-bind (free_row_layers g row) _ (free_row_layers-Keeps row r) λ _.
            Keeps-bind (write_seqlen row (pos 0)) _ (write_seqlen-Keeps n others g row r (pos 0))
              λ _.
                Keeps-bind (write_active row (pos 0)) _
                  (write_active-Keeps n others g row r (pos 0))
                  λ _. Keeps-bind kv_flush_page_table _ (kv_flush_page_table-Keeps n others g) λ _.
                    Keeps-bind (kv_flush_cache_seqlens g) _
                      (kv_flush_cache_seqlens-Keeps n others g)
                      λ _. kv_flush_row_active-Keeps n others g)
        (λ _ s inv. raises inv)
