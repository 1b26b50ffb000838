-- ===== src/Kv/Bindings/Agree.antt =====
-- The calls of src/kv/cache.cpp read of an array only the elements that belong to the batch: two arrays
-- that agree there give the same call.
use cohere_megakernel.Common.{
  ℕ, zero, suc, ◌+◌, ◌<◌, ◌≡◌, refl, ap, ◌∙◌, arith, fun_ext, Bool, false, ◌==◌, Option, none, some,
  if◌then◌else◌,
}
use cohere_megakernel.Common.Int.{ℤ, pos_part}
use cohere_megakernel.Kv.State.{Geometry}
use cohere_megakernel.Kv.Store.{M, pure, ◌>>=◌, for_range, write_seqlen, kv_flush_page_table}
use cohere_megakernel.Kv.Decode.{
  Array, row_on, position_of, decode_check, decode_row, kv_step_decode_positions,
  step_decode_positions, validate_lengths, set_cache_seqlens,
}
use cohere_megakernel.Kv.Prefill.{
  over_rows, prefill_row, prefill_rows, chunk_evict, prefill_chunk, checked_chunk,
}

-- The arrays are equal below `n`.
abbrev pub Agree : ℕ → Array → Array → Type 0
Agree n a a' = (b : ℕ) → b < n → a b ≡ a' b

-- So are masks, where a null pointer is no array.
abbrev pub AgreeMask : ℕ → Option Array → Option Array → Type 0
AgreeMask n a a' = (b : ℕ) → b < n → row_on a b ≡ row_on a' b

-- A continuation is replaced by one that is equal everywhere.
pub bind_cong :
    {A B : Type 0} (m : M A) (k k' : A → M B) → ((a : A) → k a ≡ k' a) → (m >>= k) ≡ (m >>= k')
bind_cong m k k' h = ap (λ (f : _). m >>= f) (fun_ext h)

pub for_range_cong :
    {A : Type 0} (n i : ℕ) (a : A) (body body' : ℕ → A → M A)
    → ((k : ℕ) → k < i + n → (a : A) → body k a ≡ body' k a)
    → for_range n i a body ≡ for_range n i a body'
unfolding for_range
for_range_cong zero i a body body' h = refl
for_range_cong (suc n) i a body body' h =
    ap (λ m. m >>= λ b. for_range n (suc i) b body) (h i (omega arith) a)
    ∙ bind_cong (body' i a) _ _ λ b. for_range_cong n (suc i) b body body' λ k l. h k (omega arith)

-- The loop over the rows of the batch
pub over_batch_cong :
    {A : Type 0} (n : ℕ) (a : A) (body body' : ℕ → A → M A)
    → ((b : ℕ) → b < n → (a : A) → body b a ≡ body' b a)
    → for_range n 0 a body ≡ for_range n 0 a body'
over_batch_cong n a body body' h = for_range_cong n 0 a body body' λ k l. h k (omega arith)

module _ (g : Geometry) (active active' : Option Array) (on : AgreeMask g.bs active active') where
  over_rows_cong :
      (changed : Bool) (call call' : ℕ → M Bool)
      → ((b : ℕ) → b < g.bs → call b ≡ call' b)
      → over_rows g active changed call ≡ over_rows g active' changed call'
  unfolding over_rows
  over_rows_cong changed call call' h =
      over_batch_cong g.bs changed _ _ λ b l c. rw (on b l, h b l) refl

  module _ (lengths lengths' : Array) (same : Agree g.bs lengths lengths') where
    validate_lengths_cong : validate_lengths g lengths active ≡ validate_lengths g lengths' active'
    unfolding validate_lengths
    validate_lengths_cong = over_batch_cong g.bs tt _ _ λ b l c. rw (on b l, same b l) refl

    prefill_row_cong : (b : ℕ) → b < g.bs → prefill_row g lengths b ≡ prefill_row g lengths' b
    unfolding prefill_row
    prefill_row_cong b l = rw (same b l) refl

    pub prefill_rows_cong : prefill_rows g lengths active ≡ prefill_rows g lengths' active'
    unfolding prefill_rows
    prefill_rows_cong =
        let rows =
          over_rows_cong false (prefill_row g lengths) (prefill_row g lengths')
            λ b l. prefill_row_cong b l in
        rw (validate_lengths_cong, rows) refl

  chunk_evict_cong :
      (layer from : ℕ) → chunk_evict g layer from active ≡ chunk_evict g layer from active'
  unfolding chunk_evict
  chunk_evict_cong layer from = rw (over_rows_cong false _ _ λ b l. refl) refl

  prefill_chunk_cong :
      (layer from to : ℕ)
      → prefill_chunk g layer from to active ≡ prefill_chunk g layer from to active'
  unfolding prefill_chunk
  prefill_chunk_cong layer from to =
      let ensures = λ (evicted : Bool).
        ap (λ m. m >>= λ changed. if changed then kv_flush_page_table else pure tt)
          (over_rows_cong evicted _ _ λ b l. refl) in
      rw (chunk_evict_cong layer from) (
        ap (λ m. if to == from then pure tt else m)
          (bind_cong (chunk_evict g layer from active') _ _ ensures))

  pub checked_chunk_cong :
      (layer from to : ℤ)
      → checked_chunk g layer from to active ≡ checked_chunk g layer from to active'
  unfolding checked_chunk
  checked_chunk_cong layer from to =
      rw (prefill_chunk_cong (pos_part layer) (pos_part from) (pos_part to)) refl

  module _ (positions positions' : Array) (same : Agree g.bs positions positions') where
    decode_check_cong :
        decode_check g (some positions) active ≡ decode_check g (some positions') active'
    unfolding decode_check position_of
    decode_check_cong = over_batch_cong g.bs tt _ _ λ b l c. rw (on b l, same b l) refl

    decode_row_cong :
        (b : ℕ)
        → b < g.bs
        → (changed : Bool)
        → decode_row g (some positions) active b changed
          ≡ decode_row g (some positions') active' b changed
    unfolding decode_row position_of
    decode_row_cong b l changed = rw (on b l, same b l) refl

    pub step_decode_cong :
        step_decode_positions g (some positions) active
        ≡ step_decode_positions g (some positions') active'
    unfolding step_decode_positions kv_step_decode_positions
    step_decode_cong =
        let rows : for_range g.bs 0 false (decode_row g (some positions) active)
            ≡ for_range g.bs 0 false (decode_row g (some positions') active') =
          over_batch_cong g.bs false _ _ decode_row_cong in
        rw (decode_check_cong, rows) refl

pub set_cache_seqlens_cong :
    (g : Geometry) (a a' : Array)
    → Agree g.bs a a'
    → set_cache_seqlens g (some a) ≡ set_cache_seqlens g (some a')
unfolding set_cache_seqlens
set_cache_seqlens_cong g a a' same =
    let written : for_range g.bs 0 tt (λ b _. write_seqlen b (a b))
        ≡ for_range g.bs 0 tt (λ b _. write_seqlen b (a' b)) =
      over_batch_cong g.bs tt _ _ λ b l c. ap (λ z. write_seqlen b z) (same b l) in
    rw (validate_lengths_cong g none none (λ b l. refl) a a' same, written) refl
