-- ===== src/Kv/Bindings/Within.antt =====
-- The bindings of src/bindings/kv.cpp never let a call of src/kv/cache.cpp read behind the end of a list
-- or of a key.
use cohere_megakernel.Common.{
  ℕ, zero, suc, ◌+◌, ◌*◌, ◌^◌, ◌%◌, ◌≤◌, ◌<◌, ◌≡◌, refl, ap, arith, Bool, true, false, ◌||◌, ltb,
  sym, not, Bool-cases, inl, inr, Option, none, some, List, [], ◌∷◌, ◌++◌, length, if◌then◌else◌,
}
use mathlib.Core.Bool.{false≢true}
use cohere_megakernel.Common.Int.{ℤ, pos, negsuc, pos_part, is_neg, is_nonpos, int_eq}
use cohere_megakernel.Kv.State.{Geometry, State}
use cohere_megakernel.Kv.Store.{M, throw}
use cohere_megakernel.Kv.Global.{missing_arguments}
use cohere_megakernel.Kv.Decode.{Array, step_decode_positions}
use cohere_megakernel.Kv.Prefill.{
  prepare_prefill, prepare_prefill_masked, step_prefill_chunk_masked,
}
use cohere_megakernel.Kv.Attach.{
  Batch, prefix_attach, prefix_attach_batch, prefix_can_attach, parse_block_hash, prefix_hash_bytes,
}
use cohere_megakernel.Kv.Publish.{prefix_publish}
use cohere_megakernel.Kv.Rebind.{rebind}
use cohere_megakernel.Kv.Bindings.{
  element, data_of, as_int32, as_size_t, check_batch_len, Answer, guarded, native,
}
use cohere_megakernel.Kv.Bindings.Agree.{
  Agree, AgreeMask, prefill_rows_cong, checked_chunk_cong, step_decode_cong,
}
use cohere_megakernel.Kv.Bindings.Batch.{
  parse_block_hash_cong, attach_checked_cong, check_sources_cong, rebuild_cong,
}

pub element-lt :
    (xs : List ℤ) (behind behind' : ℕ → ℤ)
    → Agree (length xs) (element xs behind) (element xs behind')
unfolding element
element-lt [] behind behind' b l = absurd (omega arith)
element-lt (x ∷ xs) behind behind' zero l = refl
element-lt (x ∷ xs) behind behind' (suc b) l = element-lt xs behind behind' b (omega arith)

-- What reads of a vector's data only the elements gives the same for every memory.
pub on_data :
    {X : Type 0} (nulls : Bool) (xs : List ℤ) (behind behind' : ℕ → ℤ) (f : Option Array → X)
    → ((a a' : Array) → Agree (length xs) a a' → f (some a) ≡ f (some a'))
    → f (data_of nulls behind xs) ≡ f (data_of nulls behind' xs)
unfolding data_of
on_data true [] behind behind' f h = refl
on_data false [] behind behind' f h = h behind behind' λ b l. absurd (omega arith)
on_data nulls (x ∷ xs) behind behind' f h = h _ _ (element-lt (x ∷ xs) behind behind')

pub guarded_cong : (c : Bool) (m m' : M Answer) → (c ≡ true → m ≡ m') → guarded c m ≡ guarded c m'
guarded_cong true m m' h = ap (λ x. native x) (h refl)
guarded_cong false m m' h = refl

-- A list that has passed the test has as many elements as the batch.
pub batch_len : (xs : List ℤ) (n : ℕ) → check_batch_len xs (pos n) ≡ true → length xs ≡ n
unfolding check_batch_len as_size_t
batch_len xs n h = ground arith

mask_of : (n : ℕ) (a a' : Array) → Agree n a a' → AgreeMask n (some a) (some a')
mask_of n a a' same b l = ap (λ z. not (int_eq z (pos 0))) (same b l)

module _ (g : Geometry) where
  pub prepare_cong :
      (a a' : Array) → Agree g.bs a a' → prepare_prefill g (some a) ≡ prepare_prefill g (some a')
  unfolding prepare_prefill
  prepare_cong a a' same = prefill_rows_cong g none none (λ b l. refl) a a' same

  pub prepare_masked_cong :
      (active : Option Array) (a a' : Array)
      → Agree g.bs a a'
      → prepare_prefill_masked g (some a) active ≡ prepare_prefill_masked g (some a') active
  unfolding prepare_prefill_masked
  prepare_masked_cong none a a' same = refl
  prepare_masked_cong (some m) a a' same =
      prefill_rows_cong g (some m) (some m) (λ b l. refl) a a' same

  pub prepare_mask_cong :
      (lengths : Option Array) (m m' : Array)
      → Agree g.bs m m'
      → prepare_prefill_masked g lengths (some m) ≡ prepare_prefill_masked g lengths (some m')
  unfolding prepare_prefill_masked
  prepare_mask_cong none m m' same = refl
  prepare_mask_cong (some a) m m' same =
      prefill_rows_cong g (some m) (some m') (mask_of g.bs m m' same) a a (λ b l. refl)

  pub chunk_mask_cong :
      (layer from to : ℤ) (m m' : Array)
      → Agree g.bs m m'
      → step_prefill_chunk_masked g layer from to (some m)
        ≡ step_prefill_chunk_masked g layer from to (some m')
  unfolding step_prefill_chunk_masked
  chunk_mask_cong layer from to m m' same =
      checked_chunk_cong g (some m) (some m') (mask_of g.bs m m' same) layer from to

  pub decode_cong :
      (active : Option Array) (a a' : Array)
      → Agree g.bs a a'
      → step_decode_positions g (some a) active ≡ step_decode_positions g (some a') active
  decode_cong active a a' same = step_decode_cong g active active (λ b l. refl) a a' same

  pub decode_mask_cong :
      (positions : Option Array) (m m' : Array)
      → Agree g.bs m m'
      → step_decode_positions g positions (some m) ≡ step_decode_positions g positions (some m')
  unfolding step_decode_positions
  decode_mask_cong none m m' same = refl
  decode_mask_cong (some a) m m' same =
      step_decode_cong g (some m) (some m') (mask_of g.bs m m' same) a a (λ b l. refl)

  pub rebind_cong :
      (old : State) (n : ℕ) (page_table seqlens active : ℕ) (new_bs : ℤ) (a a' : Array)
      → pos_part new_bs ≤ n
      → Agree n a a'
      → rebind g old (some a) new_bs page_table seqlens active
        ≡ rebind g old (some a') new_bs page_table seqlens active
  unfolding rebind
  rebind_cong old n page_table seqlens active new_bs a a' le same =
      let same' : Agree (pos_part new_bs) a a' = λ b l. same b (omega arith) in
      rw
        (
          check_sources_cong g a a' (pos_part new_bs) same' (pos_part new_bs) 0 [] (omega arith),
          rebuild_cong g a a' (pos_part new_bs) same' old page_table seqlens active,
        )
        refl

pos_injective : {m n : ℕ} → pos m ≡ pos n → m ≡ n
pos_injective e = ap pos_part e

is_negsuc : {m n : ℕ} → ¬ (negsuc m ≡ pos n)
is_negsuc e = false≢true (sym (ap is_neg e))

-- A key that is 32 bytes long for the cache has at least so many.
key_long :
    (key : List ℕ) → as_int32 (length key) ≡ pos prefix_hash_bytes → prefix_hash_bytes ≤ length key
unfolding as_int32
key_long key h =
    let n = length key in
    elim (Bool-cases (ltb (n % 2 ^ 32) (2 ^ 31))) [
      | inl small ↦ let e = pos_injective (rw small at h) in omega arith
      | inr large ↦ absurd (is_negsuc (rw large at h))
    ]

item_fits :
    (key_len : ℤ) (keys : List ℕ) (count i : ℕ)
    → i < count
    → key_len ≡ pos prefix_hash_bytes
    → count * prefix_hash_bytes ≤ length keys
    → i * pos_part key_len + prefix_hash_bytes ≤ length keys
item_fits key_len keys count i l e le =
    let len : pos_part key_len ≡ prefix_hash_bytes = ap pos_part e in rw len (omega arith)

module _ (g : Geometry) (tail tail' : List ℕ) where
  key_cong :
      (key : List ℕ)
      → parse_block_hash (some (key ++ tail)) (as_int32 (length key))
        ≡ parse_block_hash (some (key ++ tail')) (as_int32 (length key))
  key_cong key =
      parse_block_hash_cong 0 key tail tail' (as_int32 (length key))
        λ e. (let l = key_long key e in omega arith)

  pub can_attach_cong :
      (key : List ℕ) (block from : ℤ)
      → prefix_can_attach g (some (key ++ tail)) (as_int32 (length key)) block from
        ≡ prefix_can_attach g (some (key ++ tail')) (as_int32 (length key)) block from
  unfolding prefix_can_attach
  can_attach_cong key block from = rw (key_cong key) refl

  pub publish_cong :
      (key : List ℕ) (row block : ℤ)
      → prefix_publish g (some (key ++ tail)) (as_int32 (length key)) row block
        ≡ prefix_publish g (some (key ++ tail')) (as_int32 (length key)) row block
  unfolding prefix_publish
  publish_cong key row block = rw (key_cong key) refl

  -- A batch whose key blob has the bytes of `count` keys
  pub attach_batch_cong :
      (keys : List ℕ) (key_len count : ℤ) (a b c a' b' c' : Array)
      → (key_len ≡ pos prefix_hash_bytes → pos_part count * prefix_hash_bytes ≤ length keys)
      → Agree (pos_part count) a a'
      → Agree (pos_part count) b b'
      → Agree (pos_part count) c c'
      → prefix_attach_batch g (some (keys ++ tail)) key_len (some a) (some b) (some c) count
        ≡ prefix_attach_batch g (some (keys ++ tail')) key_len (some a') (some b') (some c') count
  unfolding prefix_attach_batch
  attach_batch_cong keys key_len count a b c a' b' c' enough rows blocks from =
      let batch : List ℕ → Array → Array → Array → Batch = λ keys rows blocks from. record {
        keys = keys;
        key_len = key_len;
        rows = rows;
        logical_blocks = blocks;
        required_from_blocks = from;
      } in
      ap (λ m. if is_nonpos key_len || is_nonpos count then throw missing_arguments else m)
        (attach_checked_cong g (pos_part count) (batch (keys ++ tail) a b c)
          (batch (keys ++ tail') a' b' c')
          (record {
            key_len = refl;
            rows = rows;
            blocks = blocks;
            from = from;
            keys = λ i l.
                parse_block_hash_cong (i * pos_part key_len) keys tail tail' key_len
                  (λ e. item_fits key_len keys (pos_part count) i l e (enough e));
          }))

  pub attach_cong :
      (key : List ℕ) (row block from : ℤ)
      → prefix_attach g (some (key ++ tail)) (as_int32 (length key)) row block from
        ≡ prefix_attach g (some (key ++ tail')) (as_int32 (length key)) row block from
  unfolding prefix_attach
  attach_cong key row block from =
      attach_batch_cong key (as_int32 (length key)) (pos 1) _ _ _ _ _ _
        (λ e. (let l = key_long key e in omega arith)) (λ b l. refl) (λ b l. refl) (λ b l. refl)
