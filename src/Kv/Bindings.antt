-- ===== src/Kv/Bindings.antt =====
-- The methods that src/bindings/kv.cpp gives to Python: the checks of the lengths of their lists, and the
-- calls of src/kv/cache.h behind them. A vector's `data()` is a function on indices that reads, behind the
-- end of the vector, whatever the memory holds there. Releasing the interpreter's lock is left out.
pub mod Agree
pub mod Batch
pub mod Served
pub mod Within
use cohere_megakernel.Common.{
  ℕ, zero, suc, ◌+◌, ◌-◌, ◌*◌, ◌^◌, ◌%◌, Bool, true, false, ◌||◌, ◌&&◌, not, Option, none, some,
  List, [], ◌∷◌, ◌++◌, ltb, ◌==◌, if◌then◌else◌, length,
}
use cohere_megakernel.Common.Int.{ℤ, pos, negsuc}
use cohere_megakernel.Kv.State.{Geometry, State}
use cohere_megakernel.Kv.Store.{M, pure, ◌>>=◌, ◌>>◌}
use cohere_megakernel.Kv.Decode.{Array, step_decode_positions, set_cache_seqlens, free_row}
use cohere_megakernel.Kv.Prefill.{
  prepare_prefill, prepare_prefill_masked, step_prefill_chunk, step_prefill_chunk_masked,
}
use cohere_megakernel.Kv.Attach.{prefix_attach, prefix_attach_batch, prefix_can_attach}
use cohere_megakernel.Kv.Publish.{prefix_publish}
use cohere_megakernel.Kv.Rebind.{rebind}

-- What lies behind the end of each vector, by the vector's place among the arguments, and behind the end
-- of a key
pub record Memory : Type 0 where
  pub behind : ℕ → ℕ → ℤ
  pub tail : List ℕ

-- The element `i`, or what lies behind the end
unfoldable pub element : List ℤ → (ℕ → ℤ) → Array
element [] behind i = behind i
element (x ∷ xs) behind zero = x
element (x ∷ xs) behind (suc i) = element xs behind i

-- `values.data()`, which may be null for an empty vector
unfoldable pub data_of : Bool → (ℕ → ℤ) → List ℤ → Option Array
data_of null_if_empty behind [] = if null_if_empty then none else some behind
data_of null_if_empty behind (x ∷ xs) = some (element (x ∷ xs) behind)

-- `key_bytes.data()`
abbrev pub key_data : Memory → List ℕ → Option (List ℕ)
key_data mem bytes = some (bytes ++ mem.tail)

-- `static_cast<int32_t>` of a `size_t`, and `static_cast<size_t>` of an `int32_t`
unfoldable pub as_int32 : ℕ → ℤ
as_int32 n = let m = n % 2 ^ 32 in if ltb m (2 ^ 31) then pos m else negsuc (2 ^ 32 - 1 - m)

unfoldable pub as_size_t : ℤ → ℕ
as_size_t (pos n) = n
as_size_t (negsuc n) = 2 ^ 64 - 1 - n

-- The test of `check_batch_len`
unfoldable pub check_batch_len : List ℤ → ℤ → Bool
check_batch_len values batch_size = length values == as_size_t batch_size

-- The values that the calls return
pub data Answer : Type 0 where
  no_value : Answer
  flag : Bool → Answer
  handle : Geometry → Answer

-- A binding throws `std::invalid_argument` or makes the native call.
pub data Bound : Type 0 where
  value_error : Bound
  native : M Answer → Bound

-- The methods that take arrays or keys, or rows and layers, with their arguments but for the stream
pub data Method : Type 0 where
  call_prepare_prefill : List ℤ → Method
  call_prepare_prefill_masked : List ℤ → List ℤ → Method
  call_step_prefill_chunk : ℤ → ℤ → ℤ → Method
  call_step_prefill_chunk_masked : ℤ → ℤ → ℤ → List ℤ → Method
  call_step_decode_positions : List ℤ → List ℤ → Method
  call_set_cache_seqlens : List ℤ → Method
  call_free_row : ℤ → Method
  call_rebind : List ℤ → ℤ → ℕ → ℕ → ℕ → Method
  call_prefix_attach : List ℕ → ℤ → ℤ → ℤ → Method
  call_prefix_attach_batch : List ℕ → ℤ → List ℤ → List ℤ → List ℤ → Method
  call_prefix_can_attach : List ℕ → ℤ → ℤ → Method
  call_prefix_publish : List ℕ → ℤ → ℤ → Method

abbrev pub void : M (Unit {0}) → M Answer
void m = m >> pure no_value

abbrev pub flagged : M Bool → M Answer
flagged m = m >>= λ b. pure (flag b)

abbrev pub guarded : Bool → M Answer → Bound
guarded true m = native m
guarded false m = value_error

-- The test that the three lists of a batch have one length, and that the key blob has `count * key_len`
-- bytes, a product of two `size_t`
unfoldable pub batch_fits : List ℕ → ℤ → List ℤ → List ℤ → List ℤ → Bool
batch_fits keys key_len rows blocks from =
    let count = length rows in
    (length blocks == count)
    && ((length from == count) && (length keys == (count * as_size_t key_len) % 2 ^ 64))

-- A method of the handle with the dimensions `g`; `old` is its state, for `rebind`, which makes a new one.
unfoldable pub serve : Bool → Memory → Geometry → State → Method → Bound
serve nulls mem g old (call_prepare_prefill lengths) =
    guarded (check_batch_len lengths (pos g.bs))
      (void (prepare_prefill g (data_of nulls (mem.behind 0) lengths)))
serve nulls mem g old (call_prepare_prefill_masked lengths active) =
    guarded (check_batch_len lengths (pos g.bs) && check_batch_len active (pos g.bs)) (
      void (
        prepare_prefill_masked g (data_of nulls (mem.behind 0) lengths)
          (data_of nulls (mem.behind 1) active)))
serve nulls mem g old (call_step_prefill_chunk layer from to) =
    native (void (step_prefill_chunk g layer from to))
serve nulls mem g old (call_step_prefill_chunk_masked layer from to active) =
    guarded (check_batch_len active (pos g.bs))
      (void (step_prefill_chunk_masked g layer from to (data_of nulls (mem.behind 0) active)))
serve nulls mem g old (call_step_decode_positions positions active) =
    guarded (check_batch_len positions (pos g.bs) && check_batch_len active (pos g.bs)) (
      void (
        step_decode_positions g (data_of nulls (mem.behind 0) positions)
          (data_of nulls (mem.behind 1) active)))
serve nulls mem g old (call_set_cache_seqlens lengths) =
    guarded (check_batch_len lengths (pos g.bs))
      (void (set_cache_seqlens g (data_of nulls (mem.behind 0) lengths)))
serve nulls mem g old (call_free_row row) = native (void (free_row g row))
serve nulls mem g old (call_rebind src_rows new_bs page_table seqlens active) =
    guarded (check_batch_len src_rows new_bs) (
      rebind g old (data_of nulls (mem.behind 0) src_rows) new_bs page_table seqlens active
      >>= λ made. pure (handle made))
serve nulls mem g old (call_prefix_attach key row block from) =
    native (flagged (prefix_attach g (key_data mem key) (as_int32 (length key)) row block from))
serve nulls mem g old (call_prefix_attach_batch keys key_len rows blocks from) =
    guarded (batch_fits keys key_len rows blocks from) (
      flagged (
        prefix_attach_batch g (key_data mem keys) key_len (data_of nulls (mem.behind 0) rows)
          (data_of nulls (mem.behind 1) blocks) (data_of nulls (mem.behind 2) from)
          (as_int32 (length rows))))
serve nulls mem g old (call_prefix_can_attach key block from) =
    native (flagged (prefix_can_attach g (key_data mem key) (as_int32 (length key)) block from))
serve nulls mem g old (call_prefix_publish key row block) =
    native (flagged (prefix_publish g (key_data mem key) (as_int32 (length key)) row block))
