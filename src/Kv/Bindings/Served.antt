-- ===== src/Kv/Bindings/Served.antt =====
-- The methods of src/bindings/kv.cpp and the ends of the lists that Python gives them.
use cohere_megakernel.Common.{
  ℕ, ◌*◌, ◌^◌, ◌%◌, ◌≤◌, ◌≡◌, refl, ap, ◌∙◌, arith, Bool, true, false, ◌&&◌, ltb, Bool-cases, inl,
  inr, Option, none, some, List, [], ◌∷◌, ◌++◌, length,
}
use cohere_megakernel.Common.Int.{ℤ, pos, negsuc, pos_part}
use cohere_megakernel.Kv.State.{Geometry, State}
use cohere_megakernel.Kv.Store.{M, pure, ◌>>=◌}
use cohere_megakernel.Kv.Decode.{Array, step_decode_positions, set_cache_seqlens}
use cohere_megakernel.Kv.Prefill.{
  prepare_prefill, prepare_prefill_masked, step_prefill_chunk_masked,
}
use cohere_megakernel.Kv.Attach.{prefix_attach_batch, prefix_hash_bytes}
use cohere_megakernel.Kv.Rebind.{rebind}
use cohere_megakernel.Kv.Bindings.{
  Memory, data_of, as_int32, as_size_t, check_batch_len, Answer, native, void, flagged, handle,
  Method, batch_fits, serve, call_prepare_prefill, call_prepare_prefill_masked,
  call_step_prefill_chunk, call_step_prefill_chunk_masked, call_step_decode_positions,
  call_set_cache_seqlens, call_free_row, call_rebind, call_prefix_attach, call_prefix_attach_batch,
  call_prefix_can_attach, call_prefix_publish,
}
use cohere_megakernel.Kv.Bindings.Agree.{Agree, set_cache_seqlens_cong}
use cohere_megakernel.Kv.Bindings.Within.{
  on_data, element-lt, guarded_cong, batch_len, prepare_cong, prepare_masked_cong,
  prepare_mask_cong, chunk_mask_cong, decode_cong, decode_mask_cong, rebind_cong, attach_cong,
  attach_batch_cong, can_attach_cong, publish_cong,
}

-- A vector of 4-byte numbers lies in the address space.
abbrev pub Fits : Method → Type 0
Fits (call_prefix_attach_batch keys key_len rows blocks from) = length rows * 4 ≤ 2 ^ 47
Fits m = Unit {0}

rebind_len :
    (src_rows : List ℤ) (new_bs : ℤ)
    → check_batch_len src_rows new_bs ≡ true
    → pos_part new_bs ≤ length src_rows
unfolding check_batch_len as_size_t
rebind_len src_rows (pos n) h = ground arith
rebind_len src_rows (negsuc n) h = omega arith

as_int32-le : (n : ℕ) → pos_part (as_int32 n) ≤ n
unfolding as_int32
as_int32-le n = elim (Bool-cases (ltb (n % 2 ^ 32) (2 ^ 31))) [
  | inl small ↦ rw small (omega arith)
  | inr large ↦ rw large (omega arith)
]

-- The lists of a batch that fits, and its blob where the keys have the digests' size
batch_lens :
    (keys : List ℕ) (key_len : ℤ) (rows blocks from : List ℤ)
    → length rows * 4 ≤ 2 ^ 47
    → batch_fits keys key_len rows blocks from ≡ true
    → (length blocks ≡ length rows)
      × (length from ≡ length rows)
      × (key_len ≡ pos prefix_hash_bytes → length keys ≡ length rows * prefix_hash_bytes)
unfolding batch_fits as_size_t
batch_lens keys key_len rows blocks from small fits =
    (ground arith, ground arith, λ e. (let tested = rw e at fits in ground arith))

-- Two pointers that are null, or give the same `n` elements
data SameData (n : ℕ) : Option Array → Option Array → Type 0 where
  both_null : SameData n none none
  points : {a a' : Array} → Agree n a a' → SameData n (some a) (some a')

data_same :
    (nulls : Bool) (xs : List ℤ) (behind behind' : ℕ → ℤ) (n : ℕ)
    → n ≤ length xs
    → SameData n (data_of nulls behind xs) (data_of nulls behind' xs)
unfolding data_of
data_same true [] behind behind' n le = both_null
data_same false [] behind behind' n le = points λ b l. absurd (omega arith)
data_same nulls (x ∷ xs) behind behind' n le =
    points λ b l. element-lt (x ∷ xs) behind behind' b (omega arith)

-- A batch with null pointers throws whatever its other arguments are.
attach_alike :
    (g : Geometry) (tail tail' keys : List ℕ) (key_len count : ℤ) (p p' q q' r r' : Option Array)
    → (key_len ≡ pos prefix_hash_bytes → pos_part count * prefix_hash_bytes ≤ length keys)
    → SameData (pos_part count) p p'
    → SameData (pos_part count) q q'
    → SameData (pos_part count) r r'
    → prefix_attach_batch g (some (keys ++ tail)) key_len p q r count
      ≡ prefix_attach_batch g (some (keys ++ tail')) key_len p' q' r' count
unfolding prefix_attach_batch
attach_alike g tail tail' keys key_len count p p' q q' r r' enough both_null _ _ = refl
attach_alike g tail tail' keys key_len count p p' q q' r r' enough (points a) both_null _ = refl
attach_alike g tail tail' keys key_len count p p' q q' r r' enough (points a) (points b) both_null =
    refl
attach_alike g tail tail' keys key_len count p p' q q' r r' enough (points a) (points b)
      (points c) =
    attach_batch_cong g tail tail' keys key_len count _ _ _ _ _ _ enough a b c

module _ (g : Geometry) (nulls : Bool) (mem mem' : Memory) where
  -- A call that reads the first `bs` elements of one list, behind the test of the list's length
  one_list :
      (k : ℕ) (xs : List ℤ) (c : Bool) (f : Option Array → M Answer)
      → (c ≡ true → check_batch_len xs (pos g.bs) ≡ true)
      → ((a a' : Array) → Agree g.bs a a' → f (some a) ≡ f (some a'))
      → c ≡ true
      → f (data_of nulls (mem.behind k) xs) ≡ f (data_of nulls (mem'.behind k) xs)
  one_list k xs c f tests h passed =
      let n = batch_len xs g.bs (tests passed) in
      on_data nulls xs (mem.behind k) (mem'.behind k) f
        λ a a' same. h a a' (λ b l. same b (omega arith))

  -- One of two lists at a time
  two_lists :
      (xs ys : List ℤ) (f : Option Array → Option Array → M Answer)
      → ((p : Option Array) (a a' : Array) → Agree g.bs a a' → f (some a) p ≡ f (some a') p)
      → ((p : Option Array) (a a' : Array) → Agree g.bs a a' → f p (some a) ≡ f p (some a'))
      → (check_batch_len xs (pos g.bs) && check_batch_len ys (pos g.bs)) ≡ true
      → f (data_of nulls (mem.behind 0) xs) (data_of nulls (mem.behind 1) ys)
        ≡ f (data_of nulls (mem'.behind 0) xs) (data_of nulls (mem'.behind 1) ys)
  two_lists xs ys f first second passed =
      one_list 0 xs _ (λ p. f p (data_of nulls (mem.behind 1) ys)) (λ h. ground arith) (first _)
        passed
      ∙ one_list 1 ys _ (λ p. f (data_of nulls (mem'.behind 0) xs) p) (λ h. ground arith) (second _)
          passed

  rebind_served :
      (old : State) (src_rows : List ℤ) (new_bs : ℤ) (page_table seqlens active : ℕ)
      → check_batch_len src_rows new_bs ≡ true
      → rebind g old (data_of nulls (mem.behind 0) src_rows) new_bs page_table seqlens active
        ≡ rebind g old (data_of nulls (mem'.behind 0) src_rows) new_bs page_table seqlens active
  rebind_served old src_rows new_bs page_table seqlens active passed =
      on_data nulls src_rows (mem.behind 0) (mem'.behind 0)
        (λ p. rebind g old p new_bs page_table seqlens active)
        λ a a' same.
          rebind_cong g old (length src_rows) page_table seqlens active new_bs a a'
            (rebind_len src_rows new_bs passed) same

  data_alike :
      (xs : List ℤ) (k n : ℕ)
      → n ≤ length xs
      → SameData n (data_of nulls (mem.behind k) xs) (data_of nulls (mem'.behind k) xs)
  data_alike xs k n le = data_same nulls xs (mem.behind k) (mem'.behind k) n le

  batch_served :
      (keys : List ℕ) (key_len : ℤ) (rows blocks from : List ℤ)
      → length rows * 4 ≤ 2 ^ 47
      → batch_fits keys key_len rows blocks from ≡ true
      → prefix_attach_batch g
          (some (keys ++ mem.tail))
          key_len
          (data_of nulls (mem.behind 0) rows)
          (data_of nulls (mem.behind 1) blocks)
          (data_of nulls (mem.behind 2) from)
          (as_int32 (length rows))
        ≡ prefix_attach_batch g
            (some (keys ++ mem'.tail))
            key_len
            (data_of nulls (mem'.behind 0) rows)
            (data_of nulls (mem'.behind 1) blocks)
            (data_of nulls (mem'.behind 2) from)
            (as_int32 (length rows))
  batch_served keys key_len rows blocks from small fits =
      let count = as_int32-le (length rows) in
      let lens = batch_lens keys key_len rows blocks from small fits in
      attach_alike g mem.tail mem'.tail keys key_len (as_int32 (length rows)) _ _ _ _ _ _
        (λ e. (let all = lens.2 e in omega arith)) (data_alike rows 0 _ count)
        (data_alike blocks 1 _ (rw lens.0 count)) (data_alike from 2 _ (rw lens.1 count))

-- What a method throws, returns and changes does not depend on what the memory holds behind the ends of
-- its lists and of its key: whatever lists and keys Python gives, no call reads behind them. The vectors of
-- a batch are supposed to lie within an address space of 2^47 bytes.
pub serve_lem :
    (nulls : Bool) (mem mem' : Memory) (g : Geometry) (old : State) (m : Method)
    → Fits m
    → serve nulls mem g old m ≡ serve nulls mem' g old m
unfolding serve
serve_lem nulls mem mem' g old (call_prepare_prefill lengths) fits = guarded_cong _ _ _ (
    one_list g nulls mem mem' 0 lengths _ (λ p. void (prepare_prefill g p)) (λ h. h)
      λ a a' same. ap (λ x. void x) (prepare_cong g a a' same))
serve_lem nulls mem mem' g old (call_prepare_prefill_masked lengths active) fits =
    guarded_cong _ _ _ (
      two_lists g nulls mem mem' lengths active (λ p q. void (prepare_prefill_masked g p q))
        (λ p a a' same. ap (λ x. void x) (prepare_masked_cong g p a a' same))
        (λ p a a' same. ap (λ x. void x) (prepare_mask_cong g p a a' same)))
serve_lem nulls mem mem' g old (call_step_prefill_chunk layer from to) fits = refl
serve_lem nulls mem mem' g old (call_step_prefill_chunk_masked layer from to active) fits =
    guarded_cong _ _ _ (
      one_list g nulls mem mem' 0 active _ (λ p. void (step_prefill_chunk_masked g layer from to p))
        (λ h. h) λ a a' same. ap (λ x. void x) (chunk_mask_cong g layer from to a a' same))
serve_lem nulls mem mem' g old (call_step_decode_positions positions active) fits =
    guarded_cong _ _ _ (
      two_lists g nulls mem mem' positions active (λ p q. void (step_decode_positions g p q))
        (λ p a a' same. ap (λ x. void x) (decode_cong g p a a' same))
        (λ p a a' same. ap (λ x. void x) (decode_mask_cong g p a a' same)))
serve_lem nulls mem mem' g old (call_set_cache_seqlens lengths) fits = guarded_cong _ _ _ (
    one_list g nulls mem mem' 0 lengths _ (λ p. void (set_cache_seqlens g p)) (λ h. h)
      λ a a' same. ap (λ x. void x) (set_cache_seqlens_cong g a a' same))
serve_lem nulls mem mem' g old (call_free_row row) fits = refl
serve_lem nulls mem mem' g old (call_rebind src_rows new_bs page_table seqlens active) fits =
    guarded_cong _ _ _ λ passed.
      ap (λ x. x >>= λ made. pure (handle made))
        (rebind_served g nulls mem mem' old src_rows new_bs page_table seqlens active passed)
serve_lem nulls mem mem' g old (call_prefix_attach key row block from) fits =
    ap (λ x. native (flagged x)) (attach_cong g mem.tail mem'.tail key row block from)
serve_lem nulls mem mem' g old (call_prefix_attach_batch keys key_len rows blocks from) fits =
    guarded_cong _ _ _ λ passed.
      ap (λ x. flagged x) (batch_served g nulls mem mem' keys key_len rows blocks from fits passed)
serve_lem nulls mem mem' g old (call_prefix_can_attach key block from) fits =
    ap (λ x. native (flagged x)) (can_attach_cong g mem.tail mem'.tail key block from)
serve_lem nulls mem mem' g old (call_prefix_publish key row block) fits =
    ap (λ x. native (flagged x)) (publish_cong g mem.tail mem'.tail key row block)
