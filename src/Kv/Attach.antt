-- ===== src/Kv/Attach.antt =====
-- `prefix_attach`, `prefix_attach_batch` and `prefix_can_attach` of src/kv/cache.cpp.
-- `keys` is the packed byte array, the other arrays are functions on their indices, and `none`
-- stands for a null pointer.
pub mod Check
pub mod Keep
pub mod Atomic
pub mod Destination
pub mod Placed
use cohere_megakernel.Common.{
  ℕ, zero, suc, ◌+◌, ◌*◌, ◌^◌, min, Bool, true, false, ◌||◌, ◌&&◌, not, Option, none, some, List,
  [], ◌∷◌, ◌++◌, ltb, leb, ◌==◌, if◌then◌else◌, length, take, drop, has,
}
use cohere_megakernel.Common.Int.{ℤ, pos, negsuc, pos_part, is_neg, is_nonpos, below, int_eq}
use cohere_megakernel.Kv.Pool.{BlockHash}
use cohere_megakernel.Kv.Prefix.{Entry, find}
use cohere_megakernel.Kv.Global.{
  Global, KvError, Attempt, done, fails, key_not_sha256_sized, incompatible_layer_count,
  out_of_range, row_or_block_out_of_range, duplicate_destination, missing_arguments,
}
use cohere_megakernel.Kv.State.{Geometry, kv_pt, kv_layer_is_sliding}
use cohere_megakernel.Kv.Store.{
  Store, M, pure, throw, ◌>>=◌, ◌>>◌, require, look, read_page, write_page, kv_flush_page_table,
}
use cohere_megakernel.Kv.Rows.{retain_block, release_block}
use cohere_megakernel.Kv.Decode.{Array}

infixl 5 ◌then_try◌
abbrev pub ◌then_try◌ : {A B : Type 0} → Attempt A → (A → Attempt B) → Attempt B
done a then_try k = k a
fails e then_try k = fails e

-- `kPrefixHashBytes`
abbrev pub prefix_hash_bytes : ℕ
prefix_hash_bytes = 32

unfoldable pub parse_block_hash : Option (List ℕ) → ℤ → Attempt BlockHash
parse_block_hash none key_len = fails key_not_sha256_sized
parse_block_hash (some key) key_len =
    if int_eq key_len (pos prefix_hash_bytes)
    then done (record { bytes = take prefix_hash_bytes key })
    else fails key_not_sha256_sized

-- The loop of `prefix_entry_can_attach` from layer `li` on.
unfoldable pub layers_can_attach : Geometry → Global → ℕ → ℕ → ℕ → Entry → Attempt Bool
layers_can_attach g gl logical_block required_from li [] = done true
layers_can_attach g gl logical_block required_from li (id ∷ ids) =
    let rest = layers_can_attach g gl logical_block required_from (suc li) ids in
    let absent =
      if not (kv_layer_is_sliding g li) || leb required_from logical_block
      then done false
      else rest in
    elim id [
      | pos i ↦
          if ltb i gl.pool.size
          then (if (gl.pool.block i).has_hash then rest else absent)
          else fails out_of_range
      | negsuc _ ↦ absent
    ]

unfoldable pub prefix_entry_can_attach : Geometry → Global → Entry → ℕ → ℕ → Attempt Bool
prefix_entry_can_attach g gl entry logical_block required_from =
    if length entry == g.num_layers
    then layers_can_attach g gl logical_block required_from 0 entry
    else fails incompatible_layer_count

-- `std::max(0, std::min(required, max_pages_per_seq))`
unfoldable pub clamp_required : Geometry → ℤ → ℕ
clamp_required g (pos n) = min n g.max_pages_per_seq
clamp_required g (negsuc _) = 0

-- The lookup and the test of one key: its entry, or `none` where it cannot be attached.
unfoldable pub usable_entry : Geometry → Global → BlockHash → ℕ → ℕ → Attempt (Option Entry)
usable_entry g gl h logical_block required_from = elim (find h gl.cache) [
  | none ↦ done none
  | some entry ↦ prefix_entry_can_attach g gl entry logical_block required_from then_try λ can.
      done (if can then some entry else none)
]

-- Row and block in range, with a row that is not negative.
unfoldable pub in_range : Geometry → ℤ → ℤ → Bool
in_range g row logical_block =
    not (is_neg row)
    && below row g.bs
    && (not (is_neg logical_block) && below logical_block g.max_pages_per_seq)

-- The `uint64_t` that stands for a destination.
unfoldable pub destination : ℕ → ℕ → ℕ
destination row logical_block = row * 2 ^ 32 + logical_block

-- The arguments of a batch, without the null tests.
pub record Batch : Type 0 where
  pub keys : List ℕ
  pub key_len : ℤ
  pub rows : Array
  pub logical_blocks : Array
  pub required_from_blocks : Array

-- The key of item `i` and its entry.
unfoldable pub lookup_item : Geometry → Global → Batch → ℕ → Attempt (Option Entry)
lookup_item g gl a i =
    parse_block_hash (some (drop (i * pos_part a.key_len) a.keys)) a.key_len then_try λ h.
    usable_entry g gl h (pos_part (a.logical_blocks i))
      (clamp_required g (a.required_from_blocks i))

-- The destination of item `i`.
abbrev pub destination_of : Batch → ℕ → ℕ
destination_of a i = destination (pos_part (a.rows i)) (pos_part (a.logical_blocks i))

-- The validation of item `i`, behind the destinations seen before.
unfoldable pub check_item : Geometry → Global → Batch → ℕ → List ℕ → Attempt (Option Entry)
check_item g gl a i seen =
    if not (in_range g (a.rows i) (a.logical_blocks i))
    then fails row_or_block_out_of_range
    else if has (destination_of a i) seen
    then fails duplicate_destination
    else lookup_item g gl a i

abbrev pub with_entry : Entry → Option (List Entry) → Option (List Entry)
with_entry e none = none
with_entry e (some es) = some (e ∷ es)

-- The first loop of the batch: all entries, or `none` where one is unavailable.
unfoldable pub check_items :
    Geometry → Global → Batch → ℕ → ℕ → List ℕ → Attempt (Option (List Entry))
check_items g gl a zero i seen = done (some [])
check_items g gl a (suc n) i seen = check_item g gl a i seen then_try λ found. elim found [
  | none ↦ done none
  | some e ↦ check_items g gl a n (suc i) (destination_of a i ∷ seen) then_try λ rest.
      done (with_entry e rest)
]

-- `if (slot == cached) continue; if (slot >= 0) release; retain(cached); slot = cached;`
unfoldable pub attach_slot : ℕ → ℤ → M (Unit {0})
attach_slot k cached = do
  slot ← read_page k
  if int_eq slot cached then pure tt else do
    if is_neg slot then pure tt else release_block slot
    retain_block cached
    write_page k cached

-- The second loop for one item, from layer `li` on.
unfoldable pub attach_layers : Geometry → ℕ → ℕ → ℕ → Entry → M (Unit {0})
attach_layers g row logical_block li [] = pure tt
attach_layers g row logical_block li (cached ∷ ids) = do
  if is_neg cached then pure tt else attach_slot (kv_pt g li row logical_block) cached
  attach_layers g row logical_block (suc li) ids

unfoldable pub attach_items : Geometry → Batch → ℕ → List Entry → M (Unit {0})
attach_items g a i [] = pure tt
attach_items g a i (entry ∷ entries) = do
  attach_layers g (pos_part (a.rows i)) (pos_part (a.logical_blocks i)) 0 entry
  attach_items g a (suc i) entries

-- What follows the validation: nothing changes where an entry is unavailable.
unfoldable pub attach_found : Geometry → Batch → Option (List Entry) → M Bool
attach_found g a none = pure false
attach_found g a (some entries) = do attach_items g a 0 entries; kv_flush_page_table; pure true

-- The batch behind its null tests.
unfoldable pub attach_checked : Geometry → Batch → ℕ → M Bool
attach_checked g a count = do
  found ← look λ gl. check_items g gl a count 0 []
  attach_found g a found

-- The pointers of the call, and the batch where none is null.
unfoldable pub prefix_attach_batch :
    Geometry → Option (List ℕ) → ℤ → Option Array → Option Array → Option Array → ℤ → M Bool
prefix_attach_batch g (some keys) key_len (some rows) (some blocks) (some required) count =
    if is_nonpos key_len || is_nonpos count
    then throw missing_arguments
    else attach_checked g
        (record {
          keys = keys;
          key_len = key_len;
          rows = rows;
          logical_blocks = blocks;
          required_from_blocks = required;
        })
        (pos_part count)
prefix_attach_batch g keys key_len rows blocks required count = throw missing_arguments

unfoldable pub prefix_attach : Geometry → Option (List ℕ) → ℤ → ℤ → ℤ → ℤ → M Bool
prefix_attach g key key_len row logical_block required_from =
    prefix_attach_batch g key key_len (some λ _. row) (some λ _. logical_block)
      (some λ _. required_from) (pos 1)

abbrev pub is_found : Option Entry → M Bool
is_found none = pure false
is_found (some _) = pure true

-- Leaves everything as it is.
unfoldable pub prefix_can_attach : Geometry → Option (List ℕ) → ℤ → ℤ → ℤ → M Bool
prefix_can_attach g none key_len logical_block required_from = throw missing_arguments
prefix_can_attach g (some key) key_len logical_block required_from = do
  require (not (is_nonpos key_len)) missing_arguments
  require (not (is_neg logical_block)) row_or_block_out_of_range
  require (below logical_block g.max_pages_per_seq) row_or_block_out_of_range
  found ← look λ gl. parse_block_hash (some key) key_len then_try λ h.
      usable_entry g gl h (pos_part logical_block) (clamp_required g required_from)
  is_found found
