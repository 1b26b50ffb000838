-- ===== src/Kv/Prefix.antt =====
-- The prefix cache of src/kv/cache.cpp: `g_prefix_cache`, a map from block hashes to entries.
-- The `std::unordered_map` is an association list of which only lookup, insertion of an absent key,
-- erasure, size and clearing are used; its order shows nowhere.
use cohere_megakernel.Common.{
  ℕ, ◌≡◌, refl, Bool, true, false, ◌||◌, ◌&&◌, not, Option, none, some, List, [], ◌∷◌, arith,
  Option-cases, inl, inr, ◌==◌, if◌then◌else◌, bytes_eq_iff, ◌↔◌, ap,
}
use cohere_megakernel.Common.Int.{ℤ, pos, negsuc, minus_one, is_neg, int_eq}
use cohere_megakernel.Kv.Pool.{BlockHash, hash_eq}

-- `PrefixCacheEntry::block_ids`, one id for each layer, -1 where the layer has no page
abbrev pub Entry : Type 0
Entry = List ℤ

abbrev pub PrefixCache : Type 0
PrefixCache = List (BlockHash × Entry)

unfoldable pub find : BlockHash → PrefixCache → Option Entry
find h [] = none
find h ((k, e) ∷ m) = if hash_eq k h then some e else find h m

unfoldable pub erase : BlockHash → PrefixCache → PrefixCache
erase h [] = []
erase h ((k, e) ∷ m) = if hash_eq k h then erase h m else (k, e) ∷ erase h m

-- The entry of a key that the cache has is written in place.
unfoldable pub replace : BlockHash → Entry → PrefixCache → PrefixCache
replace h d [] = []
replace h d ((k, e) ∷ m) = if hash_eq k h then (k, d) ∷ replace h d m else (k, e) ∷ replace h d m

pub hash_eq_iff : (a b : BlockHash) → (hash_eq a b ≡ true) ↔ (a ≡ b)
unfolding hash_eq
hash_eq_iff a b = (
  λ e. ap (λ l. record { bytes = l }) ((bytes_eq_iff a.bytes b.bytes).0 e),
  λ e. (bytes_eq_iff a.bytes b.bytes).1 (ap (λ (h : BlockHash). h.bytes) e),
)

pub find-erase :
    (h j : BlockHash) (m : PrefixCache)
    → find j (erase h m) ≡ (if hash_eq h j then none else find j m)
unfolding find erase
find-erase h j [] = ground arith
find-erase h j ((k, e) ∷ m) =
    ground (arith, hash_eq_iff k h, hash_eq_iff k j, hash_eq_iff h j, find-erase h j m)

abbrev pub over : Entry → Option Entry → Option Entry
over d none = none
over d (some e) = some d

pub find-replace :
    (h j : BlockHash) (d : Entry) (m : PrefixCache)
    → find j (replace h d m) ≡ (if hash_eq h j then over d (find j m) else find j m)
unfolding find replace
find-replace h j d [] = ground arith
find-replace h j d ((k, e) ∷ m) =
    ground (arith, hash_eq_iff k h, hash_eq_iff k j, hash_eq_iff h j, find-replace h j d m)

-- `if (id == block_id) id = -1`, for each id of the entry
unfoldable pub drop_id : ℤ → Entry → Entry
drop_id b [] = []
drop_id b (id ∷ ids) = (if int_eq id b then minus_one else id) ∷ drop_id b ids

-- Some id of the entry is a block.
unfoldable pub has_any : Entry → Bool
has_any [] = false
has_any (id ∷ ids) = not (is_neg id) || has_any ids

-- The part of `prefix_cache_remove_block_nolock` that edits the cache.
unfoldable pub remove_block : BlockHash → ℤ → PrefixCache → PrefixCache
unfolding drop_id has_any
remove_block h b m = elim (find h m) [
  | none ↦ m
  | some ids ↦ let left = drop_id b ids in if has_any left then replace h left m else erase h m
]

-- The entry names block `i`.
unfoldable pub lists : ℕ → Entry → Bool
lists i [] = false
lists i (id ∷ ids) = int_eq id (pos i) || lists i ids

abbrev pub lists? : ℕ → Option Entry → Bool
lists? i none = false
lists? i (some ids) = lists i ids

-- The cache names block `i` under the key `h`.
unfoldable pub holds : PrefixCache → BlockHash → ℕ → Bool
holds m h i = lists? i (find h m)

pub lists-drop_id :
    (i j : ℕ) (ids : Entry) → lists j (drop_id (pos i) ids) ≡ (lists j ids && not (i == j))
unfolding lists drop_id
lists-drop_id i j [] = refl
lists-drop_id i j (pos n ∷ ids) = ground (arith, lists-drop_id i j ids)
lists-drop_id i j (negsuc n ∷ ids) = ground (arith, lists-drop_id i j ids)

-- An entry with no block left names none.
pub lists_none : (j : ℕ) (ids : Entry) → has_any ids ≡ false → lists j ids ≡ false
unfolding lists has_any
lists_none j [] h = refl
lists_none j (pos n ∷ ids) h = cc
lists_none j (negsuc n ∷ ids) h = ground (arith, lists_none j ids)

-- Removing block `i` from the entry of key `h` takes exactly that: under every key the cache names
-- the blocks it named before, but not block `i` under `h`, whether the entry is edited or erased.
pub holds-remove_block :
    (h k : BlockHash) (i j : ℕ) (m : PrefixCache)
    → holds (remove_block h (pos i) m) k j ≡ (holds m k j && not (hash_eq h k && (i == j)))
unfolding holds remove_block
holds-remove_block h k i j m = elim (Option-cases (find h m)) [
  | inl e ↦ ground (arith, hash_eq_iff h k)
  | inr (ids, e) ↦ ground (
    arith,
    hash_eq_iff h k,
    find-replace h k (drop_id (pos i) ids) m,
    find-erase h k m,
    lists-drop_id i j ids,
    lists_none j (drop_id (pos i) ids),
  )
]

-- No entry of the cache is without a block.
abbrev pub NoneEmpty : PrefixCache → Type 0
NoneEmpty m = (h : BlockHash) (ids : Entry) → find h m ≡ some ids → has_any ids ≡ true

pub remove_block-NoneEmpty :
    (h : BlockHash) (b : ℤ) (m : PrefixCache) → NoneEmpty m → NoneEmpty (remove_block h b m)
unfolding remove_block
remove_block-NoneEmpty h b m ne k ds f = elim (Option-cases (find h m)) [
  | inl e ↦ ne k ds (ground arith)
  | inr (ids, e) ↦
      ground (arith, hash_eq_iff h k, find-replace h k (drop_id b ids) m, find-erase h k m, ne k ds)
]
