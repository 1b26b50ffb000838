-- ===== src/Kv/Attach/Check.antt =====
-- What the validation of a batch in src/kv/cache.cpp's `prefix_attach_batch` establishes.
use cohere_megakernel.Common.{
  ℕ, zero, suc, ◌<◌, ◌≡◌, refl, ◌∙◌, true, false, Option, none, some, List, [], ◌∷◌, arith, length,
  All, has, Option-cases, inl, inr, subst, ap,
}
use cohere_megakernel.Common.Int.{ℤ, pos, negsuc, pos_part}
use cohere_megakernel.Kv.Pool.{BlockHash}
use cohere_megakernel.Kv.Prefix.{Entry, find, lists, holds}
use cohere_megakernel.Kv.Global.{Global, Attempt, done, fails}
use cohere_megakernel.Kv.Global.Invariant.{IsCached}
use cohere_megakernel.Kv.State.{Geometry}
use cohere_megakernel.Kv.Attach.{
  ◌then_try◌, parse_block_hash, prefix_entry_can_attach, usable_entry, in_range, Batch, check_item,
  check_items, with_entry, lookup_item, destination_of,
}

-- An id names a block of a pool of `n` blocks, or none.
abbrev pub IsId : ℕ → ℤ → Type 0
IsId n (pos i) = i < n
IsId n (negsuc k) = Unit {0}

-- What is known of item `i` with the entry found for it.
pub record ItemOk (n : ℕ) (g : Geometry) (a : Batch) (i : ℕ) (e : Entry) : Type 0 where
  pub row : pos_part (a.rows i) < g.bs
  pub block : pos_part (a.logical_blocks i) < g.max_pages_per_seq
  pub ids : All (IsId n) e
  pub layers : length e ≡ g.num_layers

abbrev pub ItemsOk : ℕ → Geometry → Batch → ℕ → List Entry → Type 0
ItemsOk n g a i [] = Unit {0}
ItemsOk n g a i (e ∷ es) = ItemOk n g a i e × ItemsOk n g a (suc i) es

pub ids_of_lists : (n : ℕ) (ids : Entry) → ((i : ℕ) → lists i ids ≡ true → i < n) → All (IsId n) ids
unfolding lists
ids_of_lists n [] h = tt
ids_of_lists n (pos i ∷ ids) h =
    (h i (ground arith), ids_of_lists n ids (λ j m. h j (ground arith)))
ids_of_lists n (negsuc k ∷ ids) h = (tt, ids_of_lists n ids (λ j m. h j (ground arith)))

-- The cache names blocks of the pool only.
pub find-ids :
    (gl : Global) (h : BlockHash) (e : Entry)
    → IsCached gl
    → find h gl.cache ≡ some e
    → All (IsId gl.pool.size) e
unfolding holds
find-ids gl h e c f = ids_of_lists gl.pool.size e λ i m. ground (arith, c.cached h i)

-- Splits of a chain of attempts.
try-done :
    {A B : Type 0} (m : Attempt A) (k : A → Attempt B) {b : B}
    → (m then_try k) ≡ done b
    → (a : A) × (m ≡ done a) × (k a ≡ done b)
try-done (done a) k e = (a, refl, e)
try-done (fails x) k e = cc

usable_entry-find :
    (g : Geometry) (gl : Global) (h : BlockHash) (lb rf : ℕ) (e : Entry)
    → usable_entry g gl h lb rf ≡ done (some e)
    → (find h gl.cache ≡ some e) × (length e ≡ g.num_layers)
unfolding usable_entry prefix_entry_can_attach
usable_entry-find g gl h lb rf e u = elim (Option-cases (find h gl.cache)) [
  | inl no_entry ↦ ground arith
  | inr (d, found) ↦ ground arith
]

pub in_range-lt :
    (g : Geometry) (row lb : ℤ)
    → in_range g row lb ≡ true
    → (pos_part row < g.bs) × (pos_part lb < g.max_pages_per_seq)
unfolding in_range
in_range-lt g row lb h = ground arith

lookup_item-find :
    (g : Geometry) (gl : Global) (a : Batch) (i : ℕ) (e : Entry)
    → lookup_item g gl a i ≡ done (some e)
    → (h : BlockHash) × (find h gl.cache ≡ some e) × (length e ≡ g.num_layers)
unfolding lookup_item
lookup_item-find g gl a i e u =
    let (h, p, v) = try-done (parse_block_hash (some _) a.key_len) _ u in
    let (f, l) = usable_entry-find g gl h _ _ e v in (h, f, l)

check_item-split :
    (g : Geometry) (gl : Global) (a : Batch) (i : ℕ) (seen : List ℕ) (r : Option Entry)
    → check_item g gl a i seen ≡ done r
    → (in_range g (a.rows i) (a.logical_blocks i) ≡ true)
      × (has (destination_of a i) seen ≡ false)
      × (lookup_item g gl a i ≡ done r)
unfolding check_item
check_item-split g gl a i seen r u = ground arith

pub check_item-ItemOk :
    (g : Geometry) (gl : Global) (a : Batch) (i : ℕ) (seen : List ℕ) (e : Entry)
    → IsCached gl
    → check_item g gl a i seen ≡ done (some e)
    → ItemOk gl.pool.size g a i e
check_item-ItemOk g gl a i seen e c u =
    let (inside, new, looked) = check_item-split g gl a i seen (some e) u in
    let (h, found, l) = lookup_item-find g gl a i e looked in
    let (r, b) = in_range-lt g (a.rows i) (a.logical_blocks i) inside in
    record { row = r; block = b; ids = find-ids gl h e c found; layers = l }

entries_of : {xs ys : List Entry} → some xs ≡ some ys → xs ≡ ys
entries_of e = cc

ItemsOk-with_entry :
    (n : ℕ) (g : Geometry) (a : Batch) (i : ℕ) (e : Entry) (rest : Option (List Entry))
    (es : List Entry)
    → ItemOk n g a i e
    → ((ds : List Entry) → rest ≡ some ds → ItemsOk n g a (suc i) ds)
    → with_entry e rest ≡ some es
    → ItemsOk n g a i es
ItemsOk-with_entry n g a i e none es here more w = cc
ItemsOk-with_entry n g a i e (some ds) es here more w =
    subst (ItemsOk n g a i) (entries_of w) (here, more ds refl)

done-injective : {A : Type 0} {a b : A} → done a ≡ done b → a ≡ b
done-injective e = cc

-- An accepted batch is in range, and its entries name blocks of the pool, one for each layer.
pub check_items-ItemsOk :
    (g : Geometry) (gl : Global) (a : Batch) (n i : ℕ) (seen : List ℕ) (es : List Entry)
    → IsCached gl
    → check_items g gl a n i seen ≡ done (some es)
    → ItemsOk gl.pool.size g a i es
unfolding check_items
check_items-ItemsOk g gl a zero i seen [] c u = tt
check_items-ItemsOk g gl a zero i seen (e ∷ es) c u = cc
check_items-ItemsOk g gl a (suc n) i seen es c u =
    let (r, item, v) = try-done (check_item g gl a i seen) _ u in
    go (λ ds. check_items-ItemsOk g gl a n (suc i) (destination_of a i ∷ seen) ds c) r item v
  where
    go :
        ((ds : List Entry)
          → check_items g gl a n (suc i) (destination_of a i ∷ seen) ≡ done (some ds)
          → ItemsOk gl.pool.size g a (suc i) ds)
        → (r : Option Entry) → check_item g gl a i seen ≡ done r
        → (elim r [
          | none ↦ done none
          | some e ↦ check_items g gl a n (suc i) (destination_of a i ∷ seen) then_try λ rest.
              done (with_entry e rest)
        ])
          ≡ done (some es)
        → ItemsOk gl.pool.size g a i es
    go later none item v = cc
    go later (some e) item v =
        let (rest, checked, w) =
          try-done (check_items g gl a n (suc i) (destination_of a i ∷ seen)) _ v in
        ItemsOk-with_entry gl.pool.size g a i e rest es (check_item-ItemOk g gl a i seen e c item)
          (λ ds f. later ds (checked ∙ ap done f)) (done-injective w)
