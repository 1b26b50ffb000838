-- ===== src/Kv/State/Index.antt =====
-- The index functions `kv_pt` and `kv_evict_until` of src/kv/cache.cpp.
use cohere_megakernel.Common.{ℕ, ◌+◌, ◌/◌, ◌%◌, ◌∙◌, ◌*◌, ◌<◌, ◌≤◌, ◌≡◌, ◌⊎◌, inl, inr, arith, ap}
use cohere_megakernel.Kv.State.{Geometry, kv_pt, kv_evict_until}

pub kv_evict_until-lt :
    (g : Geometry) (layer batch : ℕ)
    → layer < g.num_layers
    → batch < g.bs
    → kv_evict_until g layer batch < g.num_layers * g.bs
unfolding kv_evict_until
kv_evict_until-lt g layer batch h k = grind arith

row_lt : (r c w h : ℕ) → r < h → c < w → r * w + c < h * w
row_lt r c w h p q = grind arith

-- A layer, a row and a logical block in range have an index within the page table.
pub kv_pt-lt :
    (g : Geometry) (layer batch block : ℕ)
    → layer < g.num_layers
    → batch < g.bs
    → block < g.max_pages_per_seq
    → kv_pt g layer batch block < g.num_layers * g.bs * g.max_pages_per_seq
unfolding kv_pt
kv_pt-lt g layer batch block h k l =
    row_lt (layer * g.bs + batch) block g.max_pages_per_seq (g.num_layers * g.bs)
      (row_lt layer batch g.bs g.num_layers h k) l

lt_cases : (a b : ℕ) → (a < b) ⊎ ((b < a) ⊎ (a ≡ b))
lt_cases a b = grind arith

row_mono : (r r' w : ℕ) → r < r' → r * w + w ≤ r' * w
row_mono r r' w h = grind arith

pub row_injective :
    (r c r' c' w : ℕ) → c < w → c' < w → r * w + c ≡ r' * w + c' → (r ≡ r') × (c ≡ c')
row_injective r c r' c' w h k e = elim (lt_cases r r') [
  | inl l ↦ absurd (grind (arith, row_mono r r' w l))
  | inr (inl l) ↦ absurd (grind (arith, row_mono r' r w l))
  | inr (inr q) ↦ (q, omega (arith, ap (λ (t : ℕ). t * w) q))
]

-- Two triples of layer, row and logical block, the rows and blocks in range, that have the same index
-- are the same.
pub kv_pt_injective :
    (g : Geometry) (layer batch block layer' batch' block' : ℕ)
    → batch < g.bs
    → batch' < g.bs
    → block < g.max_pages_per_seq
    → block' < g.max_pages_per_seq
    → kv_pt g layer batch block ≡ kv_pt g layer' batch' block'
    → (layer ≡ layer') × (batch ≡ batch') × (block ≡ block')
unfolding kv_pt
kv_pt_injective g layer batch block layer' batch' block' h h' k k' e =
    let outer = row_injective _ _ _ _ g.max_pages_per_seq k k' e in
    let inner = row_injective layer batch layer' batch' g.bs h h' outer.0 in
    (inner.0, inner.1, outer.1)

-- Every index of the page table belongs to a layer, a row and a logical block in range.
pub record IsSlotOf (g : Geometry) (k : ℕ) : Type 0 where
  pub layer : ℕ
  pub batch : ℕ
  pub block : ℕ
  pub layer_lt : layer < g.num_layers
  pub batch_lt : batch < g.bs
  pub block_lt : block < g.max_pages_per_seq
  pub index : kv_pt g layer batch block ≡ k

split_lt : (k w h : ℕ) → k < h * w → (k / w < h) × (k % w < w) × (k / w * w + k % w ≡ k)
split_lt k w h l = grind arith

pub kv_pt-onto :
    (g : Geometry) (k : ℕ) → k < g.num_layers * g.bs * g.max_pages_per_seq → IsSlotOf g k
unfolding kv_pt
kv_pt-onto g k l =
    let outer = split_lt k g.max_pages_per_seq (g.num_layers * g.bs) l in
    let r = k / g.max_pages_per_seq in
    let inner = split_lt r g.bs g.num_layers outer.0 in
    record {
      layer = r / g.bs;
      batch = r % g.bs;
      block = k % g.max_pages_per_seq;
      layer_lt = inner.0;
      batch_lt = inner.1;
      block_lt = outer.1;
      index = ap (λ (t : ℕ). t * g.max_pages_per_seq + k % g.max_pages_per_seq) inner.2 ∙ outer.2;
    }
