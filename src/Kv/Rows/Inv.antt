-- ===== src/Kv/Rows/Inv.antt =====
-- What holds of a handle and of the shared pool before and after every call: each block's reference
-- count is the number of page-table slots that name it, over this handle and all others.
use cohere_megakernel.Common.{
  ℕ, zero, suc, ◌+◌, ◌*◌, ◌<◌, ◌≤◌, ◌≡◌, refl, Bool, true, false, List, arith, ◌==◌, if◌then◌else◌,
}
use cohere_megakernel.Common.Int.{ℤ, pos, negsuc, int_eq}
use cohere_megakernel.Kv.Global.{Global}
use cohere_megakernel.Kv.Global.Invariant.{IsConsistent}
use cohere_megakernel.Kv.State.{Vector, Geometry, State, write_at}
use cohere_megakernel.Kv.Store.{Store}

abbrev pub one_if : Bool → ℕ
one_if true = 1
one_if false = 0

-- How many of the first `n` slots name block `i`.
unfoldable pub count_slots : ℕ → (ℕ → ℤ) → ℕ → ℕ
count_slots zero f i = 0
count_slots (suc n) f i = one_if (int_eq (f n) (pos i)) + count_slots n f i

-- The references that a page table holds.
unfoldable pub refs_of : Vector ℤ → ℕ → ℕ
refs_of v i = count_slots v.size v.at i

-- A slot is empty or names a block of the pool.
abbrev pub IsSlot : ℕ → ℤ → Type 0
IsSlot n (pos i) = i < n
IsSlot n (negsuc k) = k ≡ 0

-- The dimensions as they are checked when a handle is built.
pub record IsGeometry (g : Geometry) : Type 0 where
  pub layers : 0 < g.num_layers
  pub rows : 0 < g.bs
  pub pages : 0 < g.max_pages_per_seq
  pub block : 0 < g.page_block_size
  pub pattern : 0 < g.sw_pattern
  pub elems : g.page_table_elems ≡ g.num_layers * g.bs * g.max_pages_per_seq

-- The vectors have the sizes that the dimensions ask for.
pub record IsShaped (g : Geometry) (kv : State) : Type 0 where
  pub geometry : kv.geometry ≡ g
  pub page_table : kv.page_table_host.size ≡ g.num_layers * g.bs * g.max_pages_per_seq
  pub seqlens : kv.cache_seqlens_host.size ≡ g.bs
  pub active : kv.row_active_host.size ≡ g.bs
  pub evict : kv.sliding_evict_until.size ≡ g.num_layers * g.bs

-- `others` are the references that the other handles hold, and `n` is the size of the pool.
pub record Inv (n : ℕ) (others : ℕ → ℕ) (g : Geometry) (s : Store) : Type 0 where
  pub queue : List ℕ
  pub consistent : IsConsistent (λ i. refs_of s.kv.page_table_host i + others i) s.global queue
  pub pool_size : s.global.pool.size ≡ n
  pub shaped : IsShaped g s.kv
  pub slots : (k : ℕ) → k < s.kv.page_table_host.size → IsSlot n (s.kv.page_table_host.at k)

pub IsConsistent-ext :
    (refs refs' : ℕ → ℕ) (g : Global) (q : List ℕ)
    → ((i : ℕ) → refs' i ≡ refs i)
    → IsConsistent refs g q
    → IsConsistent refs' g q
IsConsistent-ext refs refs' g q same c = record {
  free = c.free;
  counted = λ i h. ground (arith, same i, c.counted i);
  idle = λ i. ground (arith, same i, c.idle i);
  named = c.named;
}

count_slots-frame :
    (n k : ℕ) (f : ℕ → ℤ) (z : ℤ) (i : ℕ)
    → n ≤ k
    → count_slots n (λ j. if k == j then z else f j) i ≡ count_slots n f i
unfolding count_slots
count_slots-frame zero k f z i h = refl
count_slots-frame (suc n) k f z i h = ground (arith, count_slots-frame n k f z i)

-- A write moves one count from the old value to the new one.
count_slots-write :
    (n k : ℕ) (f : ℕ → ℤ) (z : ℤ) (i : ℕ)
    → k < n
    → count_slots n (λ j. if k == j then z else f j) i + one_if (int_eq (f k) (pos i))
      ≡ count_slots n f i + one_if (int_eq z (pos i))
unfolding count_slots
count_slots-write zero k f z i h = absurd (omega arith)
count_slots-write (suc n) k f z i h =
    ground (arith, count_slots-frame n k f z i, count_slots-write n k f z i)

pub refs_of-write :
    (v : Vector ℤ) (k : ℕ) (z : ℤ) (i : ℕ)
    → k < v.size
    → refs_of (write_at v k z) i + one_if (int_eq (v.at k) (pos i))
      ≡ refs_of v i + one_if (int_eq z (pos i))
unfolding refs_of
refs_of-write v k z i h = count_slots-write v.size k v.at z i h

-- The block that a slot names is referenced.
pub refs_of-pos : (v : Vector ℤ) (k i : ℕ) → k < v.size → v.at k ≡ pos i → 0 < refs_of v i
refs_of-pos v k i h e = let moved = refs_of-write v k (negsuc 0) i h in ground arith

-- A change of what the invariant does not look at.
pub Inv-frame :
    (n : ℕ) (others : ℕ → ℕ) (g : Geometry) (s t : Store)
    → t.global ≡ s.global
    → t.kv.page_table_host ≡ s.kv.page_table_host
    → IsShaped g t.kv
    → Inv n others g s
    → Inv n others g t
Inv-frame n others g s t pool table shaped inv = record {
  queue = inv.queue;
  consistent = rw (pool, table) inv.consistent;
  pool_size = rw pool inv.pool_size;
  shaped = shaped;
  slots = rw table inv.slots;
}
