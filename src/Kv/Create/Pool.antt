-- ===== src/Kv/Create/Pool.antt =====
-- The locked part of the constructor of src/kv/cache.cpp: the pool is set up once, and every slot
-- that names a block counts as a reference to it.
use cohere_megakernel.Common.{
  ℕ, suc, ◌+◌, ◌<◌, ◌≡◌, refl, ◌∙◌, sym, subst, false, Option, none, some, List, [], ◌∷◌, arith,
  ◌==◌, if◌then◌else◌, has, Bool-cases, inl, inr, ◌⊎◌, ap,
}
use cohere_megakernel.Common.Int.{ℤ, pos, negsuc, is_neg}
use cohere_megakernel.Kv.Pool.{KvBlockPool, new_block, init_once, init_blocks}
use cohere_megakernel.Kv.Pool.FreeList.{IsFreeList}
use cohere_megakernel.Kv.Pool.Init.{init-Filled, upto}
use cohere_megakernel.Kv.Global.{Global, retain_at, pool_size_changed}
use cohere_megakernel.Kv.Global.Invariant.{IsConsistent, bump}
use cohere_megakernel.Kv.Global.Counts.{retain-done, retain-IsConsistent, retain_at-size}
use cohere_megakernel.Kv.State.{State}
use cohere_megakernel.Kv.Store.{Store, M, ok, throws, pure, locked}
use cohere_megakernel.Kv.Store.Ensures.{Ensures, returns, raises}
use cohere_megakernel.Kv.Rows.Inv.{IsSlot, count_slots, IsConsistent-ext}
use cohere_megakernel.Kv.Rows.Slots.{read_page-some, retain_block-some}
use cohere_megakernel.Kv.Rows.{retain_block}
use cohere_megakernel.Kv.Create.{init_pool, retain_slot}

-- A consistent shared state, where a pool without blocks has no references.
pub record IsShared (others : ℕ → ℕ) (gl : Global) : Type 0 where
  pub queue : List ℕ
  pub consistent : IsConsistent others gl queue
  pub unused : gl.pool.size ≡ 0 → (i : ℕ) → others i ≡ 0

-- The first handle finds no block, so the queue is empty.
nil_of_empty : (q : List ℕ) → ((i : ℕ) → has i q ≡ false) → q ≡ []
nil_of_empty [] h = refl
nil_of_empty (x ∷ q) h = absurd (cc_false (h x))
  where
    cc_false : has x (x ∷ q) ≡ false → ⊥
    cc_false e = ground arith

module _ (others : ℕ → ℕ) (gl : Global) (shared : IsShared others gl) (n : ℕ) where
  abbrev pub fresh : KvBlockPool
  fresh = init_blocks n 0 (record gl.pool { size = n; block = λ _. new_block })

  pub fresh-IsConsistent :
      gl.pool.size ≡ 0 → IsConsistent others (record gl { pool = fresh }) (upto 0 n)
  fresh-IsConsistent z =
      let c = shared.consistent in
      let empty : shared.queue ≡ [] = nil_of_empty shared.queue (λ i. ground (arith, c.idle i)) in
      let (f, size) = init-Filled n gl.pool (subst (IsFreeList gl.pool) empty c.free) in
      record {
        free = f.free;
        counted = λ i l. ground (arith, f.unused i, shared.unused z i);
        idle = λ i. ground (arith, f.within i, size, shared.unused z i);
        named = record {
          ids = λ i l. f.ids i (ground (arith, size));
          cached = λ h i. ground (arith, f.unhashed i, c.named.cached h i);
          none_empty = c.named.none_empty;
        };
      }

  pub fresh-size : gl.pool.size ≡ 0 → fresh.size ≡ n
  fresh-size z =
      let empty : shared.queue ≡ [] =
        nil_of_empty shared.queue (λ i. ground (arith, shared.consistent.idle i)) in
      (init-Filled n gl.pool (subst (IsFreeList gl.pool) empty shared.consistent.free)).1

abbrev set_up : ℕ → Global → Option KvBlockPool → M (Unit {0})
set_up n gl (some p) s = ok tt (record s { global = record gl { pool = p } })
set_up n gl none s = throws pool_size_changed s

init_pool-set_up :
    (n : ℕ) (s : Store) (r : Option KvBlockPool)
    → init_once s.global.pool n ≡ r
    → init_pool n s ≡ set_up n s.global r s
unfolding init_pool locked
init_pool-set_up n s none e = ground arith
init_pool-set_up n s (some p) e = ground arith

init_once-cases :
    (n : ℕ) (p : KvBlockPool)
    → ((p.size ≡ 0)
        × (init_once p n ≡ some (init_blocks n 0 (record p { size = n; block = λ _. new_block }))))
      ⊎ (((p.size ≡ n) × (init_once p n ≡ some p)) ⊎ (init_once p n ≡ none))
unfolding init_once
init_once-cases n p = elim (Bool-cases (p.size == 0)) [
  | inl z ↦ inl (ground arith, rw z)
  | inr full ↦ elim (Bool-cases (p.size == n)) [
    | inl same ↦ inr (inl (ground arith, rw (full, same)))
    | inr other ↦ inr (inr (rw (full, other)))
  ]
]

-- `init_once` leaves a consistent pool of `n` blocks, or throws and leaves everything.
pub init_pool-Ensures :
    (others : ℕ → ℕ) (n : ℕ) (s : Store)
    → IsShared others s.global
    → Ensures
        (λ _ t.
          (t.kv ≡ s.kv) × (t.global.pool.size ≡ n) × (q : List ℕ) × IsConsistent others t.global q)
        (λ _ t. t.global ≡ s.global)
        (init_pool n s)
init_pool-Ensures others n s shared = elim (init_once-cases n s.global.pool) [
  | inl (z, e) ↦ rw (init_pool-set_up n s _ e) (
      returns (
        refl,
        fresh-size others s.global shared n z,
        upto 0 n,
        fresh-IsConsistent others s.global shared n z,
      ))
  | inr (inl (same, e)) ↦
      rw (init_pool-set_up n s _ e) (returns (refl, same, shared.queue, shared.consistent))
  | inr (inr e) ↦ rw (init_pool-set_up n s _ e) (raises refl)
]

-- The pool has counted the references of the first `k` slots.
abbrev pub Adopted : (others : ℕ → ℕ) (n : ℕ) (kv : State) → ℕ → Store → Type 0
Adopted others n kv k t =
    (t.kv ≡ kv)
    × (t.global.pool.size ≡ n)
    × (q : List ℕ) × IsConsistent (λ i. count_slots k kv.page_table_host.at i + others i) t.global q

module _ (others : ℕ → ℕ) (n : ℕ) (kv : State)
    (slots : (k : ℕ) → k < kv.page_table_host.size → IsSlot n (kv.page_table_host.at k)) where
  -- One round of the loop counts one slot more.
  pub retain_slot-Adopted :
      (k : ℕ) (t : Store)
      → k < kv.page_table_host.size
      → Adopted others n kv k t
      → Ensures (λ _ u. Adopted others n kv (suc k) u) (λ _ u. ⊥) (retain_slot k t)
  unfolding retain_slot
  retain_slot-Adopted k t within (same, size, q, c) =
      rw (read_page-some k t (subst (λ (v : State). k < v.page_table_host.size) (sym same) within))
        (step (t.kv.page_table_host.at k) (ap (λ (v : State). v.page_table_host.at k) same))
    where
      step :
          (z : ℤ)
          → z ≡ kv.page_table_host.at k
          → Ensures
              (λ _ u. Adopted others n kv (suc k) u)
              (λ _ u. ⊥)
              ((if is_neg z then pure tt else retain_block z) t)
      step (negsuc m) e = returns (
        same,
        size,
        q,
        IsConsistent-ext (λ j. count_slots k kv.page_table_host.at j + others j)
            (λ j. count_slots (suc k) kv.page_table_host.at j + others j) t.global q
            (λ i. unfold count_slots in ground (arith, sym e)) c,
      )
      step (pos i) e =
          let here : i < t.global.pool.size =
            subst (λ m. i < m) (sym size) (subst (IsSlot n) (sym e) (slots k within)) in
          rw
            (retain_block-some t (pos i) (retain_at t.global i) (retain-done _ t.global q i c here))
            (returns (
              same,
              retain_at-size _ t.global q i c here ∙ size,
              _,
              IsConsistent-ext (bump i (λ j. count_slots k kv.page_table_host.at j + others j))
                  (λ j. count_slots (suc k) kv.page_table_host.at j + others j)
                  (retain_at t.global i) _ (λ j. unfold count_slots in ground (arith, sym e))
                  (retain-IsConsistent _ t.global q i c here),
            ))
