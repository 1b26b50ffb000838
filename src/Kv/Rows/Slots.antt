-- ===== src/Kv/Rows/Slots.antt =====
-- One page-table slot of src/kv/cache.cpp is filled, replaced or cleared.
use cohere_megakernel.Common.{
  ℕ, ◌+◌, ◌<◌, ◌≡◌, refl, ◌∙◌, subst, Bool, true, false, List, [], ◌∷◌, arith, ◌==◌, if◌then◌else◌,
  lt→ltb, Bool-cases, inl, inr,
}
use cohere_megakernel.Common.Int.{ℤ, pos, negsuc, minus_one, int_eq, int_eq_iff, is_neg}
use cohere_megakernel.Kv.Global.{
  Global, KvError, out_of_blocks, done, fails, acquire, retain, release, release_at,
}
use cohere_megakernel.Kv.Global.Invariant.{IsConsistent, bump, drop}
use cohere_megakernel.Kv.Global.Acquire.{acquire-nil, acquire-cons}
use cohere_megakernel.Kv.Global.Counts.{
  release-done, release-IsConsistent, release_at-size, queue_after_release,
}
use cohere_megakernel.Kv.State.{Geometry, write_at}
use cohere_megakernel.Kv.Store.{Store, Outcome, ok, throws, locked, read_page, write_page, and_then}
use cohere_megakernel.Kv.Store.Ensures.{Ensures, returns, raises, mono, weaken_error}
use cohere_megakernel.Kv.Rows.{
  acquire_block, retain_block, release_block, ensure_slot, evict_slot, clear_slot,
}
use cohere_megakernel.Kv.Rows.Inv.{
  Inv, IsSlot, one_if, refs_of, refs_of-write, refs_of-pos, IsConsistent-ext,
}

pub acquire_block-none :
    (s : Store) → acquire s.global ≡ fails out_of_blocks → acquire_block s ≡ throws out_of_blocks s
unfolding acquire_block locked
acquire_block-none s e = ground (arith, e)

pub acquire_block-some :
    (s : Store) (i : ℕ) (g' : Global)
    → acquire s.global ≡ done (i, g')
    → acquire_block s ≡ ok (g'.pool.block i).block_id (record s { global = g' })
unfolding acquire_block locked
acquire_block-some s i g' e = ground (arith, e)

pub retain_block-some :
    (s : Store) (id : ℤ) (g' : Global)
    → retain s.global id ≡ done g'
    → retain_block id s ≡ ok tt (record s { global = g' })
unfolding retain_block locked
retain_block-some s id g' e = ground (arith, e)

pub release_block-some :
    (s : Store) (id : ℤ) (g' : Global)
    → release s.global id ≡ done g'
    → release_block id s ≡ ok tt (record s { global = g' })
unfolding release_block locked
release_block-some s id g' e = ground (arith, e)

-- Accesses in bounds.
pub read_page-some :
    (k : ℕ) (s : Store)
    → k < s.kv.page_table_host.size
    → read_page k s ≡ ok (s.kv.page_table_host.at k) s
unfolding read_page
read_page-some k s h = rw (lt→ltb k s.kv.page_table_host.size h)

pub write_page-some :
    (k : ℕ) (z : ℤ) (s : Store)
    → k < s.kv.page_table_host.size
    → write_page k z s
      ≡ ok tt
          (record s { kv = record s.kv { page_table_host = write_at s.kv.page_table_host k z } })
unfolding write_page
write_page-some k z s h = rw (lt→ltb k s.kv.page_table_host.size h)

module _ (n : ℕ) (others : ℕ → ℕ) (g : Geometry) where
  -- The state with a new pool and another value in slot `k`.
  abbrev pub rewritten : Store → Global → ℕ → ℤ → Store
  rewritten s g' k z = record s {
    global = g';
    kv = record s.kv { page_table_host = write_at s.kv.page_table_host k z };
  }

  pub rewritten-Inv :
      (s : Store) (g' : Global) (k : ℕ) (z : ℤ) (refs : ℕ → ℕ) (q : List ℕ)
      → Inv n others g s
      → k < s.kv.page_table_host.size
      → IsSlot n z
      → g'.pool.size ≡ n
      → IsConsistent refs g' q
      → ((j : ℕ)
          → refs j + one_if (int_eq (s.kv.page_table_host.at k) (pos j))
            ≡ refs_of s.kv.page_table_host j + others j + one_if (int_eq z (pos j)))
      → Inv n others g (rewritten s g' k z)
  rewritten-Inv s g' k z refs q inv within slot size c moved = record {
    queue = q;
    consistent =
        IsConsistent-ext refs _ g' q
          (λ j. omega (arith, moved j, refs_of-write s.kv.page_table_host k z j within)) c;
    pool_size = size;
    shaped = record {
      geometry = inv.shaped.geometry;
      page_table = inv.shaped.page_table;
      seqlens = inv.shaped.seqlens;
      active = inv.shaped.active;
      evict = inv.shaped.evict;
    };
    slots = λ j l. elim (k == j) as (λ b. IsSlot n (if b then z else s.kv.page_table_host.at j)) [
      | true ↦ slot
      | false ↦ inv.slots j l
    ];
  }

  abbrev Kept : {A : Type 0} → Outcome A → Type 0
  Kept r = Ensures (λ _ t. Inv n others g t) (λ _ t. Inv n others g t) r

  module _ (k : ℕ) (s : Store) (inv : Inv n others g s)
      (within : k < s.kv.page_table_host.size) where
    abbrev refs_now : ℕ → ℕ
    refs_now i = refs_of s.kv.page_table_host i + others i

    -- The slot names a block, and every slot that named one before still names it.
    abbrev pub Filled : Store → Type 0
    Filled t =
        Inv n others g t
        × (int_eq (t.kv.page_table_host.at k) minus_one ≡ false)
        × ((j : ℕ)
            → int_eq (s.kv.page_table_host.at j) minus_one ≡ false
            → t.kv.page_table_host.at j ≡ s.kv.page_table_host.at j)

    abbrev pub Exhausted : KvError → Store → Type 0
    Exhausted e t = (e ≡ out_of_blocks) × Inv n others g t

    -- Filling an empty slot from the free queue.
    fill :
        (q : List ℕ)
        → inv.queue ≡ q
        → s.kv.page_table_host.at k ≡ minus_one
        → Ensures
            (λ _ t. Filled t)
            Exhausted
            (and_then (acquire_block s) (λ id t. and_then (write_page k id t) (λ _ u. ok true u)))
    fill [] e empty =
        rw
          (acquire_block-none s (
            acquire-nil refs_now s.global
              (subst (λ r. IsConsistent refs_now s.global r) e inv.consistent)))
          (raises (refl, inv))
    fill (i ∷ q) e empty =
        let (g', a) =
          acquire-cons refs_now s.global i q
            (subst (λ r. IsConsistent refs_now s.global r) e inv.consistent) in
        let id : (g'.pool.block i).block_id ≡ pos i =
          a.consistent.named.ids i (ground (arith, a.size, a.within)) in
        rw (acquire_block-some s i g' a.succeeds, id)
          (rw (write_page-some k (pos i) (record s { global = g' }) within) (
            returns (
              rewritten-Inv s g' k (pos i) (bump i refs_now) q inv within
                  (ground (arith, a.within, inv.pool_size)) (a.size ∙ inv.pool_size) a.consistent
                  (λ j. ground (arith, empty)),
              ground arith,
              λ j full. ground (arith, empty),
            )))

    -- Giving back the block of a slot.
    pub give_back :
        (i : ℕ)
        → s.kv.page_table_host.at k ≡ pos i
        → (g' : Global) × (release_block (pos i) s ≡ ok tt (record s { global = g' }))
          × Inv n others g (rewritten s g' k minus_one)
    give_back i full =
        let slot : i < n = subst (IsSlot n) full (inv.slots k within) in
        let here : i < s.global.pool.size = ground (arith, inv.pool_size) in
        let held : 0 < refs_now i =
          omega (arith, refs_of-pos s.kv.page_table_host k i within full) in
        let c = release-IsConsistent refs_now s.global inv.queue i inv.consistent here held in
        (
          release_at s.global i,
          release_block-some s (pos i) (release_at s.global i)
              (release-done refs_now s.global inv.queue i inv.consistent here held),
          rewritten-Inv s (release_at s.global i) k minus_one (drop i refs_now)
              (queue_after_release refs_now i inv.queue) inv within refl
              (release_at-size refs_now s.global inv.queue i inv.consistent here held
                ∙ inv.pool_size)
              c (λ j. ground (arith, full, held)),
        )

    pub ensure_slot-Filled :
        (changed : Bool) → Ensures (λ _ t. Filled t) Exhausted (ensure_slot k changed s)
    unfolding ensure_slot
    ensure_slot-Filled changed =
        rw (read_page-some k s within)
          (elim (Bool-cases (int_eq (s.kv.page_table_host.at k) minus_one)) [
            | inl empty ↦ rw empty (fill inv.queue refl ((int_eq_iff _ _).0 empty))
            | inr full ↦ rw full (returns (inv, full, λ j _. refl))
          ])

    pub ensure_slot-Inv : (changed : Bool) → Kept (ensure_slot k changed s)
    ensure_slot-Inv changed =
        weaken_error (mono (ensure_slot-Filled changed) (λ _ _ f. f.0)) (λ _ _ e. e.1)

    pub full-pos : (z : ℤ) → IsSlot n z → int_eq z minus_one ≡ false → (i : ℕ) × (z ≡ pos i)
    full-pos (pos i) h e = (i, refl)
    full-pos (negsuc m) h e = ground arith

    pub evict_slot-Inv :
        (changed : Bool) → Ensures (λ _ t. Inv n others g t) (λ _ _. ⊥) (evict_slot k changed s)
    unfolding evict_slot
    evict_slot-Inv changed =
        rw (read_page-some k s within)
          (elim (Bool-cases (int_eq (s.kv.page_table_host.at k) minus_one)) [
            | inl empty ↦ rw empty (returns inv)
            | inr full ↦
                let (i, e) = full-pos (s.kv.page_table_host.at k) (inv.slots k within) full in
                let (g', done_, kept) = give_back i e in
                rw (full, e, done_)
                  (rw (write_page-some k minus_one (record s { global = g' }) within)
                    (returns kept))
          ])

    -- The slot is empty, and every other one is as before.
    abbrev pub Cleared : Store → Type 0
    Cleared t =
        Inv n others g t
        × ((j : ℕ)
            → t.kv.page_table_host.at j ≡ (if k == j then minus_one else s.kv.page_table_host.at j))

    empty_slot : (z : ℤ) → IsSlot n z → is_neg z ≡ true → z ≡ minus_one
    empty_slot (pos i) h e = ground arith
    empty_slot (negsuc m) h e = ground (arith, h)

    pub clear_slot-Cleared : Ensures (λ _ t. Cleared t) (λ _ _. ⊥) (clear_slot k s)
    unfolding clear_slot
    clear_slot-Cleared =
        rw (read_page-some k s within) (elim (Bool-cases (is_neg (s.kv.page_table_host.at k))) [
          | inl empty ↦
              let e = empty_slot (s.kv.page_table_host.at k) (inv.slots k within) empty in
              rw empty (returns (inv, λ j. ground (arith, e)))
          | inr full ↦
              let (i, e) =
                full-pos (s.kv.page_table_host.at k) (inv.slots k within) (ground arith) in
              let (g', done_, kept) = give_back i e in
              rw (full, e, done_)
                (rw (write_page-some k minus_one (record s { global = g' }) within)
                  (returns (kept, λ j. refl)))
        ])

    pub clear_slot-Inv : Kept (clear_slot k s)
    clear_slot-Inv = weaken_error (mono clear_slot-Cleared (λ _ _ c. c.0)) (λ _ _ bot. absurd bot)
