-- ===== src/Kv/Rebind/Made.antt =====
-- What `KvHandle::rebind` of src/kv/cache.cpp returns, and that it gives everything back where it throws.
use cohere_megakernel.Common.{
  ℕ, List, [], ◌+◌, ◌*◌, ◌/◌, ◌<◌, ◌≤◌, ◌≡◌, refl, arith, ◌&&◌, not, some, ◌==◌, Bool-cases, inl,
  inr, if◌then◌else◌,
}
use cohere_megakernel.Common.Int.{ℤ, pos_part, minus_one, is_neg, is_nonpos}
use cohere_megakernel.Kv.Global.Invariant.{IsConsistent}
use cohere_megakernel.Kv.State.{Geometry, State, kv_pt, filled}
use cohere_megakernel.Kv.Store.{
  Store, Outcome, ok, throws, undefined, ◌>>=◌, cuda_call, kv_flush_page_table,
  kv_flush_cache_seqlens, kv_flush_row_active,
}
use cohere_megakernel.Kv.Store.Ensures.{Ensures, returns, raises, bind, mono, weaken_error}
use cohere_megakernel.Kv.Rows.Inv.{Inv, IsShaped, IsSlot, refs_of, IsConsistent-ext}
use cohere_megakernel.Kv.Decode.{Array, destroy}
use cohere_megakernel.Kv.Decode.Release.{destroy-lem, no_slots}
use cohere_megakernel.Kv.Create.{size_max}
use cohere_megakernel.Kv.Rebind.{
  rebound, sized, unsized, copy_rows, destroyed, owned, size_evict, rebuild, rebind,
}
use cohere_megakernel.Kv.Rebind.Copy.{copy_all-Copied}
use cohere_megakernel.Kv.Rebind.Parts.{
  checked_product-returns, checked_page_table_elems-returns, KeepsSame, cuda_call-Same, then-Same,
  page_table-Same, seqlens-Same, row_active-Same, Same-Inv, IsSource, check_sources-Ensures,
}

module _ (n : ℕ) (others : ℕ → ℕ) (g : Geometry) (old : State) where
  -- The references of the old handle and of the others
  abbrev pub held : ℕ → ℕ
  held i = refs_of old.page_table_host i + others i

  -- Pool and cache are consistent with these references alone.
  abbrev pub Restored : Store → Type 0
  Restored t = (q : List ℕ) × IsConsistent held t.global q

  owned-Restored :
      {A : Type 0} {Q : A → Store → Type 0} (g' : Geometry) (r : Outcome A)
      → Ensures Q (λ _ t. Inv n held g' t) r
      → Ensures Q (λ _ t. Restored t) (destroyed g' r)
  owned-Restored g' _ (returns q) = returns q
  owned-Restored {Q = Q} g' _ (raises {e = e} {s = t} inv) =
      go (destroy g' t) (destroy-lem n held g' t inv)
    where
      go :
          (r : Outcome (Unit {0}))
          → Ensures
              (λ _ u.
                ((k : ℕ) → k < u.kv.page_table_host.size → u.kv.page_table_host.at k ≡ minus_one)
                × Restored u)
              (λ _ _. ⊥)
              r
          → Ensures Q
              (λ _ u. Restored u)
              (elim r [ ok _ u ↦ throws e u | throws _ _ ↦ undefined | undefined ↦ undefined ])
      go _ (returns (empty, restored)) = raises restored
      go _ (raises bot) = absurd bot

  module _ (src_rows : Array) (new_bs page_table seqlens active : ℕ) where
    abbrev elems : ℕ
    elems = g.num_layers * new_bs * g.max_pages_per_seq

    abbrev pub new_geometry : Geometry
    new_geometry = rebound g new_bs elems page_table seqlens active

    -- Every row has the slots of its source row, or none.
    abbrev pub Taken : Store → Type 0
    Taken t =
        (d li blk : ℕ)
        → d < new_bs
        → li < g.num_layers
        → blk < g.max_pages_per_seq
        → t.kv.page_table_host.at (kv_pt new_geometry li d blk) ≡ (
            if is_neg (src_rows d)
            then minus_one
            else old.page_table_host.at (kv_pt g li (pos_part (src_rows d)) blk))

    sized-Inv :
        (s : Store)
        → Inv n others g (record s { kv = old })
        → Inv n held new_geometry (record s {
          kv = record (sized new_geometry old) {
            sliding_evict_until = filled (g.num_layers * new_bs) 0;
          };
        })
    sized-Inv s inv = record {
      queue = inv.queue;
      consistent =
          IsConsistent-ext held _ s.global inv.queue
            (λ i.
              unfold refs_of in
              omega (arith, no_slots n held new_geometry elems (λ _. minus_one) i (λ k l. refl)))
            inv.consistent;
      pool_size = inv.pool_size;
      shaped = record {
        geometry = refl;
        page_table = refl;
        seqlens = refl;
        active = refl;
        evict = refl;
      };
      slots = λ k l. refl;
    }

    copy_rows-Taken :
        (s : Store)
        → IsShaped g old
        → ((k : ℕ) → k < old.page_table_host.size → IsSlot n (old.page_table_host.at k))
        → ((d : ℕ) → d < new_bs → IsSource g (src_rows d))
        → Inv n held new_geometry s
        → ((k : ℕ) → s.kv.page_table_host.at k ≡ minus_one)
        → Ensures
            (λ _ t. Inv n held new_geometry t × Taken t)
            (λ _ t. Inv n held new_geometry t)
            (copy_rows g old new_geometry src_rows s)
    unfolding copy_rows
    copy_rows-Taken s shaped slots sources inv empty =
        bind
          (weaken_error
            (copy_all-Copied n held g old src_rows new_bs elems page_table seqlens active shaped
              slots sources s inv empty)
            (λ _ _ bot. absurd bot))
          λ _ t (kept, taken).
            weaken_error
              (mono (flushes t)
                λ _ u same. (Same-Inv n held new_geometry t u same kept, rw (same.1) taken))
              λ _ u same. Same-Inv n held new_geometry t u same kept
      where
        flushes : KeepsSame (
            kv_flush_page_table >>= λ _. kv_flush_cache_seqlens new_geometry >>= λ _.
            kv_flush_row_active new_geometry >>= λ _. cuda_call)
        flushes = then-Same kv_flush_page_table _ page_table-Same (
            then-Same (kv_flush_cache_seqlens new_geometry) _ (seqlens-Same new_geometry) (
              then-Same (kv_flush_row_active new_geometry) cuda_call (row_active-Same new_geometry)
                cuda_call-Same))

    abbrev sized_store : Store → Store
    sized_store s = record s { kv = sized new_geometry old }

    fill-Taken :
        (s : Store)
        → Inv n others g (record s { kv = old })
        → ((d : ℕ) → d < new_bs → IsSource g (src_rows d))
        → g.num_layers * new_bs ≤ size_max
        → Ensures
            (λ _ t. Inv n held new_geometry t × Taken t)
            (λ _ t. Inv n held new_geometry t)
            ((size_evict new_geometry >>= λ _. copy_rows g old new_geometry src_rows)
              (sized_store s))
    unfolding size_evict
    fill-Taken s inv sources small =
        rw (checked_product-returns g.num_layers new_bs (sized_store s) small)
          (copy_rows-Taken _ inv.shaped inv.slots sources (sized-Inv s inv) (λ k. refl))

    -- Behind the checks
    rebuild-Taken :
        (s : Store)
        → Inv n others g (record s { kv = old })
        → ((d : ℕ) → d < new_bs → IsSource g (src_rows d))
        → g.num_layers * new_bs ≤ size_max
        → elems ≤ size_max / 4
        → Ensures
            (λ g' t. (g' ≡ new_geometry) × Inv n held new_geometry t × Taken t)
            (λ _ t. Restored t)
            (rebuild g old src_rows new_bs page_table seqlens active s)
    unfolding rebuild owned
    rebuild-Taken s inv sources small fits =
        rw
          (checked_page_table_elems-returns g.num_layers new_bs g.max_pages_per_seq
            (record s { kv = unsized (rebound g new_bs 0 page_table seqlens active) old }) small
            fits)
          (bind
            (owned-Restored new_geometry
              ((size_evict new_geometry >>= λ _. copy_rows g old new_geometry src_rows)
                (sized_store s))
              (fill-Taken s inv sources small))
            λ _ t (kept, taken). returns (refl, kept, taken))

-- For an old handle that satisfies the invariant and destination sizes that fit a `size_t`, `rebind`
-- either returns a handle of the new dimensions, each of whose rows has in every slot what its source
-- row has there, or nothing where it has no source, and for which the invariant holds beside the old
-- handle and the others; or it throws, and pool and cache are consistent with the references of the
-- old handle and the others alone. It accesses no vector out of bounds.
pub rebind_lem :
    (n : ℕ) (others : ℕ → ℕ) (g : Geometry) (old : State) (src_rows : Array) (new_bs : ℤ)
    (page_table seqlens active : ℕ) (s : Store)
    → Inv n others g (record s { kv = old })
    → g.num_layers * pos_part new_bs ≤ size_max
    → g.num_layers * pos_part new_bs * g.max_pages_per_seq ≤ size_max / 4
    → Ensures
        (λ g' t.
          (g' ≡ new_geometry n others g old src_rows (pos_part new_bs) page_table seqlens active)
          × Inv n (held n others g old) g' t
          × Taken n others g old src_rows (pos_part new_bs) page_table seqlens active t)
        (λ _ t. Restored n others g old t)
        (rebind g old (some src_rows) new_bs page_table seqlens active s)
unfolding rebind
rebind_lem n others g old src_rows new_bs page_table seqlens active s inv small fits =
    let intact : Restored n others g old s = (inv.queue, inv.consistent) in
    elim (Bool-cases (not (is_nonpos new_bs))) [
      | inr bad ↦ rw bad (raises intact)
      | inl some_rows ↦
          rw some_rows
            (elim (Bool-cases
              (not (page_table == 0) && (not (seqlens == 0) && not (active == 0)))) [
                | inr bad ↦ rw bad (raises intact)
                | inl tensors ↦ rw tensors (
                    bind
                      (weaken_error (check_sources-Ensures g src_rows (pos_part new_bs) 0 [] s)
                        (λ _ t same. rw same intact))
                      λ _ t (same, sources). rw same (
                        mono
                          (rebuild-Taken n others g old src_rows (pos_part new_bs) page_table
                            seqlens active s inv (λ d l. sources d (omega arith) (omega arith))
                            small fits)
                          λ g' u (e, kept, taken). (e, rw e kept, taken)))
              ])
    ]
