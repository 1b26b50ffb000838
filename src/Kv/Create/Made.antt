-- ===== src/Kv/Create/Made.antt =====
-- The constructor of src/kv/cache.cpp as a whole.
use cohere_megakernel.Common.{
  ℕ, suc, ◌+◌, ◌*◌, ◌<◌, ◌≡◌, refl, ◌∙◌, sym, subst, ap, true, arith, ltb→lt, ◌==◌, ==_iff,
  Bool-cases, inl, inr, lt→ltb, List,
}
use cohere_megakernel.Common.Int.{ℤ, pos, negsuc, pos_part}
use cohere_megakernel.Kv.Pool.{active_count}
use cohere_megakernel.Kv.Global.{Global}
use cohere_megakernel.Kv.Global.Invariant.{IsConsistent}
use cohere_megakernel.Kv.State.{Geometry, State, length_in_context}
use cohere_megakernel.Kv.Store.{Store, read_seqlen}
use cohere_megakernel.Kv.Store.Ensures.{
  Ensures, returns, raises, bind, mono, weaken_error, for_range-Ensures,
}
use cohere_megakernel.Kv.Rows.Inv.{
  Inv, IsGeometry, IsShaped, IsSlot, count_slots, refs_of, IsConsistent-ext,
}
use cohere_megakernel.Kv.Rows.Slots.{read_page-some}
use cohere_megakernel.Kv.Create.{
  KvHandleDesc, geometry_of, sized_state, valid_slot, retain_slot, adopt_slots, check_length,
  check_slot, load_tables, create,
}
use cohere_megakernel.Kv.Create.Pool.{IsShared, Adopted, init_pool-Ensures, retain_slot-Adopted}
use cohere_megakernel.Kv.Create.Keep.{
  Untouched, Sized, Checked, check_desc-Ensures, checked_product-Ensures,
  checked_page_table_elems-Ensures, load_page_table-Sized, load_seqlens-Sized,
  load_row_active-Sized,
}

module _ (gl : Global) (g : Geometry)
    (shape : g.page_table_elems ≡ g.num_layers * g.bs * g.max_pages_per_seq) where
  valid_slot-IsSlot : (n : ℕ) (z : ℤ) → valid_slot n z ≡ true → IsSlot n z
  valid_slot-IsSlot n (pos i) h = ltb→lt i n h
  valid_slot-IsSlot n (negsuc k) h = (==_iff k 0).0 h

  check_length-Sized :
      (b : ℕ) (t : Store)
      → b < g.bs
      → Sized gl g t
      → Ensures (λ _ u. Sized gl g u) (Untouched gl) (check_length g b t)
  unfolding check_length read_seqlen
  check_length-Sized b t row (same, sh) =
      rw (lt→ltb b t.kv.cache_seqlens_host.size (subst (λ m. b < m) (sym sh.seqlens) row))
        (elim (Bool-cases (length_in_context g (t.kv.cache_seqlens_host.at b))) [
          | inl fine ↦ rw fine (returns (same, sh))
          | inr bad ↦ rw bad (raises same)
        ])

  -- The first `k` slots are empty or name a block.
  abbrev Valid : ℕ → Store → Type 0
  Valid k t = Sized gl g t × ((j : ℕ) → j < k → IsSlot g.num_phys_pages (t.kv.page_table_host.at j))

  valid_snoc :
      (k : ℕ) (f : ℕ → ℤ)
      → ((j : ℕ) → j < k → IsSlot g.num_phys_pages (f j))
      → IsSlot g.num_phys_pages (f k)
      → (j : ℕ) → j < suc k
      → IsSlot g.num_phys_pages (f j)
  valid_snoc k f old new j l = elim (Bool-cases (j == k)) [
    | inl e ↦ subst (λ i. IsSlot g.num_phys_pages (f i)) (sym ((==_iff j k).0 e)) new
    | inr ne ↦ old j (ground arith)
  ]

  check_slot-Valid :
      (k : ℕ) (t : Store)
      → k < g.page_table_elems
      → Valid k t
      → Ensures (λ _ u. Valid (suc k) u) (Untouched gl) (check_slot g k t)
  unfolding check_slot
  check_slot-Valid k t within v =
      rw (read_page-some k t (subst (λ m. k < m) (sym (v.0.1.page_table)) (omega (arith, shape))))
        (elim (Bool-cases (valid_slot g.num_phys_pages (t.kv.page_table_host.at k))) [
          | inl fine ↦ rw fine (
              returns (
                v.0,
                valid_snoc k t.kv.page_table_host.at v.1
                    (valid_slot-IsSlot g.num_phys_pages (t.kv.page_table_host.at k) fine),
              ))
          | inr bad ↦ rw bad (raises v.0.0)
        ])

  load_tables-Valid :
      (start_pos : ℕ) (s : Store)
      → Sized gl g s
      → Ensures (λ _ t. Valid g.page_table_elems t) (Untouched gl) (load_tables g start_pos s)
  unfolding load_tables
  load_tables-Valid start_pos s h = bind (load_page_table-Sized gl g s h) λ _ s₁ h₁.
      bind (load_seqlens-Sized gl g start_pos s₁ h₁) λ _ s₂ h₂.
        bind
          (for_range-Ensures (λ _ _ t. Sized gl g t) (Untouched gl) (λ b _. check_length g b) g.bs 0
            (λ b _ t lo hi. check_length-Sized b t (omega arith)) tt s₂ h₂)
          λ _ s₃ h₃. bind (load_row_active-Sized gl g s₃ h₃) λ _ s₄ h₄.
            mono
              (for_range-Ensures (λ k _ t. Valid k t) (Untouched gl) (λ k _. check_slot g k)
                g.page_table_elems 0 (λ k _ t lo hi. check_slot-Valid k t (omega arith)) tt s₄
                (h₄, λ j l. absurd (omega arith)))
              λ _ t v. (v.0, λ j l. v.1 j (omega arith))

  IsShaped-peak : (w : State) (p : ℕ) → IsShaped g w → IsShaped g (record w { peak_allocated = p })
  IsShaped-peak w p h = ground (arith, h)

  -- The references of the slots are counted, and the handle is complete.
  adopt_slots-Inv :
      (others : ℕ → ℕ) (s : Store)
      → IsShared others gl
      → Valid g.page_table_elems s
      → Ensures (λ _ t. Inv g.num_phys_pages others g t) (Untouched gl) (adopt_slots g s)
  unfolding adopt_slots
  adopt_slots-Inv others s shared v =
      let n = g.num_phys_pages in
      let within : s.kv.page_table_host.size ≡ g.page_table_elems = v.0.1.page_table ∙ sym shape in
      let slots =
        λ (k : ℕ) (l : k < s.kv.page_table_host.size). v.1 k (subst (λ m. k < m) within l) in
      bind
        (weaken_error (init_pool-Ensures others n s (subst (IsShared others) (sym v.0.0) shared))
          (λ e t same. same ∙ v.0.0))
        λ _ s₁ (kv₁, size, q, c).
          bind
            (weaken_error
              (for_range-Ensures (λ k _ t. Adopted others n s.kv k t) (λ _ _. ⊥)
                (λ k _. retain_slot k) g.page_table_elems 0
                (λ k _ t lo hi. retain_slot-Adopted others n s.kv slots k t (omega (arith, within)))
                tt s₁
                (
                  kv₁,
                  size,
                  q,
                  IsConsistent-ext others _ s₁.global q (λ i. unfold count_slots in omega arith) c,
                ))
              (λ e t bot. absurd bot))
            λ _ t (kv, size', q', c'). returns (finish t kv size' q' c')
    where
      finish :
          (t : Store)
          → t.kv ≡ s.kv
          → t.global.pool.size ≡ g.num_phys_pages
          → (q : List ℕ)
          → IsConsistent
              (λ i. count_slots (0 + g.page_table_elems) s.kv.page_table_host.at i + others i)
              t.global
              q
          → Inv g.num_phys_pages others g
              (record t { kv = record t.kv { peak_allocated = active_count t.global.pool } })
      finish t kv size q c =
          let sizes : s.kv.page_table_host.size ≡ 0 + g.page_table_elems =
            v.0.1.page_table ∙ sym shape ∙ (omega arith) in
          let counted : IsConsistent (λ i. refs_of s.kv.page_table_host i + others i) t.global q =
            IsConsistent-ext
              (λ i. count_slots (0 + g.page_table_elems) s.kv.page_table_host.at i + others i)
              (λ i. refs_of s.kv.page_table_host i + others i) t.global q
              (λ i.
                unfold refs_of in
                ap (λ m. count_slots m s.kv.page_table_host.at i + others i) sizes)
              c in
          record {
            queue = q;
            consistent =
                subst
                  (λ (w : State).
                    IsConsistent (λ i. refs_of w.page_table_host i + others i) t.global q)
                  (sym kv) counted;
            pool_size = size;
            shaped =
                IsShaped-peak t.kv (active_count t.global.pool) (subst (IsShaped g) (sym kv) v.0.1);
            slots = λ k l.
                subst
                  (λ (w : State).
                    k < w.page_table_host.size → IsSlot g.num_phys_pages (w.page_table_host.at k))
                  (sym kv) (λ l'. v.1 k (omega (arith, sizes))) l;
          }

-- What holds of the dimensions of a handle that `create` returns.
created-IsGeometry :
    (gl : Global) (d : KvHandleDesc) (elems : ℕ)
    → Checked gl d
    → elems ≡ pos_part d.num_layers * pos_part d.bs * pos_part d.max_pages_per_seq
    → IsGeometry (geometry_of d elems)
created-IsGeometry gl d elems c e = record {
  layers = c.layers;
  rows = c.rows;
  pages = c.pages;
  block = c.block;
  pattern = c.pattern;
  elems = e;
}

-- From a consistent shared state the constructor either returns a handle with the dimensions of the
-- descriptor, for which the invariant holds, or throws and leaves pool and cache as they were. It
-- accesses no vector out of bounds.
pub create-Inv :
    (d : KvHandleDesc) (others : ℕ → ℕ) (s : Store)
    → IsShared others s.global
    → Ensures
        (λ _ t.
          (elems : ℕ) × IsGeometry (geometry_of d elems)
          × Inv (pos_part d.num_phys_pages) others (geometry_of d elems) t)
        (λ _ t. t.global ≡ s.global)
        (create d s)
unfolding create
create-Inv d others s shared =
    let gl = s.global in
    bind (check_desc-Ensures gl d s refl) λ _ s₁ (same₁, checked).
      bind
        (checked_page_table_elems-Ensures gl (pos_part d.num_layers) (pos_part d.bs)
          (pos_part d.max_pages_per_seq) s₁ (ap (λ (x : Store). x.global) same₁))
        λ elems s₂ (same₂, e).
          bind
            (checked_product-Ensures gl (pos_part d.num_layers) (pos_part d.bs) s₂
              (ap (λ (x : Store). x.global) (same₂ ∙ same₁)))
            λ evict s₃ (same₃, f).
              let g = geometry_of d elems in
              let same : s₃.global ≡ gl = ap (λ (x : Store). x.global) (same₃ ∙ same₂ ∙ same₁) in
              let s₄ : Store = record s₃ { kv = sized_state g evict } in
              bind
                (load_tables-Valid gl g e (pos_part d.start_pos) s₄ (
                  same,
                  record {
                    geometry = refl;
                    page_table = e;
                    seqlens = refl;
                    active = refl;
                    evict = f;
                  },
                ))
                λ _ s₅ v.
                  mono (adopt_slots-Inv gl g e others s₅ shared v)
                    λ _ t inv. (elems, created-IsGeometry gl d elems checked e, inv)
