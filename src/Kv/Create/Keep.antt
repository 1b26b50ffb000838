-- ===== src/Kv/Create/Keep.antt =====
-- A handle that the constructor of src/kv/cache.cpp returns satisfies the invariant.
use cohere_megakernel.Common.{
  ℕ, ◌*◌, ◌<◌, ◌≡◌, refl, ◌∙◌, ap, Bool, true, false, not, ◌&&◌, arith, ltb, ◌==◌, ◌/◌, Bool-cases,
  inl, inr, List, [], ◌∷◌,
}
use cohere_megakernel.Common.Int.{pos_part}
use cohere_megakernel.Kv.Global.{Global, KvError}
use cohere_megakernel.Kv.State.{Geometry}
use cohere_megakernel.Kv.Store.{Store, cuda_call}
use cohere_megakernel.Kv.Store.Ensures.{Ensures, returns, raises, bind}
use cohere_megakernel.Kv.Rows.Inv.{IsShaped}
use cohere_megakernel.Kv.Create.{
  size_max, checked_product, checked_page_table_elems, KvHandleDesc, check_desc,
  dimensions_positive, window_not_negative, start_in_context, load_page_table, load_seqlens,
  load_row_active,
}

module _ (gl : Global) where
  -- Nothing of the shared state has changed.
  abbrev pub Untouched : KvError → Store → Type 0
  Untouched e t = t.global ≡ gl

  -- What the checks of the dimensions establish.
  pub record Checked (d : KvHandleDesc) : Type 0 where
    pub layers : 0 < pos_part d.num_layers
    pub rows : 0 < pos_part d.bs
    pub pages : 0 < pos_part d.max_pages_per_seq
    pub block : 0 < pos_part d.page_block_size
    pub pattern : 0 < pos_part d.sw_pattern

  Checked-of :
      (d : KvHandleDesc) → dimensions_positive d ≡ true → window_not_negative d ≡ true → Checked d
  unfolding dimensions_positive window_not_negative
  Checked-of d a b = ground arith

  pub check_desc-Ensures :
      (d : KvHandleDesc) (s : Store)
      → s.global ≡ gl
      → Ensures (λ _ t. (t ≡ s) × Checked d) Untouched (check_desc d s)
  unfolding check_desc
  check_desc-Ensures d s same = elim (Bool-cases (not (d.page_table == 0))) [
    | inr bad ↦ rw bad (raises same)
    | inl given ↦ rw given (elim (Bool-cases (dimensions_positive d)) [
      | inr bad ↦ rw bad (raises same)
      | inl a ↦ rw a (elim (Bool-cases (window_not_negative d)) [
        | inr bad ↦ rw bad (raises same)
        | inl b ↦ rw b (elim (Bool-cases (start_in_context d)) [
          | inr bad ↦ rw bad (raises same)
          | inl c ↦ rw c (returns (refl, Checked-of d a b))
        ])
      ])
    ])
  ]

  pub checked_product-Ensures :
      (left right : ℕ) (s : Store)
      → s.global ≡ gl
      → Ensures (λ p t. (t ≡ s) × (p ≡ left * right)) Untouched (checked_product left right s)
  unfolding checked_product
  checked_product-Ensures left right s same =
      elim (Bool-cases (not (right == 0) && ltb (size_max / right) left)) [
        | inl big ↦ rw big (raises same)
        | inr fits ↦ rw fits (returns (refl, refl))
      ]

  pub checked_page_table_elems-Ensures :
      (l b m : ℕ) (s : Store)
      → s.global ≡ gl
      → Ensures (λ p t. (t ≡ s) × (p ≡ l * b * m)) Untouched (checked_page_table_elems l b m s)
  unfolding checked_page_table_elems
  checked_page_table_elems-Ensures l b m s same =
      bind (checked_product-Ensures l b s same) λ p t (e, p_lem).
        bind (checked_product-Ensures p m t (ap (λ (x : Store). x.global) e ∙ same))
          λ r u (e', r_lem). elim (Bool-cases (ltb (size_max / 4) r)) [
            | inl big ↦ rw big (raises (ap (λ (x : Store). x.global) (e' ∙ e) ∙ same))
            | inr fits ↦ rw fits (returns (e' ∙ e, r_lem ∙ ap (λ (x : ℕ). x * m) p_lem))
          ]

  -- The tables have their sizes, and the shared state is as it was.
  abbrev pub Sized : Geometry → Store → Type 0
  Sized g t = (t.global ≡ gl) × IsShaped g t.kv

  cuda_call-Sized :
      (g : Geometry) (s : Store) (results : List Bool)
      → s.cuda_results ≡ results
      → Sized g s
      → Ensures (λ _ t. Sized g t) Untouched (cuda_call s)
  unfolding cuda_call
  cuda_call-Sized g s [] e h = rw (e, cuda_call) (returns h)
  cuda_call-Sized g s (true ∷ r) e h = rw (e, cuda_call) (returns (h.0, h.1))
  cuda_call-Sized g s (false ∷ r) e h = rw (e, cuda_call) (raises h.0)

  module _ (g : Geometry) where
    pub load_page_table-Sized :
        (s : Store) → Sized g s → Ensures (λ _ t. Sized g t) Untouched (load_page_table s)
    unfolding load_page_table
    load_page_table-Sized s h =
        bind (cuda_call-Sized g s s.cuda_results refl h)
          λ _ t (same, shape). returns (same, ground (arith, shape))

    pub load_seqlens-Sized :
        (start_pos : ℕ) (s : Store)
        → Sized g s
        → Ensures (λ _ t. Sized g t) Untouched (load_seqlens g start_pos s)
    unfolding load_seqlens
    load_seqlens-Sized start_pos s h = elim (Bool-cases (g.cache_seqlens == 0)) [
      | inl null ↦ rw null (returns (h.0, ground (arith, h.1)))
      | inr given ↦ rw given (
          bind (cuda_call-Sized g s s.cuda_results refl h)
            λ _ t (same, shape). returns (same, ground (arith, shape)))
    ]

    pub load_row_active-Sized :
        (s : Store) → Sized g s → Ensures (λ _ t. Sized g t) Untouched (load_row_active g s)
    unfolding load_row_active
    load_row_active-Sized s h = elim (Bool-cases (g.row_active == 0)) [
      | inl null ↦ rw null (returns h)
      | inr given ↦ rw given (
          bind (cuda_call-Sized g s s.cuda_results refl h)
            λ _ t (same, shape). returns (same, ground (arith, shape)))
    ]
