-- ===== src/Runtime/Scratch/Ready.antt =====
-- The scratch buffers of the decode service in src/decode/runtime.cu are as large as their capacities
-- say, also where a CUDA call fails in between.
use cohere_megakernel.Common.{
  ℕ, ◌*◌, ◌≤◌, ◌<◌, ◌≡◌, ◌⊎◌, inl, inr, refl, arith, false, Option, none, some, List, [], leb, ltb,
  Bool-cases, length, if◌then◌else◌,
}
use cohere_megakernel.Common.Int.{pos, negsuc, int_eq, int_eq_iff}
use cohere_megakernel.Runtime.Failure.{RuntimeError, stream_failure}
use cohere_megakernel.Runtime.Monad.{ok, Ends, returns, Ends-bind}
use cohere_megakernel.Runtime.Service.{NmcZeroRegion, NmcDecodeServiceDesc}
use cohere_megakernel.Runtime.Scratch.{
  Scratch, grow_samples, grow_host, replace_zero_regions, cuda, free_if, clear_vals, clear_idxs,
  clear_host, clear_zero, ensure_sample_capacity, ensure_sampled_host_capacity, upload_zero_regions,
  ensure_zero_regions_dev, partitions, ensure_scratch,
}
use cohere_megakernel.Runtime.Scratch.Calls.{
  elements, SampleFits, HostFits, Table, IsReady, cuda-Keeps, free_if-Keeps, weaker, weaker_error,
}

module _ (regions : List NmcZeroRegion) where
  abbrev Stays : RuntimeError → Scratch → Type 0
  Stays e t = IsReady regions t × (e ≡ stream_failure)

  -- While the sample buffers are replaced
  abbrev Replacing : Scratch → Type 0
  Replacing s =
      (s.sample_capacity ≡ 0)
      × HostFits s
      × ((s.zero_regions_dev_count ≡ negsuc 0) ⊎ Table regions s)

  Replacing-IsReady : (s : Scratch) → Replacing s → IsReady regions s
  Replacing-IsReady s (none_, host, table) = ((omega arith, omega arith), host, table)

  grow_samples-Fits :
      (need : ℕ) (s : Scratch)
      → IsReady regions s
      → Ends
          (λ _ t. IsReady regions t × (need ≤ t.sample_capacity))
          (λ e t. Replacing t × (e ≡ stream_failure))
          (grow_samples need s)
  unfolding grow_samples
  grow_samples-Fits need s h =
      Ends-bind
        (free_if-Keeps Replacing s.sample_partial_vals clear_vals (λ u r p. p) (λ u p. p)
          (record s { sample_capacity = 0 }) (refl, h.1, h.2))
        λ _ t₁ k₁.
          Ends-bind
            (free_if-Keeps Replacing t₁.sample_partial_idxs clear_idxs (λ u r p. p) (λ u p. p) t₁
              k₁)
            λ _ t₂ k₂. Ends-bind (cuda-Keeps Replacing (λ u r p. p) t₂ k₂) λ _ t₃ k₃.
              Ends-bind
                (weaker_error (cuda (record t₃ { sample_partial_vals = some need }))
                  (cuda-Keeps (λ u. Replacing u × (u.sample_partial_vals ≡ some need)) (λ u r p. p)
                    (record t₃ { sample_partial_vals = some need }) (k₃, refl))
                  (λ e u (p, f). (p.0, f)))
                λ _ t₄ (k₄, vals).
                  returns
                    (((fits t₄.sample_partial_vals vals, omega arith), k₄.1, k₄.2), omega arith)
    where
      fits : (v : Option ℕ) → v ≡ some need → need ≤ elements v
      fits none e = cc
      fits (some m) e = ground (arith, e)

  ensure_sample-IsReady :
      (need : ℕ) (s : Scratch)
      → IsReady regions s
      → Ends
          (λ _ t. IsReady regions t × (need ≤ t.sample_capacity))
          Stays
          (ensure_sample_capacity need s)
  unfolding ensure_sample_capacity
  ensure_sample-IsReady need s h = elim (Bool-cases (leb need s.sample_capacity)) [
    | inl enough ↦ rw enough (returns (h, ground (arith, enough)))
    | inr short ↦ rw short (
        weaker (grow_samples need s) (grow_samples-Fits need s h) (λ t k. k)
          (λ e t (k, f). (Replacing-IsReady t k, f)))
  ]

  -- While the buffer of tokens is replaced
  abbrev Rehosting : Scratch → Type 0
  Rehosting s =
      SampleFits s
      × (s.sampled_host_capacity ≡ 0)
      × ((s.zero_regions_dev_count ≡ negsuc 0) ⊎ Table regions s)

  -- A demand on the sample buffers, which the others leave alone
  ensure_host-IsReady :
      (want need : ℕ) (s : Scratch)
      → IsReady regions s × (want ≤ s.sample_capacity)
      → Ends
          (λ _ t. IsReady regions t × (want ≤ t.sample_capacity) × (need ≤ t.sampled_host_capacity))
          Stays
          (ensure_sampled_host_capacity need s)
  unfolding ensure_sampled_host_capacity grow_host
  ensure_host-IsReady want need s (h, w) = elim (Bool-cases (leb need s.sampled_host_capacity)) [
    | inl enough ↦ rw enough (returns (h, w, ground (arith, enough)))
    | inr short ↦ rw short (
        Ends-bind
          (weaker_error (free_if s.sampled_host clear_host (record s { sampled_host_capacity = 0 }))
            (free_if-Keeps (λ u. Rehosting u × (want ≤ u.sample_capacity)) s.sampled_host clear_host
              (λ u r p. p) (λ u p. p) (record s { sampled_host_capacity = 0 })
              ((h.0, refl, h.2), w))
            (λ e u (p, f). (idle u p.0, f)))
          λ _ t₁ k₁.
            Ends-bind
              (weaker_error (cuda t₁)
                (cuda-Keeps (λ u. Rehosting u × (want ≤ u.sample_capacity)) (λ u r p. p) t₁ k₁)
                (λ e u (p, f). (idle u p.0, f)))
              λ _ t₂ (k₂, w₂). returns ((k₂.0, omega arith, k₂.2), w₂, omega arith))
  ]
    where
      idle : (u : Scratch) → Rehosting u → IsReady regions u
      idle u (samples, none_, table) = (samples, omega arith, table)

  -- While the table is replaced
  abbrev Uploading : ℕ → ℕ → Scratch → Type 0
  Uploading want need s =
      (SampleFits s × HostFits s)
      × (want ≤ s.sample_capacity)
      × (need ≤ s.sampled_host_capacity)
      × (s.zero_regions_dev_count ≡ negsuc 0)

  upload-Table :
      (want need : ℕ) (s : Scratch)
      → Uploading want need s
      → Ends
          (λ _ t. Uploading want need t × (t.zero_regions_dev ≡ some regions))
          (λ e t. Uploading want need t × (e ≡ stream_failure))
          (upload_zero_regions regions s)
  unfolding upload_zero_regions
  upload-Table want need s k =
      Ends-bind (cuda-Keeps (Uploading want need) (λ u r p. p) s k) λ _ t₁ k₁.
        Ends-bind
          (cuda-Keeps (Uploading want need) (λ u r p. p) (record t₁ { zero_regions_dev = some [] })
            k₁)
          λ _ t₂ k₂.
            weaker_error (cuda (record t₂ { zero_regions_dev = some regions }))
              (cuda-Keeps (λ u. Uploading want need u × (u.zero_regions_dev ≡ some regions))
                (λ u r p. p) (record t₂ { zero_regions_dev = some regions }) (k₂, refl))
              (λ e u (p, f). (p.0, f))

  ensure_zero-IsReady :
      (want need : ℕ) (s : Scratch)
      → IsReady regions s × (want ≤ s.sample_capacity) × (need ≤ s.sampled_host_capacity)
      → Ends
          (λ _ t.
            IsReady regions t
            × (want ≤ t.sample_capacity)
            × (need ≤ t.sampled_host_capacity)
            × Table regions t)
          Stays
          (ensure_zero_regions_dev regions s)
  unfolding ensure_zero_regions_dev replace_zero_regions
  ensure_zero-IsReady want need s (h, w, n) =
      elim (Bool-cases (int_eq s.zero_regions_dev_count (pos (length regions)))) [
        | inl same ↦
            let e = (int_eq_iff s.zero_regions_dev_count (pos (length regions))).0 same in
            rw same (returns (h, w, n, current h.2 e))
        | inr new ↦ rw new (
            Ends-bind
              (weaker_error (free_if s.zero_regions_dev clear_zero s)
                (free_if-Keeps (Uploading want need) s.zero_regions_dev clear_zero (λ u r p. p)
                  (λ u p. p) s ((h.0, h.1), w, n, stale h.2 new))
                idle)
              λ _ t k. Ends-bind (fill t k) λ _ u (k', table).
                returns ((k'.0.0, k'.0.1, inr (refl, table)), k'.1, k'.2, (refl, table)))
      ]
    where
      idle :
          (e : RuntimeError) (u : Scratch)
          → Uploading want need u × (e ≡ stream_failure)
          → Stays e u
      idle e u (p, f) = ((p.0.0, p.0.1, inl p.3), f)

      current :
          (s.zero_regions_dev_count ≡ negsuc 0) ⊎ Table regions s
          → s.zero_regions_dev_count ≡ pos (length regions)
          → Table regions s
      current (inl stale_) e = cc
      current (inr table) e = table

      stale :
          (s.zero_regions_dev_count ≡ negsuc 0) ⊎ Table regions s
          → int_eq s.zero_regions_dev_count (pos (length regions)) ≡ false
          → s.zero_regions_dev_count ≡ negsuc 0
      stale (inl stale_) e = stale_
      stale (inr table) e = absurd (ground (arith, table.0))

      fill :
          (t : Scratch)
          → Uploading want need t
          → Ends
              (λ _ u.
                Uploading want need u × (0 < length regions → u.zero_regions_dev ≡ some regions))
              Stays
              ((if ltb 0 (length regions) then upload_zero_regions regions else ok tt) t)
      fill t k = elim (Bool-cases (ltb 0 (length regions))) [
        | inl some_ ↦ rw some_ (
            weaker (upload_zero_regions regions t) (upload-Table want need t k)
              (λ u (p, q). (p, λ _. q)) idle)
        | inr none_ ↦ rw none_ (returns (k, λ l. absurd (ground (arith, none_))))
      ]

-- From buffers that are as large as their capacities say, what a step does to its scratch buffers
-- either leaves the sample buffers with `partitions` elements for each row, the tokens with one, and
-- the device's table with the zero regions of the descriptor; or a CUDA call fails. In both cases the
-- buffers are again as large as their capacities say, and the table is current or marked as stale.
pub ensure_scratch_lem :
    (d : NmcDecodeServiceDesc) (b : ℕ) (s : Scratch)
    → IsReady d.zero_regions s
    → Ends
        (λ _ t.
          IsReady d.zero_regions t
          × (b * partitions d b ≤ elements t.sample_partial_vals)
          × (b * partitions d b ≤ elements t.sample_partial_idxs)
          × (b ≤ elements t.sampled_host)
          × (0 < length d.zero_regions → t.zero_regions_dev ≡ some d.zero_regions))
        (λ e t. IsReady d.zero_regions t × (e ≡ stream_failure))
        (ensure_scratch d b s)
unfolding ensure_scratch
ensure_scratch_lem d b s h =
    Ends-bind (ensure_sample-IsReady d.zero_regions (b * partitions d b) s h) λ _ t₁ h₁.
      Ends-bind (ensure_host-IsReady d.zero_regions (b * partitions d b) b t₁ h₁) λ _ t₂ h₂.
        weaker (ensure_zero_regions_dev d.zero_regions t₂)
          (ensure_zero-IsReady d.zero_regions (b * partitions d b) b t₂ h₂)
          (λ u (r, w, n, table).
            (r, omega (arith, r.0.0), omega (arith, r.0.1), omega (arith, r.1), table.1))
          (λ e u p. p)
