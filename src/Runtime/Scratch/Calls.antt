-- ===== src/Runtime/Scratch/Calls.antt =====
-- The parts of the scratch buffers' functions in src/decode/runtime.cu: what is to hold of the buffers,
-- CUDA calls, and the release of a buffer.
use cohere_megakernel.Common.{
  ℕ, ◌≤◌, ◌<◌, ◌≡◌, ◌⊎◌, refl, Bool, true, false, Option, none, some, List, [], ◌∷◌, length,
  if◌then◌else◌,
}
use cohere_megakernel.Common.Int.{pos, negsuc}
use cohere_megakernel.Runtime.Failure.{RuntimeError, stream_failure}
use cohere_megakernel.Runtime.Monad.{Outcome, ok, throws, Ends, returns, raises, Ends-bind}
use cohere_megakernel.Runtime.Service.{NmcZeroRegion}
use cohere_megakernel.Runtime.Scratch.{Scratch, S, cuda, free_if}

abbrev pub elements : Option ℕ → ℕ
elements none = 0
elements (some n) = n

abbrev pub SampleFits : Scratch → Type 0
SampleFits s =
    (s.sample_capacity ≤ elements s.sample_partial_vals)
    × (s.sample_capacity ≤ elements s.sample_partial_idxs)

abbrev pub HostFits : Scratch → Type 0
HostFits s = s.sampled_host_capacity ≤ elements s.sampled_host

-- The table is marked as stale, or is the one of these regions.
abbrev pub Table : List NmcZeroRegion → Scratch → Type 0
Table regions s =
    (s.zero_regions_dev_count ≡ pos (length regions))
    × (0 < length regions → s.zero_regions_dev ≡ some regions)

abbrev pub IsReady : List NmcZeroRegion → Scratch → Type 0
IsReady regions s =
    SampleFits s × HostFits s × ((s.zero_regions_dev_count ≡ negsuc 0) ⊎ Table regions s)

-- A predicate that no result of a CUDA call changes
abbrev pub Stable : (Scratch → Type 0) → Type 0
Stable P = (s : Scratch) (rest : List Bool) → P s → P (record s { cuda_results = rest })

abbrev pub Keeps : (Scratch → Type 0) → S (Unit {0}) → Type 0
Keeps P m = (s : Scratch) → P s → Ends (λ _ t. P t) (λ e t. P t × (e ≡ stream_failure)) (m s)

pub cuda-Keeps : (P : Scratch → Type 0) → Stable P → Keeps P cuda
unfolding cuda
cuda-Keeps P stable s h =
    elim s.cuda_results
      as (λ r.
        Ends (λ _ t. P t) (λ e t. P t × (e ≡ stream_failure))
          (elim r [
            | [] ↦ ok tt s
            | c ∷ rest ↦
                let s' = record s { cuda_results = rest } in
                if c then ok tt s' else throws stream_failure s'
          ])) [
            | [] ↦ returns h
            | true ∷ rest ↦ returns (stable s rest h)
            | false ∷ rest ↦ raises (stable s rest h, refl)
          ]

pub free_if-Keeps :
    {A : Type 0} (P : Scratch → Type 0) (p : Option A) (clear : Scratch → Scratch)
    → Stable P
    → ((s : Scratch) → P s → P (clear s))
    → Keeps P (free_if p clear)
unfolding free_if
free_if-Keeps P none clear stable cleared s h = returns h
free_if-Keeps P (some a) clear stable cleared s h =
    Ends-bind (cuda-Keeps P stable s h) λ _ t k. returns (cleared t k)

pub weaker :
    {Q R : Unit {0} → Scratch → Type 0} {E F : RuntimeError → Scratch → Type 0}
    (r : Outcome Scratch (Unit {0}))
    → Ends Q E r
    → ((s : Scratch) → Q tt s → R tt s)
    → ((e : RuntimeError) (s : Scratch) → E e s → F e s)
    → Ends R F r
weaker _ (returns {a = tt} q) f g = returns (f _ q)
weaker _ (raises e) f g = raises (g _ _ e)

pub weaker_error :
    {Q : Unit {0} → Scratch → Type 0} {E F : RuntimeError → Scratch → Type 0}
    (r : Outcome Scratch (Unit {0}))
    → Ends Q E r
    → ((e : RuntimeError) (s : Scratch) → E e s → F e s)
    → Ends Q F r
weaker_error r h g = weaker r h (λ s q. q) g
