-- ===== src/Runtime/Scratch.antt =====
-- The scratch buffers of `NmcDecodeService` in src/decode/runtime.cu, which a step grows to what it
-- needs: the sample partials, the page-locked tokens, and the device's table of zero regions.
pub mod Calls
pub mod Ready
use cohere_megakernel.Common.{
  ℕ, zero, suc, ◌+◌, ◌-◌, ◌*◌, ◌/◌, min, max, Bool, true, false, not, Option, none, some, List, [],
  ◌∷◌, leb, ltb, ◌==◌, if◌then◌else◌, length,
}
use cohere_megakernel.Common.Int.{ℤ, pos, pos_part, negsuc, int_eq}
use cohere_megakernel.Runtime.Failure.{stream_failure}
use cohere_megakernel.Runtime.Monad.{Outcome, ok, throws, pure, ◌>>=◌, ◌>>◌, modify}
use cohere_megakernel.Runtime.Service.{NmcZeroRegion, NmcDecodeServiceDesc}

-- A buffer is the number of its elements, and the zero table what it holds; `none` is null. The list
-- says which of the CUDA calls to come succeed, and behind its end they all do.
pub record Scratch : Type 0 where
  pub sample_partial_vals : Option ℕ
  pub sample_partial_idxs : Option ℕ
  pub sample_capacity : ℕ
  pub sampled_host : Option ℕ
  pub sampled_host_capacity : ℕ
  pub zero_regions_dev : Option (List NmcZeroRegion)
  pub zero_regions_dev_count : ℤ
  pub cuda_results : List Bool

abbrev pub S : Type 0 → Type 0
S A = Scratch → Outcome Scratch A

-- `MK_NMC_CUDA_CHECK` around a call that changes nothing by itself here
unfoldable pub cuda : S (Unit {0})
cuda s = elim s.cuda_results [
  | [] ↦ ok tt s
  | c ∷ rest ↦
      let s' = record s { cuda_results = rest } in if c then ok tt s' else throws stream_failure s'
]

-- `if (p) { CUDA_CHECK(cudaFree(p)); p = nullptr; }`, with the assignment as an argument
unfoldable pub free_if : {A : Type 0} → Option A → (Scratch → Scratch) → S (Unit {0})
free_if none clear = pure tt
free_if (some a) clear = do cuda; modify clear

abbrev pub clear_vals : Scratch → Scratch
clear_vals s = record s { sample_partial_vals = none }

abbrev pub clear_idxs : Scratch → Scratch
clear_idxs s = record s { sample_partial_idxs = none }

abbrev pub clear_host : Scratch → Scratch
clear_host s = record s { sampled_host = none }

abbrev pub clear_zero : Scratch → Scratch
clear_zero s = record s { zero_regions_dev = none }

-- `ensure_sample_capacity` where the buffers are too small
unfoldable pub grow_samples : ℕ → S (Unit {0})
grow_samples need = do
  modify (λ s. record s { sample_capacity = 0 })
  (λ s. free_if s.sample_partial_vals clear_vals s)
  (λ s. free_if s.sample_partial_idxs clear_idxs s)
  cuda
  modify (λ s. record s { sample_partial_vals = some need })
  cuda
  modify (λ s. record s { sample_partial_idxs = some need })
  modify (λ s. record s { sample_capacity = need })

unfoldable pub ensure_sample_capacity : ℕ → S (Unit {0})
ensure_sample_capacity need s = if leb need s.sample_capacity then ok tt s else grow_samples need s

unfoldable pub grow_host : ℕ → S (Unit {0})
grow_host need = do
  modify (λ s. record s { sampled_host_capacity = 0 })
  (λ s. free_if s.sampled_host clear_host s)
  cuda
  modify (λ s. record s { sampled_host = some need })
  modify (λ s. record s { sampled_host_capacity = need })

unfoldable pub ensure_sampled_host_capacity : ℕ → S (Unit {0})
ensure_sampled_host_capacity need s =
    if leb need s.sampled_host_capacity then ok tt s else grow_host need s

-- The new table: its allocation, the copy, and the wait for it
unfoldable pub upload_zero_regions : List NmcZeroRegion → S (Unit {0})
upload_zero_regions regions = do
  cuda
  modify (λ t. record t { zero_regions_dev = some [] })
  cuda
  modify (λ t. record t { zero_regions_dev = some regions })
  cuda

unfoldable pub replace_zero_regions : List NmcZeroRegion → S (Unit {0})
replace_zero_regions regions = do
  (λ s. free_if s.zero_regions_dev clear_zero s)
  if ltb 0 (length regions) then upload_zero_regions regions else pure tt
  modify (λ s. record s { zero_regions_dev_count = pos (length regions) })

unfoldable pub ensure_zero_regions_dev : List NmcZeroRegion → S (Unit {0})
ensure_zero_regions_dev regions s =
    if int_eq s.zero_regions_dev_count (pos (length regions))
    then ok tt s
    else replace_zero_regions regions s

abbrev pub min_sample_partitions : ℕ
min_sample_partitions = 16

abbrev pub max_sample_partitions : ℕ
max_sample_partitions = 256

-- `partitions`, for a batch of `b` rows
unfoldable pub partitions : NmcDecodeServiceDesc → ℕ → ℕ
partitions d b =
    let num_sms = max 1 (pos_part d.launch.num_sms) in
    min (min (max min_sample_partitions ((num_sms + b - 1) / b)) max_sample_partitions)
      (pos_part d.vocab_size)

-- What a step of `run` does to them before its snapshot
unfoldable pub ensure_scratch : NmcDecodeServiceDesc → ℕ → S (Unit {0})
ensure_scratch d b = do
  ensure_sample_capacity (b * partitions d b)
  ensure_sampled_host_capacity b
  ensure_zero_regions_dev d.zero_regions
