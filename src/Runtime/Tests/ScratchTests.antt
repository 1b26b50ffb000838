-- ===== src/Runtime/Tests/ScratchTests.antt =====
-- The scratch buffers of a service of src/decode/runtime.cu, before its first step.
use cohere_megakernel.Common.{
  ◌*◌, ◌≤◌, ◌<◌, ◌≡◌, refl, arith, true, false, none, some, [], ◌∷◌, length, inl,
}
use cohere_megakernel.Common.Int.{negsuc}
use cohere_megakernel.Runtime.Failure.{stream_failure}
use cohere_megakernel.Runtime.Monad.{Ends}
use cohere_megakernel.Runtime.Scratch.{Scratch, partitions, ensure_scratch}
use cohere_megakernel.Runtime.Scratch.Calls.{elements, IsReady}
use cohere_megakernel.Runtime.Scratch.Ready.{ensure_scratch_lem}
use cohere_megakernel.Runtime.Service.{NmcDecodeServiceDesc}
use cohere_megakernel.Runtime.Tests.{desc}

-- One zero region, and a fourth CUDA call that fails
abbrev zeroing : NmcDecodeServiceDesc
zeroing = record desc { zero_regions = record { ptr = 4096; bytes = 64 } ∷ [] }

abbrev fresh : Scratch
fresh = record {
  sample_partial_vals = none;
  sample_partial_idxs = none;
  sample_capacity = 0;
  sampled_host = none;
  sampled_host_capacity = 0;
  zero_regions_dev = none;
  zero_regions_dev_count = negsuc 0;
  cuda_results = true ∷ true ∷ true ∷ false ∷ [];
}

ensure_scratch_lem_example :
    Ends
      (λ _ t.
        IsReady zeroing.zero_regions t
        × (2 * partitions zeroing 2 ≤ elements t.sample_partial_vals)
        × (2 * partitions zeroing 2 ≤ elements t.sample_partial_idxs)
        × (2 ≤ elements t.sampled_host)
        × (0 < length zeroing.zero_regions → t.zero_regions_dev ≡ some zeroing.zero_regions))
      (λ e t. IsReady zeroing.zero_regions t × (e ≡ stream_failure))
      (ensure_scratch zeroing 2 fresh)
ensure_scratch_lem_example =
    ensure_scratch_lem zeroing 2 fresh ((omega arith, omega arith), omega arith, inl refl)
