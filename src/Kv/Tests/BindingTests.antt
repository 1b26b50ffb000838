-- ===== src/Kv/Tests/BindingTests.antt =====
-- The theorem about the methods of src/bindings/kv.cpp at a batch of two keys, and runs of two of its tests.
use cohere_megakernel.Common.{◌++◌, ◌≡◌, refl, arith, true, false, [], ◌∷◌}
use cohere_megakernel.Common.Int.{pos, negsuc}
use cohere_megakernel.Kv.Pool.{zero_hash}
use cohere_megakernel.Kv.Bindings.{
  Memory, Method, check_batch_len, as_size_t, batch_fits, call_prefix_attach_batch, serve,
}
use cohere_megakernel.Kv.Bindings.Served.{serve_lem}
use cohere_megakernel.Kv.Tests.{small, small_state}

-- Two states of the memory around the arguments
abbrev zeros : Memory
zeros = record { behind = λ k i. pos 0; tail = [] }

abbrev garbage : Memory
garbage = record { behind = λ k i. negsuc i; tail = 255 ∷ 17 ∷ [] }

abbrev two_keys : Method
two_keys =
    call_prefix_attach_batch (zero_hash.bytes ++ zero_hash.bytes) (pos 32) (pos 0 ∷ pos 0 ∷ [])
      (pos 0 ∷ pos 1 ∷ []) (pos 0 ∷ pos 0 ∷ [])

serve_lem_example :
    serve false zeros small small_state two_keys ≡ serve false garbage small small_state two_keys
serve_lem_example = serve_lem false zeros garbage small small_state two_keys (omega arith)

two_keys_fit :
    batch_fits
      (zero_hash.bytes ++ zero_hash.bytes)
      (pos 32)
      (pos 0 ∷ pos 0 ∷ [])
      (pos 0 ∷ pos 1 ∷ [])
      (pos 0 ∷ pos 0 ∷ [])
    ≡ true
unfolding batch_fits as_size_t zero_hash
two_keys_fit = refl

-- A list that is too short for the batch
too_short : check_batch_len [] (pos 1) ≡ false
unfolding check_batch_len as_size_t
too_short = refl
