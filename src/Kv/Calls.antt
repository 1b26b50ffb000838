-- ===== src/Kv/Calls.antt =====
-- The calls that change a handle of src/kv/cache.h, as one type, and runs of them.
pub mod Invariant
use cohere_megakernel.Common.{ℕ, Bool, Option, none, some, List, [], ◌∷◌}
use cohere_megakernel.Common.Int.{ℤ}
use cohere_megakernel.Kv.State.{Geometry}
use cohere_megakernel.Kv.Store.{Store, Outcome, ok, throws, undefined, M, pure, ◌>>◌}
use cohere_megakernel.Kv.Publish.{prefix_publish, prefix_cache_clear}
use cohere_megakernel.Kv.Decode.{Array, step_decode_positions, set_cache_seqlens, free_row}
use cohere_megakernel.Kv.Prefill.{
  prepare_prefill, prepare_prefill_masked, step_prefill_chunk, step_prefill_chunk_masked,
}
use cohere_megakernel.Kv.Attach.{prefix_attach, prefix_attach_batch, prefix_can_attach}

pub data Call : Type 0 where
  prepares : Option Array → Call
  prepares_masked : Option Array → Option Array → Call
  steps_chunk : ℤ → ℤ → ℤ → Call
  steps_chunk_masked : ℤ → ℤ → ℤ → Option Array → Call
  decodes : Option Array → Option Array → Call
  sets_seqlens : Option Array → Call
  frees_row : ℤ → Call
  attaches : Option (List ℕ) → ℤ → ℤ → ℤ → ℤ → Call
  attaches_batch : Option (List ℕ) → ℤ → Option Array → Option Array → Option Array → ℤ → Call
  can_attach : Option (List ℕ) → ℤ → ℤ → ℤ → Call
  publishes : Option (List ℕ) → ℤ → ℤ → ℤ → Call
  clears_cache : Call

abbrev clear_cache : M (Unit {0})
clear_cache s = ok tt (record s { global = prefix_cache_clear s.global })

abbrev ignore : M Bool → M (Unit {0})
ignore m = m >> pure tt

-- What a call does, the results of those that return a Boolean left aside.
unfoldable pub perform : Geometry → Call → M (Unit {0})
perform g (prepares lengths) = prepare_prefill g lengths
perform g (prepares_masked lengths active) = prepare_prefill_masked g lengths active
perform g (steps_chunk layer from to) = step_prefill_chunk g layer from to
perform g (steps_chunk_masked layer from to active) =
    step_prefill_chunk_masked g layer from to active
perform g (decodes positions active) = step_decode_positions g positions active
perform g (sets_seqlens lengths) = set_cache_seqlens g lengths
perform g (frees_row row) = free_row g row
perform g (attaches key len row block from) = ignore (prefix_attach g key len row block from)
perform g (attaches_batch keys len rows blocks from count) =
    ignore (prefix_attach_batch g keys len rows blocks from count)
perform g (can_attach key len block from) = ignore (prefix_can_attach g key len block from)
perform g (publishes key len row block) = ignore (prefix_publish g key len row block)
perform g clears_cache = clear_cache

-- The state behind a call, whether it returned or threw; `none` where its behaviour is undefined.
abbrev pub state_after : Outcome (Unit {0}) → Option Store
state_after (ok _ s) = some s
state_after (throws _ s) = some s
state_after undefined = none

-- The calls in their order, each on what the one before has left.
unfoldable pub history : Geometry → List Call → Store → Option Store
history g [] s = some s
history g (c ∷ cs) s = elim (state_after (perform g c s)) [ none ↦ none | some t ↦ history g cs t ]
