-- ===== src/Kv/Calls/Invariant.antt =====
-- Every call of a handle keeps the invariant, and none runs into undefined behaviour.
use cohere_megakernel.Common.{ℕ, Bool, ◌≡◌, refl, some, List, [], ◌∷◌}
use cohere_megakernel.Kv.State.{Geometry}
use cohere_megakernel.Kv.Store.{Store, Outcome, ok, throws, undefined, M}
use cohere_megakernel.Kv.Store.Ensures.{Ensures, Keeps, returns, raises, Keeps-bind}
use cohere_megakernel.Kv.Rows.Inv.{Inv}
use cohere_megakernel.Kv.Rows.Access.{pure-Keeps}
use cohere_megakernel.Kv.Publish.{prefix_cache_clear}
use cohere_megakernel.Kv.Publish.Keep.{prefix_publish-Keeps}
use cohere_megakernel.Kv.Publish.Mark.{prefix_cache_clear-IsConsistent}
use cohere_megakernel.Kv.Decode.Keep.{
  step_decode_positions-Keeps, set_cache_seqlens-Keeps, free_row-Keeps,
}
use cohere_megakernel.Kv.Prefill.Keep.{
  prepare_prefill-Keeps, prepare_prefill_masked-Keeps, step_prefill_chunk-Keeps,
  step_prefill_chunk_masked-Keeps,
}
use cohere_megakernel.Kv.Attach.Keep.{
  prefix_attach-Keeps, prefix_attach_batch-Keeps, prefix_can_attach-Keeps,
}
use cohere_megakernel.Kv.Calls.{
  Call, prepares, prepares_masked, steps_chunk, steps_chunk_masked, decodes, sets_seqlens,
  frees_row, attaches, attaches_batch, can_attach, publishes, clears_cache, clear_cache, ignore,
  perform, state_after, history,
}

module _ (n : ℕ) (others : ℕ → ℕ) (g : Geometry) where
  ignore-Keeps : (m : M Bool) → Keeps (Inv n others g) m → Keeps (Inv n others g) (ignore m)
  ignore-Keeps m keep = Keeps-bind m _ keep λ _. pure-Keeps n others g tt

  clear_cache-Keeps : Keeps (Inv n others g) clear_cache
  clear_cache-Keeps s inv = returns (record {
    queue = inv.queue;
    consistent = prefix_cache_clear-IsConsistent _ s.global inv.queue inv.consistent;
    pool_size = unfold prefix_cache_clear in inv.pool_size;
    shaped = inv.shaped;
    slots = inv.slots;
  })

  perform-Keeps : (c : Call) → Keeps (Inv n others g) (perform g c)
  unfolding perform
  perform-Keeps (prepares lengths) = prepare_prefill-Keeps n others g lengths
  perform-Keeps (prepares_masked lengths active) =
      prepare_prefill_masked-Keeps n others g lengths active
  perform-Keeps (steps_chunk layer from to) = step_prefill_chunk-Keeps n others g layer from to
  perform-Keeps (steps_chunk_masked layer from to active) =
      step_prefill_chunk_masked-Keeps n others g layer from to active
  perform-Keeps (decodes positions active) = step_decode_positions-Keeps n others g positions active
  perform-Keeps (sets_seqlens lengths) = set_cache_seqlens-Keeps n others g lengths
  perform-Keeps (frees_row row) = free_row-Keeps n others g row
  perform-Keeps (attaches key len row block from) =
      ignore-Keeps _ (prefix_attach-Keeps n others g key len row block from)
  perform-Keeps (attaches_batch keys len rows blocks from count) =
      ignore-Keeps _ (prefix_attach_batch-Keeps n others g keys len rows blocks from count)
  perform-Keeps (can_attach key len block from) =
      ignore-Keeps _ (prefix_can_attach-Keeps n others g key len block from)
  perform-Keeps (publishes key len row block) =
      ignore-Keeps _ (prefix_publish-Keeps n others g key len row block)
  perform-Keeps clears_cache = clear_cache-Keeps

  state_after-Inv :
      (r : Outcome (Unit {0}))
      → Ensures (λ _ t. Inv n others g t) (λ _ t. Inv n others g t) r
      → (t : Store) × (state_after r ≡ some t) × Inv n others g t
  state_after-Inv (ok u s) (returns inv) = (s, refl, inv)
  state_after-Inv (throws e s) (raises inv) = (s, refl, inv)
  state_after-Inv undefined e = elim e [ ]

  -- Whatever calls a handle gets, with whatever arguments and whatever CUDA answers, none of them
  -- accesses a vector out of bounds, and the reference counts, the free queue, the page table and
  -- the prefix cache stay in step.
  pub history-Inv :
      (cs : List Call) (s : Store)
      → Inv n others g s
      → (t : Store) × (history g cs s ≡ some t) × Inv n others g t
  unfolding history
  history-Inv [] s inv = (s, refl, inv)
  history-Inv (c ∷ cs) s inv =
      let (t, after, kept) = state_after-Inv (perform g c s) (perform-Keeps c s inv) in
      let (u, rest, end) = history-Inv cs t kept in (u, rw (after, history) rest, end)
