-- ===== src/Kv/Tests/CallTests.antt =====
-- The theorems about the calls of src/kv/cache.cpp at a small handle.
use cohere_megakernel.Common.{
  ℕ, ◌+◌, ◌-◌, ◌*◌, ◌/◌, ◌<◌, ◌≤◌, ◌≡◌, refl, not, none, some, List, [], ◌∷◌, arith, ◌==◌, ◌⊎◌,
  true, false,
}
use cohere_megakernel.Common.Int.{minus_one, pos}
use cohere_megakernel.Kv.State.{Geometry, kv_pt, flash_attn_local_block_n, kv_prefill_swa_keep_from}
use cohere_megakernel.Kv.State.Index.{kv_pt-lt, kv_pt_injective}
use cohere_megakernel.Kv.State.Window.{kv_prefill_swa_keep_from-safe}
use cohere_megakernel.Kv.Store.{Store}
use cohere_megakernel.Kv.Store.Ensures.{Ensures}
use cohere_megakernel.Kv.Rows.Inv.{Inv, IsGeometry, refs_of}
use cohere_megakernel.Kv.Calls.{
  Call, decodes, publishes, attaches, prepares, frees_row, clears_cache, history,
}
use cohere_megakernel.Kv.Calls.Invariant.{history-Inv}
use cohere_megakernel.Kv.Create.{KvHandleDesc, geometry_of, create}
use cohere_megakernel.Kv.Create.Made.{create-Inv}
use cohere_megakernel.Kv.Stats.{stats}
use cohere_megakernel.Kv.Pool.{zero_hash}
use cohere_megakernel.Kv.Global.{cuda_failure, out_of_blocks}
use cohere_megakernel.Kv.Global.Invariant.{IsConsistent}
use cohere_megakernel.Kv.Decode.{destroy, row_on}
use cohere_megakernel.Kv.Rows.Present.{IsFull}
use cohere_megakernel.Kv.Prefill.{step_prefill_chunk, step_prefill_chunk_masked}
use cohere_megakernel.Kv.Prefill.Present.{step_prefill_chunk_lem, step_prefill_chunk_masked_lem}
use cohere_megakernel.Kv.State.{kv_max_tokens}
use cohere_megakernel.Kv.Decode.Release.{destroy-lem}
use cohere_megakernel.Kv.Attach.{prefix_attach_batch}
use cohere_megakernel.Kv.Attach.Atomic.{prefix_attach_batch_atomic}
use cohere_megakernel.Kv.Attach.Destination.{destination_injective}
use cohere_megakernel.Kv.Stats.Balance.{count_below, stats-Inv}
use cohere_megakernel.Kv.Tests.{no_others, blank, blank-IsShared, small, start, small-Inv}

-- A key of the right size.
abbrev digest_bytes : List ℕ
digest_bytes = zero_hash.bytes

abbrev before : List Call
before =
    decodes (some λ _. pos 3) none ∷ publishes (some digest_bytes) (pos 32) (pos 0) (pos 0) ∷ []

abbrev calls : List Call
calls =
    decodes (some λ _. pos 3) none
    ∷ publishes (some digest_bytes) (pos 32) (pos 0) (pos 0)
    ∷ frees_row (pos 0)
    ∷ attaches (some digest_bytes) (pos 32) (pos 0) (pos 1) (pos 0)
    ∷ prepares (some λ _. pos 20)
    ∷ clears_cache
    ∷ []

history-Inv_example : (t : Store) × (history small calls start ≡ some t) × Inv 2 no_others small t
history-Inv_example = history-Inv 2 no_others small calls start small-Inv

abbrev desc : KvHandleDesc
desc = record {
  page_table = 4096;
  cache_seqlens = 0;
  row_active = 0;
  num_layers = pos 1;
  bs = pos 1;
  max_pages_per_seq = pos 2;
  num_phys_pages = pos 2;
  page_block_size = pos 16;
  start_pos = pos 0;
  sw_size = pos 0;
  sw_pattern = pos 1;
}

create-Inv_example :
    Ensures
      (λ _ t.
        (elems : ℕ) × IsGeometry (geometry_of desc elems)
        × Inv 2 no_others (geometry_of desc elems) t)
      (λ _ t. t.global ≡ blank)
      (create desc (record start { global = blank }))
create-Inv_example = create-Inv desc no_others (record start { global = blank }) blank-IsShared

stats-Inv_example :
    let refs : ℕ → ℕ = λ i. refs_of start.kv.page_table_host i + no_others i in
    ((stats start).free ≡ count_below (λ i. refs i == 0) 2)
    × ((stats start).allocated ≡ count_below (λ i. not (refs i == 0)) 2)
    × ((stats start).allocated + (stats start).free ≡ 2)
stats-Inv_example = stats-Inv 2 no_others small start small-Inv

kv_pt-lt_example : kv_pt small 0 0 1 < 1 * 1 * 2
kv_pt-lt_example = kv_pt-lt small 0 0 1 (omega arith) (omega arith) (omega arith)

kv_pt_injective_example : (◌≡◌ {A = ℕ} 0 0) × (◌≡◌ {A = ℕ} 0 0) × (◌≡◌ {A = ℕ} 1 1)
kv_pt_injective_example =
    kv_pt_injective small 0 0 1 0 0 1 (omega arith) (omega arith) (omega arith) (omega arith) refl

-- A window of 64 tokens over blocks of 16.
abbrev windowed : Geometry
windowed = record small { sw_size = 64 }

kv_prefill_swa_keep_from-safe_example :
    (120 + 64 ≤ 400)
    × (120 / flash_attn_local_block_n < (400 - (64 - 1)) / flash_attn_local_block_n)
unfolding kv_prefill_swa_keep_from
kv_prefill_swa_keep_from-safe_example =
    kv_prefill_swa_keep_from-safe windowed 400 120 (omega arith) (omega arith)

-- The handle after a decode step at position 3 and a publication, with one block in its page table.
abbrev decoded : (t : Store) × (history small before start ≡ some t) × Inv 2 no_others small t
decoded = history-Inv 2 no_others small before start small-Inv

destroy-lem_example :
    Ensures
      (λ _ t.
        ((k : ℕ) → k < t.kv.page_table_host.size → t.kv.page_table_host.at k ≡ minus_one)
        × ((q : List ℕ) × IsConsistent no_others t.global q))
      (λ _ _. ⊥)
      (destroy small decoded.0)
destroy-lem_example = destroy-lem 2 no_others small decoded.0 decoded.2

prefix_attach_batch_atomic_example :
    Ensures
      (λ found t.
        ((found ≡ true) × (t.device.page_table ≡ t.kv.page_table_host))
        ⊎ ((found ≡ false) × (t ≡ decoded.0)))
      (λ e t. (e ≡ cuda_failure) ⊎ (t ≡ decoded.0))
      (prefix_attach_batch small
        (some digest_bytes)
        (pos 32)
        (some λ _. pos 0)
        (some λ _. pos 1)
        (some λ _. pos 0)
        (pos 1)
        decoded.0)
prefix_attach_batch_atomic_example =
    prefix_attach_batch_atomic 2 no_others small decoded.0 decoded.2 (some digest_bytes) (pos 32)
      (some λ _. pos 0) (some λ _. pos 1) (some λ _. pos 0) (pos 1)

in_context : 20 ≤ kv_max_tokens small
unfolding kv_max_tokens
in_context = omega arith

step_prefill_chunk_masked_lem_example :
    Ensures
      (λ _ t.
        Inv 2 no_others small t
        × ((b p : ℕ)
            → b < 1
            → row_on (some λ _. pos 1) b ≡ true
            → 4 ≤ p
            → p < 20
            → IsFull t (kv_pt small 0 b (p / 16))))
      (λ e t. ((e ≡ out_of_blocks) ⊎ (e ≡ cuda_failure)) × Inv 2 no_others small t)
      (step_prefill_chunk_masked small (pos 0) (pos 4) (pos 20) (some λ _. pos 1) decoded.0)
step_prefill_chunk_masked_lem_example =
    step_prefill_chunk_masked_lem 2 no_others small (λ _. pos 1) 0 4 20 decoded.0 (omega arith)
      (omega arith) (omega arith) in_context decoded.2

step_prefill_chunk_lem_example :
    Ensures
      (λ _ t.
        Inv 2 no_others small t
        × ((b p : ℕ) → b < 1 → 4 ≤ p → p < 20 → IsFull t (kv_pt small 0 b (p / 16))))
      (λ e t. ((e ≡ out_of_blocks) ⊎ (e ≡ cuda_failure)) × Inv 2 no_others small t)
      (step_prefill_chunk small (pos 0) (pos 4) (pos 20) decoded.0)
step_prefill_chunk_lem_example =
    step_prefill_chunk_lem 2 no_others small 0 4 20 decoded.0 (omega arith) (omega arith)
      (omega arith) in_context decoded.2

destination_injective_example : (◌≡◌ {A = ℕ} 3 3) × (◌≡◌ {A = ℕ} 5 5)
destination_injective_example = destination_injective 3 5 3 5 (omega arith) (omega arith) refl
