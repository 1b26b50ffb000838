-- ===== src/Kv/Tests/PublishTests.antt =====
-- A published prefix is attached, at the small handle of src/kv/cache.cpp.
use cohere_megakernel.Common.{subst, ℕ, ◌<◌, ◌≡◌, refl, arith, Bool, true, false, some}
use cohere_megakernel.Common.Int.{pos, is_neg}
use cohere_megakernel.Kv.Pool.{
  zero_hash, pop_free_head, init_blocks, push_free_tail, numbered, cleared, active_count,
  remove_from_free_queue, update_peak,
}
use cohere_megakernel.Kv.Prefix.{find, has_any}
use cohere_megakernel.Kv.Global.{cuda_failure, acquire, block_at, count_refs_at, remove_cached}
use cohere_megakernel.Kv.State.{kv_pt}
use cohere_megakernel.Kv.Store.{
  for_range, read_page, write_page, locked, look, kv_update_peak, Store, Outcome, ok, throws,
  undefined,
}
use cohere_megakernel.Kv.Store.Ensures.{Ensures, what_returned}
use cohere_megakernel.Kv.Rows.Blocks.{kv_ensure_blocks_for_row-Keeps}
use cohere_megakernel.Kv.Rows.{kv_ensure_blocks_for_row, ensure_slot, acquire_block}
use cohere_megakernel.Kv.Rows.Inv.{Inv}
use cohere_megakernel.Kv.Attach.{prefix_attach, in_range, parse_block_hash}
use cohere_megakernel.Kv.Publish.{
  prefix_publish, publish_at, collect_entry, check_unhashed, store_entry, published, mark_blocks,
}
use cohere_megakernel.Kv.Publish.RoundTrip.{publish-attach, Taken}
use cohere_megakernel.Kv.Attach.Placed.{slot_of}
use cohere_megakernel.Kv.Tests.{no_others, small, start, small-Inv}

abbrev state_of : Outcome Bool → Store
state_of (ok b s) = s
state_of (throws e s) = s
state_of undefined = start

-- Row 0 has its first block.
abbrev filled_row : Store
filled_row = state_of (kv_ensure_blocks_for_row small 0 0 0 1 start)

filled_row-returned : kv_ensure_blocks_for_row small 0 0 0 1 start ≡ ok true filled_row
unfolding kv_ensure_blocks_for_row for_range ensure_slot read_page kv_pt acquire_block locked
    acquire pop_free_head init_blocks push_free_tail numbered cleared write_page kv_update_peak
filled_row-returned = refl

abbrev cached : Store
cached = state_of (prefix_publish small (some zero_hash.bytes) (pos 32) (pos 0) (pos 0) filled_row)

cached-returned :
    prefix_publish small (some zero_hash.bytes) (pos 32) (pos 0) (pos 0) filled_row ≡ ok true cached
unfolding prefix_publish in_range look parse_block_hash publish_at find collect_entry check_unhashed
    store_entry has_any published mark_blocks zero_hash block_at count_refs_at remove_cached
    active_count remove_from_free_queue update_peak kv_ensure_blocks_for_row for_range ensure_slot
    read_page kv_pt acquire_block locked acquire pop_free_head init_blocks push_free_tail numbered
    cleared write_page kv_update_peak
cached-returned = refl

only_slot : is_neg (slot_of filled_row (kv_pt small 0 0 0)) ≡ false
unfolding kv_ensure_blocks_for_row for_range ensure_slot read_page kv_pt acquire_block locked
    acquire pop_free_head init_blocks push_free_tail numbered cleared write_page kv_update_peak
    count_refs_at update_peak
only_slot = refl

first_slot : (li : ℕ) → li < 1 → is_neg (slot_of filled_row (kv_pt small li 0 0)) ≡ false
first_slot li l =
    let e : 0 ≡ li = omega arith in
    subst (λ li. is_neg (slot_of filled_row (kv_pt small li 0 0)) ≡ false) e only_slot

filled_row-Inv : Inv 2 no_others small filled_row
filled_row-Inv = what_returned (
    subst (Ensures _ _) filled_row-returned (
      kv_ensure_blocks_for_row-Keeps 2 no_others small 0 0 (omega arith) (omega arith) 0 1 start
        small-Inv))

in_range_here : in_range small (pos 0) (pos 1) ≡ true
unfolding in_range
in_range_here = refl

-- The second block of the row takes over the first one's page.
publish-attach_example :
    Ensures
      (λ c u. (c ≡ true) × Taken 2 no_others small filled_row (pos 0, pos 0) (pos 0, pos 1) u)
      (λ x u.
        (x ≡ cuda_failure) × Taken 2 no_others small filled_row (pos 0, pos 0) (pos 0, pos 1) u)
      (prefix_attach small (some zero_hash.bytes) (pos 32) (pos 0) (pos 1) (pos 0) cached)
publish-attach_example =
    publish-attach 2 no_others small filled_row cached zero_hash.bytes (pos 32) (pos 0) (pos 0)
      cached-returned filled_row-Inv first_slot (pos 0) (pos 1) (pos 0) in_range_here
