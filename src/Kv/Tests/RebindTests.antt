-- ===== src/Kv/Tests/RebindTests.antt =====
-- `KvHandle::rebind` of src/kv/cache.cpp at a small handle, whose row becomes the first of two.
use cohere_megakernel.Common.{ℕ, ◌*◌, ◌/◌, ◌≤◌, ◌≡◌, ◌==◌, refl, arith, some, if◌then◌else◌}
use cohere_megakernel.Common.Int.{pos, minus_one}
use cohere_megakernel.Kv.Global.{size_overflow}
use cohere_megakernel.Kv.Store.{undefined, throw, for_range, for_down, read_page}
use cohere_megakernel.Kv.Store.Ensures.{Ensures}
use cohere_megakernel.Kv.Rows.{clear_layer, clear_slot, kv_release_all_blocks_nolock}
use cohere_megakernel.Kv.State.{kv_pt}
use cohere_megakernel.Kv.Rows.Inv.{Inv}
use cohere_megakernel.Kv.Decode.{Array, destroy}
use cohere_megakernel.Kv.Create.{size_max}
use cohere_megakernel.Kv.Rebind.{rebind, rebound, unsized, owned}
use cohere_megakernel.Kv.Rebind.Made.{held, new_geometry, Taken, Restored, rebind_lem}
use cohere_megakernel.Kv.Tests.{no_others, small, small_state, start, small-Inv}

abbrev rows : Array
rows d = if d == 0 then pos 0 else minus_one

fits : 2 * 2 ≤ size_max / 4
unfolding size_max
fits = omega arith

fits_rows : 2 ≤ size_max
unfolding size_max
fits_rows = omega arith

rebind_lem_example :
    Ensures
      (λ g' t.
        (g' ≡ new_geometry 2 no_others small small_state rows 2 1 1 1)
        × Inv 2 (held 2 no_others small small_state) g' t
        × Taken 2 no_others small small_state rows 2 1 1 1 t)
      (λ _ t. Restored 2 no_others small small_state t)
      (rebind small small_state (some rows) (pos 2) 1 1 1 start)
rebind_lem_example =
    rebind_lem 2 no_others small small_state rows (pos 2) 1 1 1 start small-Inv fits_rows fits

-- A throw before the tables have their sizes runs the destructor on empty vectors.
owned-undefined :
    owned {A = ℕ}
      (rebound small 2 0 1 1 1)
      (throw size_overflow)
      (record start { kv = unsized (rebound small 2 0 1 1 1) small_state })
    ≡ undefined
unfolding owned destroy kv_release_all_blocks_nolock for_range for_down clear_layer clear_slot
    read_page kv_pt
owned-undefined = refl
