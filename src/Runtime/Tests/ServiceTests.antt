-- ===== src/Runtime/Tests/ServiceTests.antt =====
-- The theorems about the calls and the steps of the decode service of src/decode/runtime.cu at a small
-- service.
use cohere_megakernel.Common.{ℕ, ◌≡◌, refl, arith, true, false, some, [], ◌∷◌, ◌==◌, inl}
use cohere_megakernel.Common.Int.{pos}
use cohere_megakernel.Runtime.Failure.{RuntimeError, returned, thrown}
use cohere_megakernel.Runtime.Service.{
  NmcRuntimeScheduleVariant, NmcDecodeService, unfinished, check_desc, count_active, set_geometry,
  set_slot, variants_ascend,
}
use cohere_megakernel.Runtime.Service.Invariant.{IsService, set_geometry_lem}
use cohere_megakernel.Runtime.Service.Slot.{Accepts, set_slot_lem}
use cohere_megakernel.Runtime.Step.{select_variant}
use cohere_megakernel.Runtime.Step.Bucket.{
  Covers, IsLeast, first_covering, found_or_thrown, select_variant_lem,
}
use cohere_megakernel.Runtime.Tests.{desc, desc-accepted, empty, one, variant, variants}

set_geometry_lem_example :
    (check_desc desc ≡ returned tt
      → (t : NmcDecodeService) × (set_geometry desc empty ≡ returned t)
        × IsService t
        × (t.desc ≡ desc)
        × (t.active_rows ≡ 0)
        × (t.attn_splits_cache.size ≡ 0))
    × ((e : RuntimeError)
        → check_desc desc ≡ thrown e
        → (e' : RuntimeError) × (set_geometry desc empty ≡ thrown e'))
set_geometry_lem_example = set_geometry_lem desc empty

pub empty-IsService : IsService empty
unfolding count_active
empty-IsService = record {
  accepted = desc-accepted;
  batch = refl;
  active_size = refl;
  start_pos_size = refl;
  gen_col_size = refl;
  temperature_size = refl;
  seed_size = refl;
  finish_size = refl;
  counted = refl;
  room = λ b l h. cc;
  running = λ b l h. refl;
}

set_slot_lem_example :
    (Accepts empty (pos 1) true (pos 100) (pos 0) one
      → (t : NmcDecodeService) × (set_slot (pos 1) true (pos 100) (pos 0) one 5 empty ≡ returned t)
        × IsService t
        × (t.active.at 1 ≡ true)
        × (t.start_pos.at 1 ≡ 100)
        × (t.gen_col.at 1 ≡ 0)
        × (t.temperature.at 1 ≡ one)
        × (t.seed.at 1 ≡ 5)
        × (t.finish.at 1 ≡ unfinished)
        × (t.active_rows ≡ count_active 2 t.active.at)
        × ((b : ℕ)
            → (1 == b) ≡ false
            → (t.active.at b ≡ empty.active.at b)
              × (t.start_pos.at b ≡ empty.start_pos.at b)
              × (t.gen_col.at b ≡ empty.gen_col.at b)
              × (t.temperature.at b ≡ empty.temperature.at b)
              × (t.seed.at b ≡ empty.seed.at b)
              × (t.finish.at b ≡ empty.finish.at b)))
    × (¬ Accepts empty (pos 1) true (pos 100) (pos 0) one
        → (e : RuntimeError) × (set_slot (pos 1) true (pos 100) (pos 0) one 5 empty ≡ thrown e))
set_slot_lem_example = set_slot_lem empty (pos 1) true (pos 100) (pos 0) one 5 empty-IsService

-- These arguments are accepted.
one-Accepts : Accepts empty (pos 1) true (pos 100) (pos 0) one
one-Accepts = record {
  row_index = 1;
  position = 100;
  column = 0;
  same_row = refl;
  in_batch = omega arith;
  same_position = refl;
  same_column = refl;
  new_room = λ a. (16, refl, omega arith);
  context_room = λ a. (4096, refl, omega arith);
  is_number = λ e. absurd (omega (arith, e));
  not_negative = inl refl;
}

ascending : variants_ascend (pos 0) variants ≡ true
unfolding variants_ascend
ascending = refl

select_variant_lem_example :
    (select_variant variants 600 ≡ found_or_thrown (first_covering variants 600))
    × ((w : NmcRuntimeScheduleVariant)
        → first_covering variants 600 ≡ some w
        → Covers 600 w × IsLeast 600 w variants)
select_variant_lem_example =
    select_variant_lem (variant (pos 512)) (variant (pos 4096) ∷ []) 600 ascending
