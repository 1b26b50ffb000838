-- ===== src/Runtime/Tests/FacadeTests.antt =====
-- The theorems about DecodeService of src/decode/runtime.cu at a small service.
use cohere_megakernel.Common.{◌≤◌, ◌≡◌, ◌⊎◌, refl, true, false, [], ◌∷◌}
use cohere_megakernel.Runtime.Failure.{returned}
use cohere_megakernel.Runtime.Loop.{pause_call, loop_move, parked}
use cohere_megakernel.Runtime.Loop.Answer.{Ended}
use cohere_megakernel.Runtime.Service.{
  signal_pause, is_supported_nmc_batch_size, variants_ascend, zero_regions_ok, check_desc,
  apply_desc, created,
}
use cohere_megakernel.Runtime.Float.{is_finite, sign_bit, is_zero, finite_positive}
use cohere_megakernel.Runtime.Facade.{
  DecodeService, Method, method, construct, method_close, method_wait_paused, truth, with_service,
  Session,
}
use cohere_megakernel.Runtime.Facade.Closed.{closed_reply, close_lem}
use cohere_megakernel.Runtime.Facade.Pausing.{pausing, wait_paused_lem}
use cohere_megakernel.Runtime.Tests.{desc, fine, at_top}

abbrev opened : DecodeService
opened = record { is_open = true; system = at_top }

abbrev closed : DecodeService
closed = (method method_close opened).1

abbrev round : DecodeService → DecodeService
round f = record f { system = loop_move fine f.system }

-- A call that was under way when the object was closed
abbrev late : DecodeService
late = with_service closed (signal_pause true closed.system.service)

late-Session : Session closed 0 late
late-Session = Session.under_way (pause_call true) Session.here

ended-Session : Session closed 3 (round (round (round late)))
ended-Session = Session.moved fine (Session.moved fine (Session.moved fine late-Session))

opened-returned : construct false desc ≡ returned opened
unfolding construct created apply_desc check_desc is_supported_nmc_batch_size variants_ascend
    zero_regions_ok finite_positive is_finite sign_bit is_zero
opened-returned = refl

close_lem_example :
    ((m : Method)
      → method m (round (round (round late))) ≡ (closed_reply m, round (round (round late))))
    × (3 ≤ 3 → Ended (round (round (round late))).system)
close_lem_example = close_lem false desc opened-returned Session.here refl ended-Session

-- The object behind a signalled pause and three moves of its loop
abbrev paused : DecodeService
paused = pausing (fine ∷ fine ∷ fine ∷ []) opened

wait_paused_lem_example :
    (3 ≤ 3 → ((method method_wait_paused paused).0 ≡ truth true) ⊎ Ended paused.system)
    × (opened.system.service.stop ≡ false
        → (method method_wait_paused paused).0 ≡ truth true
        → (parked paused.system.phase ≡ true)
          × (paused.system.in_flight ≡ false)
          × (paused.system.service.stop ≡ false))
wait_paused_lem_example =
    wait_paused_lem false desc opened-returned Session.here refl (fine ∷ fine ∷ fine ∷ [])
