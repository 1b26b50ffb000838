-- ===== src/Runtime/Tests/LoopTests.antt =====
-- The theorems about the loop of src/decode/runtime.cu at a small service.
use cohere_megakernel.Common.{◌+◌, ◌*◌, ◌≤◌, ◌≡◌, ◌⊎◌, refl, arith, true, false, List, [], ◌∷◌}
use cohere_megakernel.Runtime.Service.{
  signal_pause, signal_stop, set_slot, slot_in_context, recompute_active_rows_locked, count_active,
}
use cohere_megakernel.Runtime.Service.Invariant.{IsService}
use cohere_megakernel.Runtime.Loop.{
  Outside, System, loop_move, loop_moves, parked, pause_call, stop_call, slot_call, Run, here,
  moved, called, from_top,
}
use cohere_megakernel.Runtime.Loop.Handshake.{run_lem, Held, Held-in_flight}
use cohere_megakernel.Runtime.Loop.Answer.{Ended, pause_lem, stop_lem}
use cohere_megakernel.Runtime.Loop.Rest.{left, Rests, rest_lem}
use cohere_megakernel.Runtime.Step.Progress.{remaining}
use cohere_megakernel.Runtime.Failure.{returned}
use cohere_megakernel.Common.Int.{pos}
use cohere_megakernel.Runtime.Float.{finite_nonnegative, is_finite, sign_bit, is_zero}
use cohere_megakernel.Runtime.Tests.{fine, one, empty, one_row, at_top, at_top-Start}

-- The service is asked to pause before its first step, and parks.
abbrev asked : System
asked = record at_top { service = signal_pause true at_top.service }

asked-Run : Run at_top 0 asked
asked-Run = called (pause_call true) here

abbrev waiting : System
waiting = loop_move fine asked

waiting-Run : Run at_top 1 waiting
waiting-Run = moved fine asked-Run

run_lem_example :
    IsService waiting.service
    × (waiting.service.paused_ack ≡ true
        → (parked waiting.phase ≡ true) × (waiting.in_flight ≡ false))
run_lem_example = run_lem at_top-Start waiting-Run

waiting-request : waiting.service.pause_req ≡ true
unfolding loop_move from_top signal_pause
waiting-request = refl

waiting-ack : waiting.service.paused_ack ≡ true
unfolding loop_move from_top signal_pause
waiting-ack = refl

waiting-Held : Held {s = waiting} (moved fine (moved fine here))
unfolding Held
waiting-Held = tt

Held-in_flight_example : (loop_move fine (loop_move fine waiting)).in_flight ≡ false
Held-in_flight_example =
    Held-in_flight at_top-Start waiting-Run waiting-request waiting-ack
      (moved fine (moved fine here)) waiting-Held

asked-request : asked.service.pause_req ≡ true
unfolding signal_pause
asked-request = refl

pause_lem_example :
    ((loop_moves (fine ∷ fine ∷ fine ∷ []) asked).service.paused_ack ≡ true)
    ⊎ Ended (loop_moves (fine ∷ fine ∷ fine ∷ []) asked)
pause_lem_example =
    pause_lem at_top-Start asked-Run asked-request (fine ∷ fine ∷ fine ∷ []) (omega arith)

abbrev halted : System
halted = record at_top { service = signal_stop at_top.service }

halted-Run : Run at_top 0 halted
halted-Run = called stop_call here

halted-stop : halted.service.stop ≡ true
unfolding signal_stop
halted-stop = refl

ended-Run : Run halted 3 (loop_move fine (loop_move fine (loop_move fine halted)))
ended-Run = moved fine (moved fine (moved fine here))

stop_lem_example : Ended (loop_move fine (loop_move fine (loop_move fine halted)))
stop_lem_example = stop_lem at_top-Start halted-Run halted-stop ended-Run (omega arith)

-- A row is given to the loop while it waits for one.
abbrev idling : System
idling = loop_move fine at_top

idling-parked : parked idling.phase ≡ true
unfolding loop_move from_top parked
idling-parked = refl

idling-same : idling.service ≡ empty
unfolding loop_move from_top
idling-same = refl

abbrev busy : System
busy = record idling { service = one_row }

slot-returned : set_slot (pos 1) true (pos 100) (pos 13) one 5 idling.service ≡ returned one_row
unfolding set_slot slot_in_context finite_nonnegative is_finite sign_bit is_zero loop_move from_top
    recompute_active_rows_locked count_active
slot-returned = refl

busy-Run : Run at_top 1 busy
busy-Run =
    called (slot_call (pos 1) true (pos 100) (pos 13) one 5 idling-parked slot-returned)
      (moved fine here)

-- Thirteen moves for its three columns
abbrev thirteen : List Outside
thirteen =
    fine ∷ fine ∷ fine ∷ fine ∷ fine ∷ fine ∷ fine ∷ fine ∷ fine ∷ fine ∷ fine ∷ fine ∷ fine ∷ []

busy-left : 3 * left busy + 4 ≤ 13
unfolding remaining
busy-left = omega arith

rest_lem_example : Rests (loop_moves thirteen busy)
rest_lem_example = rest_lem at_top-Start busy-Run thirteen busy-left
