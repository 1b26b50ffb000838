-- ===== src/Runtime/Facade/Pausing.antt =====
-- The handshake of a caller of DecodeService, src/decode/runtime.cu, with the service's loop.
use cohere_megakernel.Common.{
  ℕ, ◌≤◌, ◌≡◌, refl, ◌∙◌, sym, arith, ◌⊎◌, inl, inr, Bool, true, false, List, [], ◌∷◌, length, ◌||◌,
}
use cohere_megakernel.Runtime.Failure.{returned}
use cohere_megakernel.Runtime.Service.{NmcDecodeServiceDesc, signal_pause, wait_paused_ready}
use cohere_megakernel.Runtime.Loop.{System, Outside, loop_move, parked, loop_moves, Run, moved}
use cohere_megakernel.Runtime.Loop.Handshake.{run_lem}
use cohere_megakernel.Runtime.Loop.Requests.{loop_move-Closer}
use cohere_megakernel.Runtime.Loop.Answer.{Ended, pause_lem}
use cohere_megakernel.Runtime.Facade.{
  DecodeService, method_signal_pause, method_wait_paused, truth, method, construct, in_contract,
  Session,
}
use cohere_megakernel.Runtime.Facade.Closed.{Session-Run, construct-Start}

-- The object after moves of its loop
abbrev pub rounds : List Outside → DecodeService → DecodeService
rounds os f = record f { system = loop_moves os f.system }

Run-loop_moves :
    (os : List Outside) {s t : System} {n : ℕ} → Run s n t → (m : ℕ) × Run s m (loop_moves os t)
unfolding loop_moves
Run-loop_moves [] {n = n} r = (n, r)
Run-loop_moves (o ∷ os) r = Run-loop_moves os (moved o r)

pause_requests :
    (f : DecodeService)
    → f.is_open ≡ true
    → ((method (method_signal_pause true) f).1.system.service.pause_req ≡ true)
      × ((method (method_signal_pause true) f).1.is_open ≡ true)
unfolding method signal_pause
pause_requests f alive = (rw alive refl, rw alive refl)

truth_injective : {a b : Bool} → truth a ≡ truth b → a ≡ b
truth_injective e = cc

wait_paused-truth :
    (f : DecodeService)
    → f.is_open ≡ true
    → (method method_wait_paused f).0 ≡ truth (f.system.service.paused_ack || f.system.service.stop)
unfolding method wait_paused_ready
wait_paused-truth f alive = rw alive refl

-- `signal_pause(true)`, and moves of the loop behind it
abbrev pub pausing : List Outside → DecodeService → DecodeService
pausing os f = rounds os (method (method_signal_pause true) f).1

loop_moves-stop : (os : List Outside) (s : System) → (loop_moves os s).service.stop ≡ s.service.stop
unfolding loop_moves
loop_moves-stop [] s = refl
loop_moves-stop (o ∷ os) s = loop_moves-stop os (loop_move o s) ∙ (loop_move-Closer o s).same_stop

-- A pause that is signalled signals no stop.
pausing-stop :
    (os : List Outside) (f : DecodeService)
    → f.is_open ≡ true
    → (pausing os f).system.service.stop ≡ f.system.service.stop
unfolding method signal_pause
pausing-stop os f alive =
    loop_moves-stop os (method (method_signal_pause true) f).1.system ∙ rw alive refl

-- However a constructed object was used before: where it is open and its pause is signalled, then three moves
-- of the loop later, and however many more follow, `wait_paused` answers true, or the loop has returned, or, in
-- debug mode only, it hangs on a stream that outlived the watchdog; and where no stop was signalled before,
-- then after any number of moves, if `wait_paused` answers true, the loop is parked, no kernel is in flight,
-- and still no stop is signalled.
pub wait_paused_lem :
    (debug : Bool) (d : NmcDecodeServiceDesc) {made f : DecodeService} {n : ℕ}
    → construct debug d ≡ returned made
    → Session made n f
    → f.is_open ≡ true
    → (os : List Outside)
    → (3 ≤ length os
        → ((method method_wait_paused (pausing os f)).0 ≡ truth true) ⊎ Ended (pausing os f).system)
      × (f.system.service.stop ≡ false
          → (method method_wait_paused (pausing os f)).0 ≡ truth true
          → (parked (pausing os f).system.phase ≡ true)
            × ((pausing os f).system.in_flight ≡ false)
            × ((pausing os f).system.service.stop ≡ false))
unfolding in_contract
wait_paused_lem debug d {f = f} e before alive os =
    let (requested, opened) = pause_requests f alive in
    let start = construct-Start debug d e in
    let run = Session-Run (Session.used (method_signal_pause true) refl before) in
    let reply = wait_paused-truth (pausing os f) opened in
    (
      λ enough. elim (pause_lem start run requested os enough) [
        | inl ack ↦ inl (rw (reply, ack) refl)
        | inr ended ↦ inr ended
      ],
      λ free answer.
          (let said = truth_injective (sym reply ∙ answer) in
            let halt = pausing-stop os f alive ∙ free in
            let (waits, idle) =
              (run_lem start (Run-loop_moves os run).1).1 (ground (arith, said, halt)) in
            (waits, idle, halt)),
    )
