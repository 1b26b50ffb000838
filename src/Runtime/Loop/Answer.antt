-- ===== src/Runtime/Loop/Answer.antt =====
-- The loop of src/decode/runtime.cu answers a request to pause, and ends on a request to stop.
use cohere_megakernel.Common.{
  ℕ, ◌-◌, ◌≤◌, ◌≡◌, ◌⊎◌, refl, arith, true, List, [], ◌∷◌, length, inl, inr, ◌∙◌,
}
use cohere_megakernel.Runtime.Service.{
  NmcDecodeService, signal_pause, signal_stop, resume_from_pressure,
}
use cohere_megakernel.Runtime.Loop.Moves.{loop_move-IsLoop}
use cohere_megakernel.Runtime.Loop.{
  Phase, ExitCode, top, pause_parked, idle_parked, pressure_parked, wedged, stepping, launched,
  finished, Outside, System, loop_move, loop_moves, acknowledges, Call, pause_call, stop_call,
  resume_call, slot_call, geometry_call, Run, here, moved, called, Start,
}
use cohere_megakernel.Runtime.Loop.Flags.{set_slot-SameFlags, set_geometry-SameFlags}
use cohere_megakernel.Runtime.Loop.Invariant.{IsLoop}
use cohere_megakernel.Runtime.Loop.Calls.{Run-IsLoop}
use cohere_megakernel.Runtime.Loop.Requests.{
  distance, loop_move-Closer, loop_moves-distance, distance-bound,
}
use cohere_megakernel.Runtime.Loop.Wedge.{
  hangs, InDebug, loop_moves-InDebug, Run-InDebug, Start-InDebug,
}
use cohere_megakernel.Runtime.Loop.Handshake.{Start-IsLoop}

-- The loop has returned, or in debug mode it hangs on a stream that outlived the watchdog.
abbrev pub Ended : System → Type 0
Ended s = ((c : ExitCode) × (s.phase ≡ finished c)) ⊎ ((s.phase ≡ wedged) × (s.debug_mode ≡ true))

pub settled : (s : System) → InDebug s → distance s ≡ 0 → (acknowledges s.phase ≡ true) ⊎ Ended s
unfolding distance acknowledges hangs
settled s debugs h = go s.phase debugs h
  where
    go :
        (p : Phase)
        → InDebug (record s { phase = p })
        → distance (record s { phase = p }) ≡ 0
        → (acknowledges p ≡ true) ⊎ Ended (record s { phase = p })
    go top debugs h = absurd (omega arith)
    go pause_parked debugs h = inl refl
    go idle_parked debugs h = absurd (omega arith)
    go pressure_parked debugs h = inl refl
    go wedged debugs h = inr (inr (refl, debugs refl))
    go (stepping snap) debugs h = absurd (omega arith)
    go (launched snap) debugs h = absurd (omega arith)
    go (finished code) debugs h = inr (inl (code, refl))

pub loop_moves-IsLoop : (os : List Outside) (s : System) → IsLoop s → IsLoop (loop_moves os s)
unfolding loop_moves
loop_moves-IsLoop [] s h = h
loop_moves-IsLoop (o ∷ os) s h = loop_moves-IsLoop os (loop_move o s) (loop_move-IsLoop o s h)

-- A requested pause is answered: in whatever state of the run the request stands, three moves of the
-- loop later, and however many more follow, the pause is acknowledged, the loop has returned, or, in debug
-- mode only, it hangs on a stream that outlived the watchdog.
pub pause_lem :
    {start s : System} {n : ℕ}
    → Start start
    → Run start n s
    → s.service.pause_req ≡ true
    → (os : List Outside) → 3 ≤ length os
    → ((loop_moves os s).service.paused_ack ≡ true) ⊎ Ended (loop_moves os s)
pause_lem {s = s} start r req os enough =
    let inv = loop_moves-IsLoop os s (Run-IsLoop r (Start-IsLoop start)) in
    let near = loop_moves-distance os s (ground (arith, req)) in
    let debugs = loop_moves-InDebug os s (Run-InDebug r (Start-InDebug start)) in
    elim (settled (loop_moves os s) debugs (omega (arith, near, distance-bound s))) [
      | inl parks ↦ inl (inv.acknowledged ∙ parks)
      | inr gone ↦ inr gone
    ]

stop-finishes : (s : System) → InDebug s → s.service.stop ≡ true → distance s ≡ 0 → Ended s
unfolding distance hangs
stop-finishes s debugs halt h = go s.phase debugs h
  where
    go :
        (p : Phase)
        → InDebug (record s { phase = p })
        → distance (record s { phase = p }) ≡ 0
        → Ended (record s { phase = p })
    go top debugs h = absurd (omega arith)
    go pause_parked debugs h = absurd (ground (arith, halt))
    go idle_parked debugs h = absurd (omega arith)
    go pressure_parked debugs h = absurd (ground (arith, halt))
    go wedged debugs h = inr (refl, debugs refl)
    go (stepping snap) debugs h = absurd (omega arith)
    go (launched snap) debugs h = absurd (omega arith)
    go (finished code) debugs h = inl (code, refl)

call-distance :
    {s : System} {t : NmcDecodeService}
    → Call s t
    → s.service.stop ≡ true
    → (t.stop ≡ true) × (distance (record s { service = t }) ≤ distance s)
unfolding distance signal_pause signal_stop resume_from_pressure
call-distance {s} {t} c halt = (kept c, far (kept c) s.phase)
  where
    kept : {t : NmcDecodeService} → Call s t → t.stop ≡ true
    kept (pause_call v) = halt
    kept stop_call = refl
    kept resume_call = halt
    kept (slot_call row active start_pos gen_col temperature seed waits e) =
        (set_slot-SameFlags row active start_pos gen_col temperature seed s.service e).same_stop
        ∙ halt
    kept (geometry_call d waits e) = (set_geometry-SameFlags d s.service e).1.same_stop ∙ halt

    far :
        t.stop ≡ true
        → (p : Phase)
        → distance
            (record { debug_mode = s.debug_mode; service = t; phase = p; in_flight = s.in_flight })
          ≤ distance (record {
            debug_mode = s.debug_mode;
            service = s.service;
            phase = p;
            in_flight = s.in_flight;
          })
    far also top = omega arith
    far also pause_parked = ground (arith, halt)
    far also idle_parked = omega arith
    far also pressure_parked = ground (arith, halt)
    far also wedged = omega arith
    far also (stepping snap) = omega arith
    far also (launched snap) = omega arith
    far also (finished code) = omega arith

Run-distance :
    {s t : System} {n : ℕ}
    → Run s n t
    → s.service.stop ≡ true
    → (t.service.stop ≡ true) × (distance t ≤ distance s - n)
Run-distance here halt = (halt, omega arith)
Run-distance (moved {t = t} o r) halt =
    let (now, near) = Run-distance r halt in
    let step = loop_move-Closer o t in
    (step.same_stop ∙ now, omega (arith, near, step.nearer (ground (arith, now))))
Run-distance (called c r) halt =
    let (now, near) = Run-distance r halt in
    let (still, far) = call-distance c now in (still, omega (arith, near, far))

-- A stop ends the loop: in whatever state of the run it stands, and whatever is called behind it, three
-- moves of the loop later `run` has returned, or, in debug mode only, it hangs on a stream that outlived the
-- watchdog.
pub stop_lem :
    {start s t : System} {m n : ℕ}
    → Start start
    → Run start m s
    → s.service.stop ≡ true
    → Run s n t
    → 3 ≤ n
    → Ended t
stop_lem {s = s} {t = t} start before halt r enough =
    let (now, near) = Run-distance r halt in
    let debugs = Run-InDebug r (Run-InDebug before (Start-InDebug start)) in
    stop-finishes t debugs now (omega (arith, near, distance-bound s))
