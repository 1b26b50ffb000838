-- ===== src/Runtime/Loop/Handshake.antt =====
-- What callers of the decode service in src/decode/runtime.cu rely on: a pause that is acknowledged
-- finds the loop parked, and holds until it is released.
use cohere_megakernel.Common.{ℕ, ◌≡◌, refl, arith, Bool, true, false, ◌∙◌, subst, sym}
use cohere_megakernel.Common.Int.{pos_part}
use cohere_megakernel.Runtime.Failure.{returned}
use cohere_megakernel.Runtime.Service.{
  NmcDecodeService, created, signal_pause, signal_stop, resume_from_pressure,
}
use cohere_megakernel.Runtime.Service.Invariant.{
  IsService, count_none, supported-pos, check_desc-supported,
}
use cohere_megakernel.Runtime.Loop.{
  Phase, top, pause_parked, idle_parked, pressure_parked, wedged, stepping, launched, finished,
  Outside, System, finish_watchdog_wedge, from_top, loop_move, acknowledges, parked, pause_call,
  stop_call, resume_call, slot_call, geometry_call, Run, here, moved, called, unstarted, Start,
  constructed,
}
use cohere_megakernel.Runtime.Loop.Flags.{
  set_slot-SameFlags, set_geometry-SameFlags, apply_desc-returned,
}
use cohere_megakernel.Runtime.Loop.Invariant.{Fits, may_run, IsLoop}
use cohere_megakernel.Runtime.Loop.Calls.{Run-IsLoop}

pub Start-IsLoop : {s : System} → Start s → IsLoop s
unfolding created Fits may_run acknowledges
Start-IsLoop (constructed debug d e) =
    let (accepted, made) = apply_desc-returned d (unstarted d) _ e in
    let sup = check_desc-supported d accepted in
    subst (λ r. IsLoop (record { debug_mode = debug; service = r; phase = top; in_flight = false }))
      (injective made)
      (record {
        service = record {
          accepted = accepted;
          batch = supported-pos d.launch.bs sup;
          active_size = refl;
          start_pos_size = refl;
          gen_col_size = refl;
          temperature_size = refl;
          seed_size = refl;
          finish_size = refl;
          counted = sym (count_none (pos_part d.launch.bs) (λ _. false) (λ b. refl));
          room = λ b l h. cc;
          running = λ b l h. refl;
        };
        acknowledged = refl;
        fits = tt;
        kernel = λ h. h;
      })
  where
    injective : {u t : NmcDecodeService} → returned u ≡ returned t → u ≡ t
    injective e = cc

acknowledged-quiet : (p : Phase) → acknowledges p ≡ true → (parked p ≡ true) × (may_run p ≡ false)
unfolding acknowledges parked may_run
acknowledged-quiet top h = cc
acknowledged-quiet pause_parked h = (refl, refl)
acknowledged-quiet idle_parked h = cc
acknowledged-quiet pressure_parked h = (refl, refl)
acknowledged-quiet wedged h = cc
acknowledged-quiet (stepping snap) h = cc
acknowledged-quiet (launched snap) h = cc
acknowledged-quiet (finished code) h = cc

-- From the start of the loop, after any moves of it with any calls in between that keep to the
-- contract, the service satisfies its invariant; and where the pause is acknowledged, the loop is
-- parked and no kernel is in flight.
pub run_lem :
    {s t : System} {n : ℕ}
    → Start s
    → Run s n t
    → IsService t.service
      × (t.service.paused_ack ≡ true → (parked t.phase ≡ true) × (t.in_flight ≡ false))
run_lem {s} {t} start r =
    let inv = Run-IsLoop r (Start-IsLoop start) in
    (
      inv.service,
      λ ack.
          let (waits, idle) = acknowledged-quiet t.phase (sym inv.acknowledged ∙ ack) in
          (waits, not_flying t.in_flight (may_run t.phase) inv.kernel idle),
    )
  where
    not_flying : (f m : Bool) → (f ≡ true → m ≡ true) → m ≡ false → f ≡ false
    not_flying true m h k = sym (h refl) ∙ k
    not_flying false m h k = refl

-- No call of the run releases the pause.
unfoldable pub Held : {s t : System} {n : ℕ} → Run s n t → Type 0
Held here = Unit {0}
Held (moved o r) = Held r
Held (called (pause_call v) r) = (v ≡ true) × Held r
Held (called stop_call r) = Held r
Held (called resume_call r) = Held r
Held (called (slot_call row active start_pos gen_col temperature seed waits e) r) = Held r
Held (called (geometry_call d waits e) r) = Held r

-- The phases between a pause that is acknowledged and its release
unfoldable pub quiet : Phase → Bool
quiet top = true
quiet pause_parked = true
quiet pressure_parked = true
quiet wedged = true
quiet (finished code) = true
quiet _ = false

record Holding (s : System) : Type 0 where
  pub requested : s.service.pause_req ≡ true
  pub still : s.in_flight ≡ false
  pub calm : quiet s.phase ≡ true

loop_move-Holding : (o : Outside) (s : System) → Holding s → Holding (loop_move o s)
unfolding loop_move from_top finish_watchdog_wedge quiet
loop_move-Holding o s h = go s.phase h
  where
    go :
        (p : Phase)
        → Holding (record {
          debug_mode = s.debug_mode;
          service = s.service;
          phase = p;
          in_flight = s.in_flight;
        })
        → Holding (
            loop_move o (record {
              debug_mode = s.debug_mode;
              service = s.service;
              phase = p;
              in_flight = s.in_flight;
            }))
    go top h = record {
      requested = ground (arith, h.requested);
      still = ground (arith, h.requested, h.still);
      calm = ground (arith, h.requested);
    }
    go pause_parked h = record {
      requested = ground (arith, h.requested);
      still = ground (arith, h.still);
      calm = ground arith;
    }
    go idle_parked h = absurd (ground (arith, h.calm))
    go pressure_parked h = record {
      requested = ground (arith, h.requested);
      still = ground (arith, h.still);
      calm = ground arith;
    }
    go (stepping snap) h = absurd (ground (arith, h.calm))
    go (launched snap) h = absurd (ground (arith, h.calm))
    go wedged h = record {
      requested = ground (arith, h.requested);
      still = ground (arith, h.still);
      calm = ground arith;
    }
    go (finished code) h = h

Run-Holding : {s t : System} {n : ℕ} (r : Run s n t) → Held r → Holding s → Holding t
unfolding Held signal_pause signal_stop resume_from_pressure
Run-Holding here held h = h
Run-Holding (moved {t = t} o r) held h = loop_move-Holding o t (Run-Holding r held h)
Run-Holding (called (pause_call v) r) held h =
    let was = Run-Holding r held.1 h in
    record { requested = held.0; still = was.still; calm = was.calm }
Run-Holding (called stop_call r) held h =
    let was = Run-Holding r held h in
    record { requested = was.requested; still = was.still; calm = was.calm }
Run-Holding (called resume_call r) held h =
    let was = Run-Holding r held h in
    record { requested = was.requested; still = was.still; calm = was.calm }
Run-Holding (called (slot_call row active start_pos gen_col temperature seed waits e) r) held h =
    let was = Run-Holding r held h in
    let flags = set_slot-SameFlags row active start_pos gen_col temperature seed _ e in
    record { requested = flags.same_pause ∙ was.requested; still = was.still; calm = was.calm }
Run-Holding (called (geometry_call d waits e) r) held h =
    let was = Run-Holding r held h in
    let flags = (set_geometry-SameFlags d _ e).1 in
    record { requested = flags.same_pause ∙ was.requested; still = was.still; calm = was.calm }

acknowledged-calm : (p : Phase) → acknowledges p ≡ true → quiet p ≡ true
unfolding acknowledges quiet
acknowledged-calm top h = cc
acknowledged-calm pause_parked h = refl
acknowledged-calm idle_parked h = cc
acknowledged-calm pressure_parked h = refl
acknowledged-calm wedged h = cc
acknowledged-calm (stepping snap) h = cc
acknowledged-calm (launched snap) h = cc
acknowledged-calm (finished code) h = cc

-- Once a requested pause is acknowledged, then whatever the loop does and whatever is called, resuming
-- from pressure, new slots and a new geometry included, no kernel is in flight before the pause is
-- released.
pub Held-in_flight :
    {start s t : System} {m n : ℕ}
    → Start start
    → Run start m s
    → s.service.pause_req ≡ true
    → s.service.paused_ack ≡ true
    → (r : Run s n t) → Held r
    → t.in_flight ≡ false
Held-in_flight {s = s} start before req ack r held =
    let inv = Run-IsLoop before (Start-IsLoop start) in
    (Run-Holding r held (record {
      requested = req;
      still = ((run_lem start before).1 ack).1;
      calm = acknowledged-calm s.phase (sym inv.acknowledged ∙ ack);
    })).still
