-- ===== src/Runtime/Loop/Moves.antt =====
-- The moves of the loop of src/decode/runtime.cu keep its invariant.
use cohere_megakernel.Common.{
  ℕ, ◌≡◌, refl, Bool, true, false, ◌&&◌, ◌||◌, not, Option, ltb, ◌∙◌, if◌then◌else◌, ◌==◌, sym,
}
use cohere_megakernel.Common.Int.{ℤ}
use cohere_megakernel.Runtime.Failure.{Result, returned, thrown}
use cohere_megakernel.Runtime.Service.{
  NmcRuntimeScheduleVariant, NmcDecodeService, recompute_active_rows_locked,
}
use cohere_megakernel.Runtime.Step.{Snapshot, advance, under_pressure, select_variant, context_len}
use cohere_megakernel.Runtime.Step.Progress.{advance-IsService}
use cohere_megakernel.Runtime.Loop.{
  Phase, failed, top, pause_parked, idle_parked, pressure_parked, wedged, stepping, launched,
  finished, Outside, System, from_snapshot, from_launch, loop_move, acknowledges,
}
use cohere_megakernel.Runtime.Loop.Invariant.{
  Fits, may_run, IsLoop, if-IsLoop, flagged, flagged-IsService, at_phase, wedge-IsLoop,
  from_top-IsLoop,
}

from_snapshot-IsLoop :
    (o : Outside) (snap : Snapshot) (d : Bool) (s : NmcDecodeService) (f : Bool)
    → IsLoop (at_phase d s f (stepping snap))
    → IsLoop (from_snapshot o snap (at_phase d s f (stepping snap)))
unfolding from_snapshot Fits may_run acknowledges
from_snapshot-IsLoop o snap d s f inv =
    if-IsLoop (under_pressure s snap o.free_blocks)
      (λ _. record {
        service = flagged-IsService s s.pause_req true s.stop true inv.service;
        acknowledged = refl;
        fits = tt;
        kernel = inv.kernel;
      })
      λ _.
        if-IsLoop (not o.launch_ok) (λ _. failed-IsLoop)
          λ _. launch (select_variant s.desc.schedule_variants (context_len s snap s.batch))
  where
    failed-IsLoop : IsLoop (at_phase d s f (finished failed))
    failed-IsLoop = record {
      service = inv.service;
      acknowledged = inv.acknowledged;
      fits = tt;
      kernel = λ _. refl;
    }

    launch :
        (r : Result (Option NmcRuntimeScheduleVariant))
        → IsLoop (elim r [
          | thrown e ↦ at_phase d s f (finished failed)
          | returned v ↦ at_phase d s true (launched snap)
        ])
    launch (thrown e) = failed-IsLoop
    launch (returned v) = record {
      service = inv.service;
      acknowledged = inv.acknowledged;
      fits = inv.fits;
      kernel = λ _. refl;
    }

advance-ack :
    (snap : Snapshot) (sampled : ℕ → ℤ) (s : NmcDecodeService)
    → (advance snap sampled s).paused_ack ≡ s.paused_ack
unfolding advance recompute_active_rows_locked
advance-ack snap sampled s = refl

from_launch-IsLoop :
    (o : Outside) (snap : Snapshot) (d : Bool) (s : NmcDecodeService) (f : Bool)
    → IsLoop (at_phase d s f (launched snap))
    → IsLoop (from_launch o snap (at_phase d s f (launched snap)))
unfolding from_launch Fits may_run acknowledges
from_launch-IsLoop o snap d s f inv =
    if-IsLoop (not o.sample_ok)
      (λ _. record {
        service = inv.service;
        acknowledged = inv.acknowledged;
        fits = tt;
        kernel = λ _. refl;
      })
      λ _.
        if-IsLoop (not o.in_time) (λ _. wedge-IsLoop d s f (launched snap) inv refl)
          λ _. landed (not (s.desc.token_callback == 0) && not o.callback_ok)
  where
    landed :
        (b : Bool)
        → IsLoop (at_phase d (advance snap o.sampled s) false (if b then finished failed else top))
    landed true = record {
      service = advance-IsService snap o.sampled s inv.service inv.fits;
      acknowledged = advance-ack snap o.sampled s ∙ inv.acknowledged;
      fits = tt;
      kernel = λ h. refl;
    }
    landed false = record {
      service = advance-IsService snap o.sampled s inv.service inv.fits;
      acknowledged = advance-ack snap o.sampled s ∙ inv.acknowledged;
      fits = tt;
      kernel = λ h. h;
    }

unparked-IsLoop :
    (d : Bool) (s : NmcDecodeService) (f : Bool) (p : Phase)
    → IsLoop (at_phase d s f p)
    → may_run p ≡ false
    → IsLoop (at_phase d (flagged s s.pause_req false s.stop s.kv_pressure) f top)
unfolding Fits may_run acknowledges
unparked-IsLoop d s f p inv h = record {
  service = flagged-IsService s s.pause_req false s.stop s.kv_pressure inv.service;
  acknowledged = refl;
  fits = tt;
  kernel = λ e. sym h ∙ inv.kernel e;
}

-- Every move of the loop keeps the invariant.
pub loop_move-IsLoop : (o : Outside) (s : System) → IsLoop s → IsLoop (loop_move o s)
unfolding loop_move may_run acknowledges Fits
loop_move-IsLoop o s inv = go s.phase inv
  where
    go :
        (p : Phase)
        → IsLoop (at_phase s.debug_mode s.service s.in_flight p)
        → IsLoop (loop_move o (at_phase s.debug_mode s.service s.in_flight p))
    go top h = from_top-IsLoop o s.debug_mode s.service s.in_flight h
    go pause_parked h =
        if-IsLoop (not s.service.pause_req || s.service.stop)
          (λ _. unparked-IsLoop s.debug_mode s.service s.in_flight pause_parked h refl) λ _. h
    go idle_parked h =
        if-IsLoop (ltb 0 s.service.active_rows || (s.service.pause_req || s.service.stop))
          (λ _. record {
            service = h.service;
            acknowledged = h.acknowledged;
            fits = tt;
            kernel = h.kernel;
          })
          λ _. h
    go pressure_parked h =
        if-IsLoop (not s.service.kv_pressure || s.service.stop)
          (λ _. unparked-IsLoop s.debug_mode s.service s.in_flight pressure_parked h refl) λ _. h
    go (stepping snap) h = from_snapshot-IsLoop o snap s.debug_mode s.service s.in_flight h
    go (launched snap) h = from_launch-IsLoop o snap s.debug_mode s.service s.in_flight h
    go wedged h =
        if-IsLoop o.in_time
          (λ _. record {
            service = h.service;
            acknowledged = h.acknowledged;
            fits = tt;
            kernel = λ _. refl;
          })
          λ _. h
    go (finished code) h = h
