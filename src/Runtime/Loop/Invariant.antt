-- ===== src/Runtime/Loop/Invariant.antt =====
-- What holds of the decode service and its loop, src/decode/runtime.cu, in whatever order the loop's
-- moves and the calls of other threads come.
use cohere_megakernel.Common.{◌≡◌, refl, Bool, true, false, not, ◌∙◌, if◌then◌else◌, ◌==◌}
use cohere_megakernel.Runtime.Service.{NmcDecodeService, recompute_active_rows_locked}
use cohere_megakernel.Runtime.Service.Invariant.{IsService}
use cohere_megakernel.Runtime.Step.{snapshot, length_guard, any_active}
use cohere_megakernel.Runtime.Step.Progress.{length_guard-IsService, Agrees, snapshot-Agrees}
use cohere_megakernel.Runtime.Loop.{
  Phase, top, pause_parked, idle_parked, pressure_parked, wedged, stepping, launched, finished,
  Outside, System, finish_watchdog_wedge, from_top, acknowledges, parked,
}

-- The rows that a step works on are those of its snapshot.
unfoldable pub Fits : Phase → NmcDecodeService → Type 0
Fits (stepping snap) s = Agrees snap s
Fits (launched snap) s = Agrees snap s
Fits _ s = Unit {0}

-- The phases in which a kernel may be in flight
unfoldable pub may_run : Phase → Bool
may_run (launched snap) = true
may_run wedged = true
may_run (finished code) = true
may_run _ = false

pub record IsLoop (s : System) : Type 0 where
  pub service : IsService s.service
  pub acknowledged : s.service.paused_ack ≡ acknowledges s.phase
  pub fits : Fits s.phase s.service
  pub kernel : s.in_flight ≡ true → may_run s.phase ≡ true

-- A call that keeps the flags that only the loop writes, and the rows unless the loop is parked
pub parked-Fits : (p : Phase) (s : NmcDecodeService) → parked p ≡ true → Fits p s
unfolding parked Fits
parked-Fits top s h = cc
parked-Fits pause_parked s h = tt
parked-Fits idle_parked s h = tt
parked-Fits pressure_parked s h = tt
parked-Fits wedged s h = cc
parked-Fits (stepping snap) s h = cc
parked-Fits (launched snap) s h = cc
parked-Fits (finished code) s h = cc

pub if-IsLoop :
    (b : Bool) {s t : System}
    → (b ≡ true → IsLoop s)
    → (b ≡ false → IsLoop t)
    → IsLoop (if b then s else t)
if-IsLoop true h k = h refl
if-IsLoop false h k = k refl

-- A state of the loop
abbrev pub at_phase : Bool → NmcDecodeService → Bool → Phase → System
at_phase d s f p = record { debug_mode = d; service = s; phase = p; in_flight = f }

-- The service with the flags `pause_req_`, `paused_ack_`, `stop_` and `kv_pressure_`
abbrev pub flagged : NmcDecodeService → Bool → Bool → Bool → Bool → NmcDecodeService
flagged s req ack stop pressure = record s {
  pause_req = req;
  paused_ack = ack;
  stop = stop;
  kv_pressure = pressure;
}

pub flagged-IsService :
    (s : NmcDecodeService) (req ack stop pressure : Bool)
    → IsService s
    → IsService (flagged s req ack stop pressure)
flagged-IsService s req ack stop pressure inv = record {
  accepted = inv.accepted;
  batch = inv.batch;
  active_size = inv.active_size;
  start_pos_size = inv.start_pos_size;
  gen_col_size = inv.gen_col_size;
  temperature_size = inv.temperature_size;
  seed_size = inv.seed_size;
  finish_size = inv.finish_size;
  counted = inv.counted;
  room = inv.room;
  running = inv.running;
}

length_guard-ack : (s : NmcDecodeService) → (length_guard s).paused_ack ≡ s.paused_ack
unfolding length_guard recompute_active_rows_locked
length_guard-ack s = refl

pub wedge-IsLoop :
    (d : Bool) (s : NmcDecodeService) (f : Bool) (p : Phase)
    → IsLoop (at_phase d s f p)
    → acknowledges p ≡ false
    → IsLoop (finish_watchdog_wedge (at_phase d s f p))
unfolding finish_watchdog_wedge Fits may_run acknowledges
wedge-IsLoop d s f p inv waits =
    if-IsLoop (not d)
      (λ _. record {
        service = inv.service;
        acknowledged = inv.acknowledged ∙ waits;
        fits = tt;
        kernel = λ _. refl;
      })
      λ _. record {
        service = inv.service;
        acknowledged = inv.acknowledged ∙ waits;
        fits = tt;
        kernel = λ _. refl;
      }

pub from_top-IsLoop :
    (o : Outside) (d : Bool) (s : NmcDecodeService) (f : Bool)
    → IsLoop (at_phase d s f top)
    → IsLoop (from_top o (at_phase d s f top))
unfolding from_top Fits may_run acknowledges
from_top-IsLoop o d s f inv =
    let idle = inv.kernel in
    let (kept, _) = length_guard-IsService s inv.service in
    let ack = length_guard-ack s ∙ inv.acknowledged in
    if-IsLoop s.stop
      (λ _. record {
        service = inv.service;
        acknowledged = inv.acknowledged;
        fits = tt;
        kernel = λ _. refl;
      })
      λ _.
        if-IsLoop s.pause_req
          (λ _.
            if-IsLoop o.in_time
              (λ _. record {
                service = flagged-IsService s s.pause_req true s.stop s.kv_pressure inv.service;
                acknowledged = refl;
                fits = tt;
                kernel = λ h. h;
              })
              λ _. wedge-IsLoop d s f top inv refl)
          λ _.
            if-IsLoop (s.active_rows == 0)
              (λ _. record {
                service = inv.service;
                acknowledged = inv.acknowledged;
                fits = tt;
                kernel = idle;
              })
              λ _.
                if-IsLoop (not o.scratch_ok)
                  (λ _. record {
                    service = inv.service;
                    acknowledged = inv.acknowledged;
                    fits = tt;
                    kernel = λ _. refl;
                  })
                  λ _.
                    if-IsLoop (any_active s.batch (snapshot s).active.at)
                      (λ _. record {
                        service = kept;
                        acknowledged = ack;
                        fits = snapshot-Agrees s inv.service;
                        kernel = idle;
                      })
                      λ _. record { service = kept; acknowledged = ack; fits = tt; kernel = idle }
