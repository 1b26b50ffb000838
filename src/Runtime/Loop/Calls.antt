-- ===== src/Runtime/Loop/Calls.antt =====
-- The calls of other threads on the decode service of src/decode/runtime.cu keep its loop's invariant,
-- and so does every interleaving of them with the loop's moves.
use cohere_megakernel.Common.{ℕ, Bool, true, false, ◌∙◌}
use cohere_megakernel.Runtime.Service.{
  NmcDecodeService, signal_pause, signal_stop, resume_from_pressure,
}
use cohere_megakernel.Runtime.Service.Slot.{set_slot-IsService}
use cohere_megakernel.Runtime.Loop.Moves.{loop_move-IsLoop}
use cohere_megakernel.Runtime.Loop.{
  Phase, top, pause_parked, idle_parked, pressure_parked, wedged, stepping, launched, finished,
  System, Call, pause_call, stop_call, resume_call, slot_call, geometry_call, Run, here, moved,
  called,
}
use cohere_megakernel.Runtime.Loop.Flags.{
  set_slot-SameFlags, set_geometry-SameFlags, set_geometry-IsService,
}
use cohere_megakernel.Runtime.Loop.Invariant.{Fits, IsLoop, parked-Fits, flagged-IsService}

-- A change of the flags that leaves the acknowledgement alone keeps what a step relies on.
flagged-Fits :
    (p : Phase) (s : NmcDecodeService) (req halt pressure : Bool)
    → Fits p s
    → Fits p (record s { pause_req = req; stop = halt; kv_pressure = pressure })
unfolding Fits
flagged-Fits (stepping snap) s req halt pressure h = record {
  same_active = h.same_active;
  same_col = h.same_col;
  can_write = h.can_write;
}
flagged-Fits (launched snap) s req halt pressure h = record {
  same_active = h.same_active;
  same_col = h.same_col;
  can_write = h.can_write;
}
flagged-Fits top s req halt pressure h = tt
flagged-Fits pause_parked s req halt pressure h = tt
flagged-Fits idle_parked s req halt pressure h = tt
flagged-Fits pressure_parked s req halt pressure h = tt
flagged-Fits wedged s req halt pressure h = tt
flagged-Fits (finished code) s req halt pressure h = tt

flagged-IsLoop :
    (s : System) (req halt pressure : Bool)
    → IsLoop s
    → IsLoop (record s {
      service = record s.service { pause_req = req; stop = halt; kv_pressure = pressure };
    })
flagged-IsLoop s req halt pressure inv = record {
  service = flagged-IsService s.service req s.service.paused_ack halt pressure inv.service;
  acknowledged = inv.acknowledged;
  fits = flagged-Fits s.phase s.service req halt pressure inv.fits;
  kernel = inv.kernel;
}

call-IsLoop :
    {s : System} {t : NmcDecodeService} → Call s t → IsLoop s → IsLoop (record s { service = t })
unfolding signal_pause signal_stop resume_from_pressure
call-IsLoop {s} (pause_call v) inv = flagged-IsLoop s v s.service.stop s.service.kv_pressure inv
call-IsLoop {s} stop_call inv = flagged-IsLoop s s.service.pause_req true s.service.kv_pressure inv
call-IsLoop {s} resume_call inv = flagged-IsLoop s s.service.pause_req s.service.stop false inv
call-IsLoop {s} {t} (slot_call row active start_pos gen_col temperature seed waits e) inv = record {
  service =
      set_slot-IsService row active start_pos gen_col temperature seed s.service e inv.service;
  acknowledged =
      (set_slot-SameFlags row active start_pos gen_col temperature seed s.service e).same_ack
      ∙ inv.acknowledged;
  fits = parked-Fits s.phase t waits;
  kernel = inv.kernel;
}
call-IsLoop {s} {t} (geometry_call d waits e) inv = record {
  service = set_geometry-IsService d s.service e;
  acknowledged = (set_geometry-SameFlags d s.service e).1.same_ack ∙ inv.acknowledged;
  fits = parked-Fits s.phase t waits;
  kernel = inv.kernel;
}

pub Run-IsLoop : {s t : System} {n : ℕ} → Run s n t → IsLoop s → IsLoop t
Run-IsLoop here inv = inv
Run-IsLoop (moved {t = t} o r) inv = loop_move-IsLoop o t (Run-IsLoop r inv)
Run-IsLoop (called c r) inv = call-IsLoop c (Run-IsLoop r inv)
