-- ===== src/Runtime/Loop/Wedge.antt =====
-- Where the loop of src/decode/runtime.cu hangs on a stream, debug mode is on.
use cohere_megakernel.Common.{
  ℕ, ◌≡◌, refl, ◌∙◌, sym, arith, Bool, true, false, not, Option, List, [], ◌∷◌, if◌then◌else◌,
}
use cohere_megakernel.Runtime.Failure.{Result, returned, thrown}
use cohere_megakernel.Runtime.Service.{NmcRuntimeScheduleVariant}
use cohere_megakernel.Runtime.Step.{Snapshot, under_pressure, select_variant, context_len}
use cohere_megakernel.Runtime.Loop.{
  Phase, failed, top, pause_parked, idle_parked, pressure_parked, wedged, stepping, launched,
  finished, Outside, System, finish_watchdog_wedge, from_top, from_snapshot, from_launch, loop_move,
  loop_moves, Run, here, moved, called, Start, constructed,
}

-- Whether the loop hangs on a stream
unfoldable pub hangs : Phase → Bool
hangs wedged = true
hangs _ = false

hangs_if :
    (b : Bool) (p q : System)
    → hangs p.phase ≡ false
    → hangs q.phase ≡ false
    → hangs (if b then p else q).phase ≡ false
hangs_if true p q h k = h
hangs_if false p q h k = k

from_snapshot-hangs :
    (o : Outside) (snap : Snapshot) (s : System) → hangs (from_snapshot o snap s).phase ≡ false
unfolding from_snapshot hangs
from_snapshot-hangs o snap s = hangs_if (under_pressure s.service snap o.free_blocks) _ _ refl (
    hangs_if (not o.launch_ok) _ _ refl (
      launch (
        select_variant s.service.desc.schedule_variants
          (context_len s.service snap s.service.batch))))
  where
    launch :
        (r : Result (Option NmcRuntimeScheduleVariant))
        → hangs
            (elim r as (λ _. System) [
              | thrown e ↦ record s { phase = finished failed }
              | returned v ↦ record s { phase = launched snap; in_flight = true }
            ]).phase
          ≡ false
    launch (thrown e) = refl
    launch (returned v) = refl

-- Debug mode is on where the loop hangs.
abbrev pub InDebug : System → Type 0
InDebug s = hangs s.phase ≡ true → s.debug_mode ≡ true

pub loop_move-InDebug : (o : Outside) (s : System) → InDebug s → InDebug (loop_move o s)
unfolding loop_move from_top from_launch finish_watchdog_wedge hangs
loop_move-InDebug o s h = go s.phase h
  where
    go :
        (p : Phase)
        → InDebug (record s { phase = p })
        → InDebug (loop_move o (record s { phase = p }))
    go top h = ground arith
    go pause_parked h = ground arith
    go idle_parked h = ground arith
    go pressure_parked h = ground arith
    go wedged h = ground (arith, h)
    go (stepping snap) h = λ e.
        (let no = sym e ∙ from_snapshot-hangs o snap (record s { phase = stepping snap }) in cc)
    go (launched snap) h = ground arith
    go (finished code) h = ground arith

pub loop_moves-InDebug : (os : List Outside) (s : System) → InDebug s → InDebug (loop_moves os s)
unfolding loop_moves
loop_moves-InDebug [] s h = h
loop_moves-InDebug (o ∷ os) s h = loop_moves-InDebug os (loop_move o s) (loop_move-InDebug o s h)

pub Run-InDebug : {s t : System} {n : ℕ} → Run s n t → InDebug s → InDebug t
Run-InDebug here h = h
Run-InDebug (moved {t = t} o r) h = loop_move-InDebug o t (Run-InDebug r h)
Run-InDebug (called c r) h = Run-InDebug r h

pub Start-InDebug : {s : System} → Start s → InDebug s
unfolding hangs
Start-InDebug (constructed debug d e) = λ h. cc
