-- ===== src/Runtime/Loop/Rest.antt =====
-- The loop of src/decode/runtime.cu comes to rest where nobody calls: every step uses up a column.
use cohere_megakernel.Common.{
  ℕ, zero, suc, ◌+◌, ◌-◌, ◌*◌, ◌<◌, ◌≤◌, ◌≡◌, ◌⊎◌, refl, ◌∙◌, arith, Bool, true, false, ◌||◌, not,
  Option, List, [], ◌∷◌, length, ltb, ◌==◌, Bool-cases, inl, inr, if◌then◌else◌,
}
use cohere_megakernel.Common.Int.{ℤ, pos}
use cohere_megakernel.Runtime.Failure.{Result, returned, thrown}
use cohere_megakernel.Runtime.Service.{
  NmcRuntimeScheduleVariant, NmcDecodeService, recompute_active_rows_locked,
}
use cohere_megakernel.Runtime.Service.Invariant.{IsService}
use cohere_megakernel.Runtime.Step.{
  Snapshot, length_guard, snapshot, advance, any_active, under_pressure, select_variant,
  context_len,
}
use cohere_megakernel.Runtime.Step.Progress.{
  remaining, guard-remaining, advance-remaining-le, snapshot-Agrees, Agrees, idle,
}
use cohere_megakernel.Runtime.Loop.{
  Phase, failed, top, pause_parked, idle_parked, pressure_parked, wedged, stepping, launched,
  finished, Outside, System, finish_watchdog_wedge, from_top, from_snapshot, from_launch, loop_move,
  loop_moves, acknowledges, Run, Start,
}
use cohere_megakernel.Runtime.Loop.Moves.{loop_move-IsLoop}
use cohere_megakernel.Runtime.Loop.Invariant.{Fits, IsLoop}
use cohere_megakernel.Runtime.Loop.Calls.{Run-IsLoop}
use cohere_megakernel.Runtime.Loop.Requests.{loop_move-Closer, loop_moves-distance, distance-bound}
use cohere_megakernel.Runtime.Loop.Handshake.{Start-IsLoop}
use cohere_megakernel.Runtime.Loop.Wedge.{
  hangs, InDebug, loop_moves-InDebug, Run-InDebug, Start-InDebug,
}
use cohere_megakernel.Runtime.Loop.Answer.{Ended, settled}

-- The columns that the active rows have left
abbrev pub left : System → ℕ
left s = remaining s.service.batch s.service

-- The columns that a step uses up, at the least
abbrev used_up : ℕ → Snapshot → ℕ
used_up n snap = if any_active n snap.active.at then 1 else 0

-- The moves until the loop rests, at the most, where neither a pause nor a stop is requested
unfoldable work : System → ℕ
work s = elim s.phase [
  | top ↦ 3 * left s + (if s.service.active_rows == 0 then 1 else 2)
  | pause_parked ↦ 3 * left s + 3
  | idle_parked ↦ if ltb 0 s.service.active_rows then 3 * left s + 3 else 0
  | pressure_parked ↦ if s.service.kv_pressure then 0 else 3 * left s + 3
  | stepping snap ↦ 3 * (left s - used_up s.service.batch snap) + 4
  | launched snap ↦ 3 * (left s - used_up s.service.batch snap) + 3
  | wedged ↦ 0
  | finished code ↦ 0
]

abbrev at_phase : Bool → NmcDecodeService → Bool → Phase → System
at_phase d s f p = record { debug_mode = d; service = s; phase = p; in_flight = f }

length_guard-batch : (s : NmcDecodeService) → (length_guard s).batch ≡ s.batch
unfolding length_guard recompute_active_rows_locked
length_guard-batch s = refl

advance-batch :
    (snap : Snapshot) (sampled : ℕ → ℤ) (s : NmcDecodeService)
    → (advance snap sampled s).batch ≡ s.batch
unfolding advance recompute_active_rows_locked
advance-batch snap sampled s = refl

-- The length guard leaves a column for each row that the step works on.
step-left :
    (s : NmcDecodeService)
    → IsService s
    → any_active s.batch (snapshot s).active.at ≡ true
    → 0 < remaining (length_guard s).batch (length_guard s)
step-left s inv some_row =
    let taken =
      advance-remaining-le s.batch (snapshot s) (λ _. pos 0) (length_guard s)
        (snapshot-Agrees s inv) in
    ground (arith, taken, some_row, length_guard-batch s)

guard-left :
    (s : NmcDecodeService) → remaining (length_guard s).batch (length_guard s) ≤ remaining s.batch s
unfolding length_guard
guard-left s = guard-remaining s.batch s

from_top-work :
    (o : Outside) (d : Bool) (s : NmcDecodeService) (f : Bool)
    → IsService s
    → s.pause_req ≡ false
    → s.stop ≡ false
    → work (from_top o (at_phase d s f top)) < work (at_phase d s f top)
unfolding from_top finish_watchdog_wedge work
from_top-work o d s f inv asked halt =
    ground (arith, asked, halt, length_guard-batch s, guard-left s, step-left s inv, idle s)

from_launch-work :
    (o : Outside) (snap : Snapshot) (d : Bool) (s : NmcDecodeService) (f : Bool)
    → Agrees snap s
    → work (from_launch o snap (at_phase d s f (launched snap)))
      < work (at_phase d s f (launched snap))
unfolding from_launch finish_watchdog_wedge work
from_launch-work o snap d s f agrees =
    ground
      (arith, advance-batch snap o.sampled s, advance-remaining-le s.batch snap o.sampled s agrees)

if_work :
    (b : Bool) (s t : System) (n : ℕ) → work s < n → work t < n → work (if b then s else t) < n
if_work true s t n h k = h
if_work false s t n h k = k

from_snapshot-work :
    (o : Outside) (snap : Snapshot) (d : Bool) (s : NmcDecodeService) (f : Bool)
    → work (from_snapshot o snap (at_phase d s f (stepping snap)))
      < work (at_phase d s f (stepping snap))
unfolding from_snapshot work
from_snapshot-work o snap d s f =
    if_work (under_pressure s snap o.free_blocks) _ _ _ (omega arith) (
      if_work (not o.launch_ok) _ _ _ (omega arith)
        (launch (select_variant s.desc.schedule_variants (context_len s snap s.batch))))
  where
    launch :
        (r : Result (Option NmcRuntimeScheduleVariant))
        → work (elim r as (λ _. System) [
          | thrown e ↦ at_phase d s f (finished failed)
          | returned v ↦ at_phase d s true (launched snap)
        ])
          < work (at_phase d s f (stepping snap))
    launch (thrown e) = omega arith
    launch (returned v) = omega arith

woken-remaining :
    (n : ℕ) (s : NmcDecodeService) → remaining n (record s { paused_ack = false }) ≡ remaining n s
unfolding remaining
woken-remaining zero s = refl
woken-remaining (suc n) s = ground (arith, woken-remaining n s)

-- A move of the loop leaves less to do.
loop_move-work :
    (o : Outside) (s : System)
    → IsLoop s
    → s.service.pause_req ≡ false
    → s.service.stop ≡ false
    → work (loop_move o s) ≤ work s - 1
unfolding loop_move work Fits
loop_move-work o s inv asked halt = go s.phase inv.fits
  where
    go :
        (p : Phase)
        → Fits p s.service
        → work (loop_move o (at_phase s.debug_mode s.service s.in_flight p))
          ≤ work (at_phase s.debug_mode s.service s.in_flight p) - 1
    go top fits =
        (let less = from_top-work o s.debug_mode s.service s.in_flight inv.service asked halt in
          omega (arith, less))
    go pause_parked fits = ground (arith, asked, halt, woken-remaining s.service.batch s.service)
    go idle_parked fits = ground (arith, asked, halt)
    go pressure_parked fits = ground (arith, asked, halt, woken-remaining s.service.batch s.service)
    go wedged fits = ground arith
    go (stepping snap) fits =
        (let less = from_snapshot-work o snap s.debug_mode s.service s.in_flight in
          omega (arith, less))
    go (launched snap) fits =
        (let less = from_launch-work o snap s.debug_mode s.service s.in_flight fits in
          omega (arith, less))
    go (finished code) fits = omega arith

loop_moves-work :
    (os : List Outside) (s : System)
    → IsLoop s
    → s.service.pause_req ≡ false
    → s.service.stop ≡ false
    → work (loop_moves os s) ≤ work s - length os
unfolding loop_moves
loop_moves-work [] s inv asked halt = omega arith
loop_moves-work (o ∷ os) s inv asked halt =
    let step = loop_move-Closer o s in
    let later =
      loop_moves-work os (loop_move o s) (loop_move-IsLoop o s inv) (step.same_pause ∙ asked)
        (step.same_stop ∙ halt) in
    omega (arith, later, loop_move-work o s inv asked halt)

work-bound : (s : System) → work s ≤ 3 * left s + 4
unfolding work
work-bound s = go s.phase
  where
    go :
        (p : Phase)
        → work (at_phase s.debug_mode s.service s.in_flight p)
          ≤ 3 * left (at_phase s.debug_mode s.service s.in_flight p) + 4
    go top = ground arith
    go pause_parked = omega arith
    go idle_parked = ground arith
    go pressure_parked = ground arith
    go wedged = omega arith
    go (stepping snap) = ground arith
    go (launched snap) = ground arith
    go (finished code) = omega arith

-- No row is active and the loop waits for one, or it is parked with its acknowledgement, or it has ended.
abbrev pub Rests : System → Type 0
Rests s =
    ((s.phase ≡ idle_parked) × (s.service.active_rows ≡ 0))
    ⊎ ((acknowledges s.phase ≡ true) ⊎ Ended s)

rests : (s : System) → InDebug s → work s ≡ 0 → Rests s
unfolding work acknowledges hangs
rests s debugs h = go s.phase debugs h
  where
    go :
        (p : Phase)
        → InDebug (record s { phase = p })
        → work (record s { phase = p }) ≡ 0
        → Rests (record s { phase = p })
    go top debugs h = absurd (ground arith)
    go pause_parked debugs h = inr (inl refl)
    go idle_parked debugs h = inl (refl, ground arith)
    go pressure_parked debugs h = inr (inl refl)
    go wedged debugs h = inr (inr (inr (refl, debugs refl)))
    go (stepping snap) debugs h = absurd (omega arith)
    go (launched snap) debugs h = absurd (omega arith)
    go (finished code) debugs h = inr (inr (inl (code, refl)))

-- Where nobody calls, the loop comes to rest: in whatever state of the run, whatever tokens are sampled and
-- whatever fails, after three moves for every column that the active rows have left and four more, and
-- however many follow, it waits for rows and none is active, or it is parked with a pause acknowledged, as it
-- is for want of free blocks, or it has returned, or, in debug mode only, it hangs on a stream that outlived
-- the watchdog.
pub rest_lem :
    {start s : System} {n : ℕ}
    → Start start
    → Run start n s
    → (os : List Outside) → 3 * left s + 4 ≤ length os
    → Rests (loop_moves os s)
rest_lem {s = s} start r os enough =
    let inv = Run-IsLoop r (Start-IsLoop start) in
    let debugs = loop_moves-InDebug os s (Run-InDebug r (Start-InDebug start)) in
    elim (Bool-cases (s.service.pause_req || s.service.stop)) [
      | inl asked ↦
          let near = loop_moves-distance os s asked in
          inr (settled (loop_moves os s) debugs (omega (arith, near, distance-bound s)))
      | inr free ↦
          let done = loop_moves-work os s inv (ground arith) (ground arith) in
          rests (loop_moves os s) debugs (omega (arith, done, work-bound s))
    ]
