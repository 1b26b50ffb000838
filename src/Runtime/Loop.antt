-- ===== src/Runtime/Loop.antt =====
-- `NmcDecodeService::run` of src/decode/runtime.cu as a machine: one move for each stretch of the loop
-- between two points where another thread's call can come in between, and those calls.
pub mod Flags
pub mod Invariant
pub mod Moves
pub mod Calls
pub mod Requests
pub mod Handshake
pub mod Wedge
pub mod Answer
pub mod Rest
use cohere_megakernel.Common.{
  ℕ, suc, ◌≡◌, Bool, true, false, ◌&&◌, ◌||◌, not, List, [], ◌∷◌, ltb, ◌==◌, if◌then◌else◌,
}
use cohere_megakernel.Common.Int.{ℤ, pos_part, negsuc}
use cohere_megakernel.Kv.State.{filled}
use cohere_megakernel.Runtime.Float.{Float}
use cohere_megakernel.Runtime.Failure.{Result, returned, thrown}
use cohere_megakernel.Runtime.Service.{
  NmcDecodeServiceDesc, NmcDecodeService, unfinished, created, set_geometry, set_slot, signal_pause,
  signal_stop, resume_from_pressure,
}
use cohere_megakernel.Runtime.Step.{
  Snapshot, length_guard, snapshot, any_active, under_pressure, context_len, select_variant,
  advance,
}

-- What `run` returns: 0, -1, and `kDecodeServiceWatchdogExpired`.
pub data ExitCode : Type 0 where
  stopped failed watchdog_expired : ExitCode

-- Where the loop stands: at the head of `for (;;)`, in one of its three waits, behind the snapshot,
-- behind the launch, in `finish_watchdog_wedge` on a stream that hangs, or returned.
pub data Phase : Type 0 where
  top pause_parked idle_parked pressure_parked wedged : Phase
  stepping launched : Snapshot → Phase
  finished : ExitCode → Phase

-- What a stretch of the loop meets outside of it: whether the allocations and checked CUDA calls
-- before the snapshot succeed, the cache's free blocks, whether the page-table step, the uploads and
-- the launch succeed, whether the calls behind the launch do, whether the stream ends within the
-- watchdog's time (for a loop that hangs on it: by now), the sampled tokens, and the callback's answer.
pub record Outside : Type 0 where
  pub scratch_ok : Bool
  pub free_blocks : ℕ
  pub launch_ok : Bool
  pub sample_ok : Bool
  pub in_time : Bool
  pub sampled : ℕ → ℤ
  pub callback_ok : Bool

-- Whether `g_nmc_debug_mode` is set, the service, its loop's place, and whether a decode kernel may be
-- in flight.
pub record System : Type 0 where
  pub debug_mode : Bool
  pub service : NmcDecodeService
  pub phase : Phase
  pub in_flight : Bool

-- A wait for the stream that outlived the watchdog: production arms the end of the process and throws,
-- debug mode hangs on the stream.
unfoldable pub finish_watchdog_wedge : System → System
finish_watchdog_wedge s =
    if not s.debug_mode
    then record s { phase = finished watchdog_expired }
    else record s { phase = wedged }

-- From the head of the loop to its next wait, or to the snapshot behind the length guard
unfoldable pub from_top : Outside → System → System
from_top o s =
    if s.service.stop
    then record s { phase = finished stopped }
    else if s.service.pause_req
    then (if o.in_time
        then record s {
          service = record s.service { paused_ack = true };
          phase = pause_parked;
          in_flight = false;
        }
        else finish_watchdog_wedge s)
    else if s.service.active_rows == 0
    then record s { phase = idle_parked }
    else if not o.scratch_ok
    then record s { phase = finished failed }
    else if any_active s.service.batch (snapshot s.service).active.at
    then record s { service = length_guard s.service; phase = stepping (snapshot s.service) }
    else record s { service = length_guard s.service }

-- From the snapshot to the launch, or to the wait for free blocks
unfoldable pub from_snapshot : Outside → Snapshot → System → System
from_snapshot o snap s =
    if under_pressure s.service snap o.free_blocks
    then record s {
      service = record s.service { kv_pressure = true; paused_ack = true };
      phase = pressure_parked;
    }
    else if not o.launch_ok
    then record s { phase = finished failed }
    else elim (select_variant s.service.desc.schedule_variants
        (context_len s.service snap s.service.batch)) [
          | thrown e ↦ record s { phase = finished failed }
          | returned v ↦ record s { phase = launched snap; in_flight = true }
        ]

-- From the launch to the end of the step
unfoldable pub from_launch : Outside → Snapshot → System → System
from_launch o snap s =
    if not o.sample_ok
    then record s { phase = finished failed }
    else if not o.in_time
    then finish_watchdog_wedge s
    else record s {
      service = advance snap o.sampled s.service;
      phase =
          if not (s.service.desc.token_callback == 0) && not o.callback_ok
          then finished failed
          else top;
      in_flight = false;
    }

-- The end of a wait of the loop that acknowledged a pause, if `woken`
abbrev unpark : Bool → System → System
unpark woken s =
    if woken then record s { service = record s.service { paused_ack = false }; phase = top } else s

-- One move of the loop; a wait whose condition does not hold stays where it is.
unfoldable pub loop_move : Outside → System → System
loop_move o s = elim s.phase [
  | top ↦ from_top o s
  | pause_parked ↦ unpark (not s.service.pause_req || s.service.stop) s
  | idle_parked ↦
      if ltb 0 s.service.active_rows || (s.service.pause_req || s.service.stop)
      then record s { phase = top }
      else s
  | pressure_parked ↦ unpark (not s.service.kv_pressure || s.service.stop) s
  | stepping snap ↦ from_snapshot o snap s
  | launched snap ↦ from_launch o snap s
  | wedged ↦ if o.in_time then record s { phase = finished watchdog_expired } else s
  | finished code ↦ s
]

unfoldable pub loop_moves : List Outside → System → System
loop_moves [] s = s
loop_moves (o ∷ os) s = loop_moves os (loop_move o s)

-- The waits in which the loop acknowledges a pause
unfoldable pub acknowledges : Phase → Bool
acknowledges pause_parked = true
acknowledges pressure_parked = true
acknowledges _ = false

-- The waits, in which a caller may change the rows
unfoldable pub parked : Phase → Bool
parked idle_parked = true
parked pause_parked = true
parked pressure_parked = true
parked _ = false

-- A call of another thread. Those that change rows keep to the loop's contract: they come while it
-- is parked.
pub data Call (s : System) : NmcDecodeService → Type 0 where
  pause_call : (v : Bool) → Call s (signal_pause v s.service)
  stop_call : Call s (signal_stop s.service)
  resume_call : Call s (resume_from_pressure s.service)
  slot_call :
      (row : ℤ) (active : Bool) (start_pos gen_col : ℤ) (temperature : Float) (seed : ℕ)
      {t : NmcDecodeService}
      → parked s.phase ≡ true
      → set_slot row active start_pos gen_col temperature seed s.service ≡ returned t
      → Call s t
  geometry_call :
      (d : NmcDecodeServiceDesc) {t : NmcDecodeService}
      → parked s.phase ≡ true
      → set_geometry d s.service ≡ returned t
      → Call s t

-- `n` moves of the loop, with calls in between
pub data Run (s : System) : ℕ → System → Type 0 where
  here : Run s 0 s
  moved : {n : ℕ} {t : System} (o : Outside) → Run s n t → Run s (suc n) (loop_move o t)
  called :
      {n : ℕ} {t : System} {u : NmcDecodeService}
      → Call t u
      → Run s n t
      → Run s n (record t { service = u })

-- The members' initial values, before the constructor's body
abbrev pub unstarted : NmcDecodeServiceDesc → NmcDecodeService
unstarted d = record {
  desc = d;
  batch = 0;
  active = filled 0 false;
  start_pos = filled 0 0;
  gen_col = filled 0 0;
  temperature = filled 0 0;
  seed = filled 0 0;
  finish = filled 0 unfinished;
  active_rows = 0;
  zero_regions_dev_count = negsuc 0;
  attn_splits_cache = filled 0 (negsuc 0);
  pause_req = false;
  paused_ack = false;
  stop = false;
  kv_pressure = false;
}

-- A service whose loop is about to run, in either mode
pub data Start : System → Type 0 where
  constructed :
      (debug : Bool) (d : NmcDecodeServiceDesc) {s : NmcDecodeService}
      → created d (unstarted d) ≡ returned s
      → Start (record { debug_mode = debug; service = s; phase = top; in_flight = false })
