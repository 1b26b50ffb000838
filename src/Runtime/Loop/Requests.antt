-- ===== src/Runtime/Loop/Requests.antt =====
-- How far the loop of src/decode/runtime.cu is from answering a request to pause or to stop.
use cohere_megakernel.Common.{
  ℕ, ◌-◌, ◌≤◌, ◌≡◌, refl, arith, Bool, true, false, ◌||◌, not, Option, List, [], ◌∷◌, length,
  Bool-cases, inl, inr, if◌then◌else◌,
}
use cohere_megakernel.Runtime.Failure.{Result, returned, thrown}
use cohere_megakernel.Runtime.Service.{
  NmcRuntimeScheduleVariant, NmcDecodeService, recompute_active_rows_locked,
}
use cohere_megakernel.Runtime.Step.{
  Snapshot, length_guard, advance, under_pressure, select_variant, context_len,
}
use cohere_megakernel.Runtime.Loop.{
  Phase, failed, top, pause_parked, idle_parked, pressure_parked, wedged, stepping, launched,
  finished, Outside, System, finish_watchdog_wedge, from_top, from_snapshot, from_launch, loop_move,
  loop_moves,
}

-- The loop's moves until it has parked, hangs or has returned, at the most, once one of them is asked for
unfoldable pub distance : System → ℕ
distance s = elim s.phase [
  | top ↦ 1
  | pause_parked ↦ if s.service.stop then 2 else 0
  | idle_parked ↦ 2
  | pressure_parked ↦ if not s.service.kv_pressure || s.service.stop then 2 else 0
  | stepping snap ↦ 3
  | launched snap ↦ 2
  | wedged ↦ 0
  | finished code ↦ 0
]

-- A move keeps the requests, and with one of them it comes closer.
pub record Closer (s t : System) : Type 0 where
  pub same_mode : t.debug_mode ≡ s.debug_mode
  pub same_pause : t.service.pause_req ≡ s.service.pause_req
  pub same_stop : t.service.stop ≡ s.service.stop
  pub nearer : (s.service.pause_req || s.service.stop) ≡ true → distance t ≤ distance s - 1

abbrev at_phase : Bool → NmcDecodeService → Bool → Phase → System
at_phase d s f p = record { debug_mode = d; service = s; phase = p; in_flight = f }

from_top-Closer :
    (o : Outside) (d : Bool) (s : NmcDecodeService) (f : Bool)
    → Closer (at_phase d s f top) (from_top o (at_phase d s f top))
unfolding from_top finish_watchdog_wedge distance length_guard recompute_active_rows_locked
from_top-Closer o d s f = record {
  same_mode = ground arith;
  same_pause = ground arith;
  same_stop = ground arith;
  nearer = λ h. ground arith;
}

from_launch-Closer :
    (o : Outside) (snap : Snapshot) (d : Bool) (s : NmcDecodeService) (f : Bool)
    → Closer (at_phase d s f (launched snap)) (from_launch o snap (at_phase d s f (launched snap)))
unfolding from_launch finish_watchdog_wedge distance advance recompute_active_rows_locked
from_launch-Closer o snap d s f = record {
  same_mode = ground arith;
  same_pause = ground arith;
  same_stop = ground arith;
  nearer = λ h. ground arith;
}

from_snapshot-Closer :
    (o : Outside) (snap : Snapshot) (d : Bool) (s : NmcDecodeService) (f : Bool)
    → Closer
        (at_phase d s f (stepping snap))
        (from_snapshot o snap (at_phase d s f (stepping snap)))
unfolding from_snapshot distance
from_snapshot-Closer o snap d s f = elim (Bool-cases (under_pressure s snap o.free_blocks)) [
  | inl short ↦
      rw short (record {
        same_mode = refl;
        same_pause = refl;
        same_stop = refl;
        nearer = λ h. ground arith;
      })
  | inr enough ↦
      rw enough (launch (select_variant s.desc.schedule_variants (context_len s snap s.batch)))
]
  where
    stays :
        (g : Bool) (p : Phase)
        → distance (at_phase d s f p) ≤ 2
        → Closer (at_phase d s f (stepping snap)) (at_phase d s g p)
    stays g p near = record {
      same_mode = refl;
      same_pause = refl;
      same_stop = refl;
      nearer = λ h. near;
    }

    launch :
        (r : Result (Option NmcRuntimeScheduleVariant))
        → Closer (at_phase d s f (stepping snap)) (
            if not o.launch_ok then at_phase d s f (finished failed) else elim r [
              | thrown e ↦ at_phase d s f (finished failed)
              | returned v ↦ at_phase d s true (launched snap)
            ])
    launch r =
        elim o.launch_ok
          as (λ b. Closer (at_phase d s f (stepping snap)) (
            if not b then at_phase d s f (finished failed) else elim r [
              | thrown e ↦ at_phase d s f (finished failed)
              | returned v ↦ at_phase d s true (launched snap)
            ])) [
              | false ↦ stays f (finished failed) (omega arith)
              | true ↦
                  (elim r
                    as (λ q. Closer (at_phase d s f (stepping snap)) (elim q [
                      | thrown e ↦ at_phase d s f (finished failed)
                      | returned v ↦ at_phase d s true (launched snap)
                    ])) [
                      | thrown e ↦ stays f (finished failed) (omega arith)
                      | returned v ↦ stays true (launched snap) (omega arith)
                    ])
            ]

pub loop_move-Closer : (o : Outside) (s : System) → Closer s (loop_move o s)
unfolding loop_move distance
loop_move-Closer o s = go s.phase
  where
    go :
        (p : Phase)
        → Closer
            (at_phase s.debug_mode s.service s.in_flight p)
            (loop_move o (at_phase s.debug_mode s.service s.in_flight p))
    go top = from_top-Closer o s.debug_mode s.service s.in_flight
    go (stepping snap) = from_snapshot-Closer o snap s.debug_mode s.service s.in_flight
    go (launched snap) = from_launch-Closer o snap s.debug_mode s.service s.in_flight
    go wedged = record {
      same_mode = ground arith;
      same_pause = ground arith;
      same_stop = ground arith;
      nearer = λ h. ground arith;
    }
    go (finished code) = record {
      same_mode = refl;
      same_pause = refl;
      same_stop = refl;
      nearer = λ h. omega arith;
    }
    go pause_parked = record {
      same_mode = ground arith;
      same_pause = ground arith;
      same_stop = ground arith;
      nearer = λ h. ground arith;
    }
    go idle_parked = record {
      same_mode = ground arith;
      same_pause = ground arith;
      same_stop = ground arith;
      nearer = λ h. ground arith;
    }
    go pressure_parked = record {
      same_mode = ground arith;
      same_pause = ground arith;
      same_stop = ground arith;
      nearer = λ h. ground arith;
    }

-- Without a call in between, `n` moves come `n` closer.
pub loop_moves-distance :
    (os : List Outside) (s : System)
    → (s.service.pause_req || s.service.stop) ≡ true
    → distance (loop_moves os s) ≤ distance s - length os
unfolding loop_moves
loop_moves-distance [] s h = omega arith
loop_moves-distance (o ∷ os) s h =
    let step = loop_move-Closer o s in
    let later = loop_moves-distance os (loop_move o s) (rw (step.same_pause, step.same_stop) h) in
    omega (arith, step.nearer h)

pub distance-bound : (s : System) → distance s ≤ 3
unfolding distance
distance-bound s = go s.phase
  where
    go : (p : Phase) → distance (at_phase s.debug_mode s.service s.in_flight p) ≤ 3
    go top = omega arith
    go pause_parked = ground arith
    go idle_parked = omega arith
    go pressure_parked = ground arith
    go (stepping snap) = omega arith
    go (launched snap) = omega arith
    go wedged = omega arith
    go (finished code) = omega arith
