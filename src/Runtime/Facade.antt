-- ===== src/Runtime/Facade.antt =====
-- The class DecodeService of src/decode/runtime.cu, through which src/bindings/service.cpp reaches the
-- service: each method copies the shared pointer `p_`, and what it does where the pointer is null is its
-- own. The service object lives on while a call that copied the pointer is under way.
pub mod Closed
pub mod Pausing
use cohere_megakernel.Common.{
  ℕ, zero, suc, ◌≡◌, Bool, true, false, ◌&&◌, ◌||◌, not, List, ◌==◌, if◌then◌else◌,
}
use cohere_megakernel.Common.Int.{ℤ, is_nonpos}
use cohere_megakernel.Runtime.Float.{Float}
use cohere_megakernel.Runtime.Failure.{
  RuntimeError, Result, returned, thrown, ◌>>=◌, ◌>>◌, require, batch_size_unsupported,
  max_new_not_positive, buffers_missing,
}
use cohere_megakernel.Runtime.Service.{
  NmcDecodeServiceDesc, NmcDecodeService, RowState, is_supported_nmc_batch_size, created,
  signal_pause, signal_stop, wait_paused_ready, set_slot, get_state, batch_size, set_geometry,
  resume_from_pressure,
}
use cohere_megakernel.Runtime.Loop.{System, Outside, loop_move, Call, top, parked, unstarted}

-- Whether `p_` is not null, and the service object with its loop
pub record DecodeService : Type 0 where
  pub is_open : Bool
  pub system : System

-- The methods with their arguments; `run` is the loop. A `wait_paused` stands for the moment in which its
-- wait ends, and what it finds then.
pub data Method : Type 0 where
  method_signal_pause : Bool → Method
  method_signal_stop method_wait_paused method_notify : Method
  method_set_slot : ℤ → Bool → ℤ → ℤ → Float → ℕ → Method
  method_get_state method_batch_size : Method
  method_set_geometry : NmcDecodeServiceDesc → Method
  method_kv_pressure method_resume_from_pressure method_close : Method

pub data Reply : Type 0 where
  no_value : Reply
  truth : Bool → Reply
  number : ℕ → Reply
  states : List RowState → Reply
  raised : RuntimeError → Reply
  raised_closed : Reply

abbrev pub with_service : DecodeService → NmcDecodeService → DecodeService
with_service f t = record f { system = record f.system { service = t } }

-- A call that may throw, and then changes nothing
abbrev pub attempted : DecodeService → Result NmcDecodeService → Reply × DecodeService
attempted f (returned t) = (no_value, with_service f t)
attempted f (thrown e) = (raised e, f)

-- `MK_SERVICE_IMPL()`
abbrev pub mk_service_impl :
    DecodeService → (NmcDecodeService → Reply × DecodeService) → Reply × DecodeService
mk_service_impl f call = if f.is_open then call f.system.service else (raised_closed, f)

-- A method that answers for a closed service too
abbrev pub tolerant :
    DecodeService → Reply → (NmcDecodeService → Reply × DecodeService) → Reply × DecodeService
tolerant f neutral call = if f.is_open then call f.system.service else (neutral, f)

-- What a method replies, and the object behind it
unfoldable pub method : Method → DecodeService → Reply × DecodeService
method (method_signal_pause v) f =
    mk_service_impl f λ s. (no_value, with_service f (signal_pause v s))
method method_signal_stop f = tolerant f no_value λ s. (no_value, with_service f (signal_stop s))
method method_wait_paused f = tolerant f (truth false) λ s. (truth (wait_paused_ready s), f)
method method_notify f = mk_service_impl f λ s. (no_value, f)
method (method_set_slot row active start_pos gen_col temperature seed) f =
    mk_service_impl f λ s. attempted f (set_slot row active start_pos gen_col temperature seed s)
method method_get_state f = mk_service_impl f λ s. (states (get_state s), f)
method method_batch_size f = mk_service_impl f λ s. (number (batch_size s), f)
method (method_set_geometry d) f = mk_service_impl f λ s. attempted f (set_geometry d s)
method method_kv_pressure f =
    tolerant f (number 0) λ s. (number (if s.kv_pressure then 1 else 0), f)
method method_resume_from_pressure f =
    mk_service_impl f λ s. (no_value, with_service f (resume_from_pressure s))
method method_close f =
    tolerant f no_value λ s. (no_value, record (with_service f (signal_stop s)) { is_open = false })

-- The constructor's own checks, in front of those of the service
unfoldable pub construct : Bool → NmcDecodeServiceDesc → Result DecodeService
construct debug d = do
  require (is_supported_nmc_batch_size d.launch.bs) batch_size_unsupported
  require (not (is_nonpos d.max_new)) max_new_not_positive
  require (not (d.generated_ids == 0) && not (d.kv_handle == 0)) buffers_missing
  s ← created d (unstarted d)
  returned (record {
    is_open = true;
    system = record { debug_mode = debug; service = s; phase = top; in_flight = false };
  })

-- The loop's contract: rows and geometry change while it is parked.
unfoldable pub in_contract : Method → System → Bool
in_contract (method_set_slot row active start_pos gen_col temperature seed) s = parked s.phase
in_contract (method_set_geometry d) s = parked s.phase
in_contract m s = true

-- `n` moves of the loop, with methods in between, and with calls that had copied the pointer earlier
pub data Session (f : DecodeService) : ℕ → DecodeService → Type 0 where
  here : Session f 0 f
  moved :
      {n : ℕ} {t : DecodeService} (o : Outside)
      → Session f n t
      → Session f (suc n) (record t { system = loop_move o t.system })
  used :
      {n : ℕ} {t : DecodeService} (m : Method)
      → in_contract m t.system ≡ true
      → Session f n t
      → Session f n (method m t).1
  under_way :
      {n : ℕ} {t : DecodeService} {u : NmcDecodeService}
      → Call t.system u
      → Session f n t
      → Session f n (with_service t u)
