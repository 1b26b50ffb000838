-- ===== src/Runtime/Facade/Closed.antt =====
-- DecodeService of src/decode/runtime.cu adds nothing to the calls of the service, and what is left of it
-- behind `close`.
use cohere_megakernel.Common.{
  ℕ, ◌≤◌, ◌≡◌, refl, ◌∙◌, sym, ap, subst, ◌⊎◌, inl, inr, Bool, true, false, ◌&&◌, not, ◌==◌,
  Bool-cases, if◌then◌else◌,
}
use cohere_megakernel.Runtime.Failure.{Result, returned, thrown, ◌>>=◌}
use cohere_megakernel.Common.Int.{is_nonpos}
use cohere_megakernel.Runtime.Service.{
  NmcDecodeServiceDesc, NmcDecodeService, is_supported_nmc_batch_size, created, signal_stop,
}
use cohere_megakernel.Runtime.Loop.{
  System, Call, top, unstarted, Start, constructed, pause_call, stop_call, resume_call, slot_call,
  geometry_call, Run, here, moved, called,
}
use cohere_megakernel.Runtime.Loop.Flags.{require-returned}
use cohere_megakernel.Runtime.Loop.Answer.{Ended, stop_lem}
use cohere_megakernel.Runtime.Facade.{
  DecodeService, Method, method_signal_pause, method_signal_stop, method_wait_paused, method_notify,
  method_set_slot, method_get_state, method_batch_size, method_set_geometry, method_kv_pressure,
  method_resume_from_pressure, method_close, Reply, no_value, truth, number, raised_closed,
  attempted, method, construct, in_contract, Session,
}

-- What a method replies once the service is closed
unfoldable pub closed_reply : Method → Reply
closed_reply method_signal_stop = no_value
closed_reply method_wait_paused = truth false
closed_reply method_kv_pressure = number 0
closed_reply method_close = no_value
closed_reply m = raised_closed

method-closed_reply :
    (m : Method) (f : DecodeService) → f.is_open ≡ false → method m f ≡ (closed_reply m, f)
unfolding method closed_reply
method-closed_reply (method_signal_pause v) f e = rw e refl
method-closed_reply method_signal_stop f e = rw e refl
method-closed_reply method_wait_paused f e = rw e refl
method-closed_reply method_notify f e = rw e refl
method-closed_reply (method_set_slot row active start_pos gen_col temperature seed) f e = rw e refl
method-closed_reply method_get_state f e = rw e refl
method-closed_reply method_batch_size f e = rw e refl
method-closed_reply (method_set_geometry d) f e = rw e refl
method-closed_reply method_kv_pressure f e = rw e refl
method-closed_reply method_resume_from_pressure f e = rw e refl
method-closed_reply method_close f e = rw e refl

-- A method leaves the system alone, or it is one call of the service.
abbrev OneCall : System → System → Type 0
OneCall s t = (t ≡ s) ⊎ ((u : NmcDecodeService) × Call s u × (t ≡ record s { service = u }))

attempted-OneCall :
    (f : DecodeService) (r : Result NmcDecodeService)
    → ((u : NmcDecodeService) → r ≡ returned u → Call f.system u)
    → OneCall f.system (attempted f r).1.system
attempted-OneCall f (returned u) call = inr (u, call u refl, refl)
attempted-OneCall f (thrown e) call = inl refl

if_open-OneCall :
    (f : DecodeService) (reply : Reply) (r : Reply × DecodeService)
    → OneCall f.system r.1.system
    → OneCall f.system (if f.is_open then r else (reply, f)).1.system
if_open-OneCall f reply r h = elim (Bool-cases f.is_open) [
  | inl alive ↦ rw alive h
  | inr shut ↦ rw shut (inl refl)
]

method-OneCall :
    (m : Method) (f : DecodeService)
    → in_contract m f.system ≡ true
    → OneCall f.system (method m f).1.system
unfolding method in_contract
method-OneCall (method_signal_pause v) f c = if_open-OneCall f _ _ (inr (_, pause_call v, refl))
method-OneCall method_signal_stop f c = if_open-OneCall f _ _ (inr (_, stop_call, refl))
method-OneCall method_wait_paused f c = if_open-OneCall f _ _ (inl refl)
method-OneCall method_notify f c = if_open-OneCall f _ _ (inl refl)
method-OneCall (method_set_slot row active start_pos gen_col temperature seed) f c =
    if_open-OneCall f _ _
      (attempted-OneCall f _ λ u e. slot_call row active start_pos gen_col temperature seed c e)
method-OneCall method_get_state f c = if_open-OneCall f _ _ (inl refl)
method-OneCall method_batch_size f c = if_open-OneCall f _ _ (inl refl)
method-OneCall (method_set_geometry d) f c =
    if_open-OneCall f _ _ (attempted-OneCall f _ λ u e. geometry_call d c e)
method-OneCall method_kv_pressure f c = if_open-OneCall f _ _ (inl refl)
method-OneCall method_resume_from_pressure f c = if_open-OneCall f _ _ (inr (_, resume_call, refl))
method-OneCall method_close f c = if_open-OneCall f _ _ (inr (_, stop_call, refl))

Run-OneCall : {s t u : System} {n : ℕ} → Run s n t → OneCall t u → Run s n u
Run-OneCall {s} {n = n} r (inl same) = subst (Run s n) (sym same) r
Run-OneCall {s} {n = n} r (inr (v, call, e)) = subst (Run s n) (sym e) (called call r)

-- Any use of the object that keeps the loop's contract is a run of the service.
pub Session-Run : {f t : DecodeService} {n : ℕ} → Session f n t → Run f.system n t.system
Session-Run Session.here = here
Session-Run (Session.moved o r) = moved o (Session-Run r)
Session-Run (Session.used {t = t} m c r) = Run-OneCall (Session-Run r) (method-OneCall m t c)
Session-Run (Session.under_way call r) = called call (Session-Run r)

stays_closed : {f t : DecodeService} {n : ℕ} → f.is_open ≡ false → Session f n t → t.is_open ≡ false
stays_closed shut Session.here = shut
stays_closed shut (Session.moved o r) = stays_closed shut r
stays_closed shut (Session.used {t = t} m c r) =
    let now = stays_closed shut r in
    ap (λ (x : Reply × DecodeService). x.1.is_open) (method-closed_reply m t now) ∙ now
stays_closed shut (Session.under_way call r) = stays_closed shut r

close_closes :
    (f : DecodeService)
    → f.is_open ≡ true
    → ((method method_close f).1.is_open ≡ false)
      × ((method method_close f).1.system.service.stop ≡ true)
unfolding method signal_stop
close_closes f alive = (rw alive refl, rw alive refl)

-- A constructed object has a loop that is about to run.
pub construct-Start :
    (debug : Bool) (d : NmcDecodeServiceDesc) {f : DecodeService}
    → construct debug d ≡ returned f
    → Start f.system
unfolding construct
construct-Start debug d {f} e =
    let (_, first) = require-returned (is_supported_nmc_batch_size d.launch.bs) _ _ f e in
    let (_, second) = require-returned (not (is_nonpos d.max_new)) _ _ f first in
    let (_, third) =
      require-returned (not (d.generated_ids == 0) && not (d.kv_handle == 0)) _ _ f second in
    go (created d (unstarted d)) refl third
  where
    injective : {g h : DecodeService} → returned g ≡ returned h → g ≡ h
    injective e = cc

    go :
        (r : Result NmcDecodeService)
        → created d (unstarted d) ≡ r
        → (r >>= λ s. returned (record {
          is_open = true;
          system = record { debug_mode = debug; service = s; phase = top; in_flight = false };
        }))
          ≡ returned f
        → Start f.system
    go (returned s) made e =
        subst (λ (g : DecodeService). Start g.system) (injective e) (constructed debug d made)
    go (thrown x) made e = cc

-- However a constructed object was used before, behind a `close` of it while it is open, whatever is called
-- and whatever calls were still under way: every method leaves the object as it is, `signal_stop` and `close`
-- do nothing, `wait_paused` and `kv_pressure` answer false and 0 and all others raise the error of a closed
-- service; and three moves of its loop later `run` has returned, or, in debug mode only, it hangs on a stream
-- that outlived the watchdog.
pub close_lem :
    (debug : Bool) (d : NmcDecodeServiceDesc) {made f t : DecodeService} {m n : ℕ}
    → construct debug d ≡ returned made
    → Session made m f
    → f.is_open ≡ true
    → Session (method method_close f).1 n t
    → ((m : Method) → method m t ≡ (closed_reply m, t)) × (3 ≤ n → Ended t.system)
unfolding in_contract
close_lem debug d {f = f} {t = t} e before alive r =
    let (shut, halt) = close_closes f alive in
    let start = construct-Start debug d e in
    let closing = Session-Run (Session.used method_close refl before) in
    (
      λ m. method-closed_reply m t (stays_closed shut r),
      λ enough. stop_lem start closing halt (Session-Run r) enough,
    )
