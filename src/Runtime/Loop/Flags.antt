-- ===== src/Runtime/Loop/Flags.antt =====
-- Changes of the rows in src/decode/runtime.cu: they keep the service's invariant and its flags.
use cohere_megakernel.Common.{ℕ, ◌≡◌, refl, Bool, true, false, ◌&&◌, not, subst}
use cohere_megakernel.Common.Int.{ℤ, pos_part, is_neg, below}
use cohere_megakernel.Runtime.Float.{Float, finite_nonnegative}
use cohere_megakernel.Runtime.Failure.{
  RuntimeError, Result, returned, thrown, ◌>>=◌, require, batch_size_unsupported,
  slot_row_out_of_range, slot_outside_context, temperature_negative,
}
use cohere_megakernel.Runtime.Service.{
  NmcDecodeServiceDesc, NmcDecodeService, check_desc, apply_desc, adopted, cleared_rows,
  set_geometry, set_slot, slot_in_context, slot_written, recompute_active_rows_locked,
  is_supported_nmc_batch_size,
}
use cohere_megakernel.Runtime.Service.Invariant.{IsService, set_geometry_lem}

-- The flags, which changes of the rows leave alone
pub record SameFlags (s t : NmcDecodeService) : Type 0 where
  pub same_pause : t.pause_req ≡ s.pause_req
  pub same_ack : t.paused_ack ≡ s.paused_ack
  pub same_stop : t.stop ≡ s.stop
  pub same_pressure : t.kv_pressure ≡ s.kv_pressure

pub flags-of : {s u t : NmcDecodeService} → SameFlags s u → returned u ≡ returned t → SameFlags s t
flags-of {s} {u} {t} h e = subst (SameFlags s) (returned_injective e) h
  where
    returned_injective : returned u ≡ returned t → u ≡ t
    returned_injective e = cc

pub require-returned :
    {A : Type 0} (b : Bool) (e : RuntimeError) (k : Result A) (a : A)
    → (require b e >>= λ _. k) ≡ returned a
    → (b ≡ true) × (k ≡ returned a)
require-returned true e k a h = (refl, h)
require-returned false e k a h = cc

pub set_slot-SameFlags :
    (row : ℤ) (active : Bool) (start_pos gen_col : ℤ) (temperature : Float) (seed : ℕ)
    (s : NmcDecodeService) {t : NmcDecodeService}
    → set_slot row active start_pos gen_col temperature seed s ≡ returned t
    → SameFlags s t
unfolding set_slot recompute_active_rows_locked
set_slot-SameFlags row active start_pos gen_col temperature seed s {t} e =
    flags-of
      {u = recompute_active_rows_locked (
        slot_written (pos_part row) active (pos_part start_pos) (pos_part gen_col) temperature seed
          s)}
      (record { same_pause = refl; same_ack = refl; same_stop = refl; same_pressure = refl })
      (go (not (is_neg row) && below row s.batch) (slot_in_context s.desc active start_pos gen_col)
        (finite_nonnegative temperature) _ e)
  where
    go :
        (a b c : Bool) (u : NmcDecodeService)
        → (require a slot_row_out_of_range >>= λ _. require b slot_outside_context >>= λ _.
            require c temperature_negative >>= λ _. returned u)
          ≡ returned t
        → returned u ≡ returned t
    go true true true u e = e
    go true true false u e = cc
    go true false c u e = cc
    go false b c u e = cc

pub apply_desc-returned :
    (d : NmcDecodeServiceDesc) (s : NmcDecodeService)
    (k : NmcDecodeService → Result NmcDecodeService) {t : NmcDecodeService}
    → (apply_desc d s >>= k) ≡ returned t
    → (check_desc d ≡ returned tt) × (k (adopted d s) ≡ returned t)
unfolding apply_desc
apply_desc-returned d s k e = go (check_desc d) refl e
  where
    go :
        {t : NmcDecodeService} (r : Result (Unit {0}))
        → check_desc d ≡ r
        → (r >>= (λ _. returned (adopted d s)) >>= k) ≡ returned t
        → (check_desc d ≡ returned tt) × (k (adopted d s) ≡ returned t)
    go (returned u) h e = (h, e)
    go (thrown x) h e = cc

pub set_geometry-SameFlags :
    (d : NmcDecodeServiceDesc) (s : NmcDecodeService) {t : NmcDecodeService}
    → set_geometry d s ≡ returned t
    → (check_desc d ≡ returned tt) × SameFlags s t
unfolding set_geometry recompute_active_rows_locked
set_geometry-SameFlags d s e =
    let (accepted, made) =
      apply_desc-returned d s _
        (require-returned (is_supported_nmc_batch_size d.launch.bs) batch_size_unsupported _ _
          e).1 in
    (
      accepted,
      flags-of
          {u = recompute_active_rows_locked (cleared_rows (pos_part d.launch.bs) (adopted d s))}
          (record { same_pause = refl; same_ack = refl; same_stop = refl; same_pressure = refl })
          made,
    )

pub set_geometry-IsService :
    (d : NmcDecodeServiceDesc) (s : NmcDecodeService) {t : NmcDecodeService}
    → set_geometry d s ≡ returned t
    → IsService t
set_geometry-IsService d s {t} e =
    let (u, made, kept, _, _, _) = (set_geometry_lem d s).0 (set_geometry-SameFlags d s e).0 in
    subst IsService (same u made) kept
  where
    same : (u : NmcDecodeService) → set_geometry d s ≡ returned u → u ≡ t
    same u made = cc
