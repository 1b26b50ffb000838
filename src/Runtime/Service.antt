-- ===== src/Runtime/Service.antt =====
-- `NmcDecodeService` of src/decode/runtime.cu, the continuous-batching decode service: its state, the
-- descriptor that it adopts, and the calls that other threads make under its lock.
-- Every vector has `B_` entries, which `Service.Invariant` says of every state.
pub mod Invariant
pub mod Slot
use cohere_megakernel.Common.{
  ℕ, zero, suc, ◌+◌, ◌<◌, Bool, true, false, ◌&&◌, ◌||◌, not, Option, none, some, List, [], ◌∷◌,
  ltb, leb, ◌==◌, if◌then◌else◌,
}
use cohere_megakernel.Common.Int.{
  ℤ, pos, negsuc, pos_part, is_neg, is_nonpos, below, int_eq, int_lt,
}
use cohere_megakernel.Kv.State.{Vector, filled, write_at}
use cohere_megakernel.Runtime.Float.{Float, finite_positive, finite_nonnegative}
use cohere_megakernel.Runtime.Failure.{
  Result, returned, thrown, ◌>>=◌, ◌>>◌, require, batch_size_unsupported, dimensions_not_positive,
  buffers_missing, jit_missing, eps_not_positive, variants_invalid, zero_region_without_pointer,
  slot_row_out_of_range, slot_outside_context, temperature_negative,
}
use cohere_megakernel.Runtime.Refresh.{NmcLaunchDesc}

-- Pointers and shared pointers are numbers, of which 0 is null.
pub record NmcRuntimeScheduleVariant : Type 0 where
  pub inst_buf : ℕ
  pub num_inst_per_sm : ℕ
  pub jit_handle : ℕ
  pub max_inst : ℤ
  pub bucket_upper : ℤ

pub record NmcZeroRegion : Type 0 where
  pub ptr : ℕ
  pub bytes : ℕ

pub record NmcDecodeServiceDesc : Type 0 where
  pub launch : NmcLaunchDesc
  pub w_ln0 : ℕ
  pub generated_ids : ℕ
  pub zero_regions : List NmcZeroRegion
  pub eos_token_ids : List ℤ
  pub max_new : ℤ
  pub vocab_size : ℤ
  pub max_seq_len : ℤ
  pub kv_handle : ℕ
  pub rms_norm_eps : Float
  pub d_gen_col : ℕ
  pub d_temperature : ℕ
  pub d_seed : ℕ
  pub schedule_variants : List NmcRuntimeScheduleVariant
  pub jit_handle : ℕ
  pub token_callback : ℕ
  pub attn_drain : ℤ
  pub max_attn_splits : ℤ
  pub min_attn_chunk : ℤ

pub data FinishReason : Type 0 where
  unfinished eos length_stop : FinishReason

pub record NmcDecodeService : Type 0 where
  pub desc : NmcDecodeServiceDesc
  pub batch : ℕ
  pub active : Vector Bool
  pub start_pos : Vector ℕ
  pub gen_col : Vector ℕ
  pub temperature : Vector Float
  pub seed : Vector ℕ
  pub finish : Vector FinishReason
  pub active_rows : ℕ
  pub zero_regions_dev_count : ℤ
  pub attn_splits_cache : Vector ℤ
  pub pause_req : Bool
  pub paused_ack : Bool
  pub stop : Bool
  pub kv_pressure : Bool

unfoldable pub is_supported_nmc_batch_size : ℤ → Bool
is_supported_nmc_batch_size (pos n) = (n == 1) || ((n == 2) || ((n == 4) || (n == 8)))
is_supported_nmc_batch_size (negsuc n) = false

abbrev nonzero : ℕ → Bool
nonzero p = not (p == 0)

abbrev is_empty : List NmcRuntimeScheduleVariant → Bool
is_empty [] = true
is_empty (v ∷ vs) = false

-- The loop over the variants: complete, and strictly ascending from `previous_bucket` on.
unfoldable pub variants_ascend : ℤ → List NmcRuntimeScheduleVariant → Bool
variants_ascend previous_bucket [] = true
variants_ascend previous_bucket (v ∷ vs) =
    nonzero v.inst_buf
    && (nonzero v.num_inst_per_sm
        && (nonzero v.jit_handle
            && (not (is_nonpos v.max_inst)
                && (int_lt previous_bucket v.bucket_upper && variants_ascend v.bucket_upper vs))))

unfoldable pub zero_regions_ok : List NmcZeroRegion → Bool
zero_regions_ok [] = true
zero_regions_ok (r ∷ rs) = not (ltb 0 r.bytes && (r.ptr == 0)) && zero_regions_ok rs

-- The checks of `apply_desc`, in their order.
unfoldable pub check_desc : NmcDecodeServiceDesc → Result (Unit {0})
check_desc d = do
  require
      (is_supported_nmc_batch_size d.launch.bs
        && (not (is_nonpos d.max_new)
            && (not (is_nonpos d.vocab_size) && not (is_nonpos d.max_seq_len))))
      dimensions_not_positive
  require
      (nonzero d.generated_ids
        && (nonzero d.kv_handle
            && (nonzero d.w_ln0
                && (nonzero d.d_gen_col && (nonzero d.d_temperature && nonzero d.d_seed)))))
      buffers_missing
  require (not (is_empty d.schedule_variants && (d.jit_handle == 0))) jit_missing
  require (finite_positive d.rms_norm_eps) eps_not_positive
  require (variants_ascend (pos 0) d.schedule_variants) variants_invalid
  require (zero_regions_ok d.zero_regions) zero_region_without_pointer

-- The commit of `apply_desc`. The diagnostic buffers are left out.
abbrev pub adopted : NmcDecodeServiceDesc → NmcDecodeService → NmcDecodeService
adopted d s = record s {
  desc = d;
  batch = pos_part d.launch.bs;
  zero_regions_dev_count = negsuc 0;
  attn_splits_cache = filled 0 (pos 0);
}

unfoldable pub apply_desc : NmcDecodeServiceDesc → NmcDecodeService → Result NmcDecodeService
apply_desc d s = do check_desc d; returned (adopted d s)

unfoldable pub count_active : ℕ → (ℕ → Bool) → ℕ
count_active zero f = 0
count_active (suc n) f = count_active n f + (if f n then 1 else 0)

unfoldable pub recompute_active_rows_locked : NmcDecodeService → NmcDecodeService
recompute_active_rows_locked s = record s { active_rows = count_active s.batch s.active.at }

-- The rows of a new geometry: none is active.
abbrev pub cleared_rows : ℕ → NmcDecodeService → NmcDecodeService
cleared_rows n s = record s {
  active = filled n false;
  start_pos = filled n 0;
  gen_col = filled n 0;
  temperature = filled n 0;
  seed = filled n 0;
  finish = filled n unfinished;
}

-- The constructor behind the creation of its streams, which are CUDA's. `apply_desc` sets the batch,
-- and no row is active, so that `active_rows_` has its initial 0.
unfoldable pub created : NmcDecodeServiceDesc → NmcDecodeService → Result NmcDecodeService
unfolding apply_desc
created d blank = do s ← apply_desc d blank; returned (cleared_rows s.batch s)

unfoldable pub set_geometry : NmcDecodeServiceDesc → NmcDecodeService → Result NmcDecodeService
unfolding apply_desc recompute_active_rows_locked
set_geometry d s = do
  require (is_supported_nmc_batch_size d.launch.bs) batch_size_unsupported
  s ← apply_desc d s
  returned (recompute_active_rows_locked (cleared_rows (pos_part d.launch.bs) s))

-- `start_pos < 0 || gen_col < 0 || (active && (gen_col >= max_new || start_pos + gen_col >=
-- max_seq_len))` is false; the sum has 64 bits.
unfoldable pub slot_in_context : NmcDecodeServiceDesc → Bool → ℤ → ℤ → Bool
slot_in_context d active start_pos gen_col =
    not (is_neg start_pos)
    && (not (is_neg gen_col)
        && (not active
            || (int_lt gen_col d.max_new
                && int_lt (pos (pos_part start_pos + pos_part gen_col)) d.max_seq_len)))

-- The assignments of `set_slot` to row `r`.
abbrev pub slot_written : ℕ → Bool → ℕ → ℕ → Float → ℕ → NmcDecodeService → NmcDecodeService
slot_written r active start_pos gen_col temperature seed s = record s {
  active = write_at s.active r active;
  start_pos = write_at s.start_pos r start_pos;
  gen_col = write_at s.gen_col r gen_col;
  temperature = write_at s.temperature r temperature;
  seed = write_at s.seed r seed;
  finish = write_at s.finish r unfinished;
}

unfoldable pub set_slot : ℤ → Bool → ℤ → ℤ → Float → ℕ → NmcDecodeService → Result NmcDecodeService
unfolding recompute_active_rows_locked
set_slot row active start_pos gen_col temperature seed s = do
  require (not (is_neg row) && below row s.batch) slot_row_out_of_range
  require (slot_in_context s.desc active start_pos gen_col) slot_outside_context
  require (finite_nonnegative temperature) temperature_negative
  returned (
      recompute_active_rows_locked (
        slot_written (pos_part row) active (pos_part start_pos) (pos_part gen_col) temperature seed
          s))

-- What `get_state` writes for one row.
pub record RowState : Type 0 where
  pub out_active : Bool
  pub out_gen_col : ℕ
  pub out_finish : FinishReason

-- The first `n` entries of the output arrays; `get_state` writes `B_` of each.
unfoldable pub rows_below : ℕ → NmcDecodeService → List RowState → List RowState
rows_below zero s out = out
rows_below (suc n) s out = rows_below n s (
    record { out_active = s.active.at n; out_gen_col = s.gen_col.at n; out_finish = s.finish.at n }
    ∷ out)

unfoldable pub get_state : NmcDecodeService → List RowState
unfolding rows_below
get_state s = rows_below s.batch s []

unfoldable pub batch_size : NmcDecodeService → ℕ
batch_size s = s.batch

unfoldable pub signal_pause : Bool → NmcDecodeService → NmcDecodeService
signal_pause v s = record s { pause_req = v }

unfoldable pub signal_stop : NmcDecodeService → NmcDecodeService
signal_stop s = record s { stop = true }

unfoldable pub resume_from_pressure : NmcDecodeService → NmcDecodeService
resume_from_pressure s = record s { kv_pressure = false }

-- `ready()`, which `wait_paused` returns once it holds or its time is over
unfoldable pub wait_paused_ready : NmcDecodeService → Bool
wait_paused_ready s = s.paused_ack || s.stop

unfoldable pub is_eos : List ℤ → ℤ → Bool
is_eos [] t = false
is_eos (x ∷ xs) t = int_eq t x || is_eos xs t
