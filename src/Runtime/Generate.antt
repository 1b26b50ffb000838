-- ===== src/Runtime/Generate.antt =====
-- `runtime_generate` of src/decode/runtime.cu, a whole decode run in lockstep: its checks, its loop, and
-- what it reports for each row. The kernels' tokens are a parameter, and so is the success of the calls
-- of the cache, of CUDA and of the kernel. Timing and progress reports are left out.
pub mod Checks
pub mod Rows
pub mod Run
pub mod Schedule
pub mod Steps
pub mod Tested
use cohere_megakernel.Common.{
  ℕ, zero, suc, ◌+◌, ◌-◌, ◌^◌, max, Bool, true, false, ◌&&◌, ◌||◌, not, List, [], ◌∷◌, length, ltb,
  leb, ◌==◌, if◌then◌else◌,
}
use cohere_megakernel.Common.Int.{ℤ, pos, negsuc, pos_part, is_neg, is_nonpos, int_eq, int_lt}
use cohere_megakernel.Runtime.Float.{Float, finite_positive, finite_nonnegative}
use cohere_megakernel.Runtime.Failure.{
  Result, returned, thrown, ◌>>=◌, ◌>>◌, require, max_new_not_positive, batch_size_unsupported,
  hidden_not_positive, vocab_not_positive, temperature_negative, eps_not_positive,
  start_pos_negative, generated_ids_missing, buffers_missing, jit_missing, kv_handle_missing,
  buckets_not_increasing, variant_invalid, start_pos_rows_not_batch, start_pos_row_negative,
  start_pos_not_maximum, horizon_exceeds_int32, horizon_not_covered, zero_region_without_pointer,
  no_bucket_for_context, stream_failure,
}
use cohere_megakernel.Runtime.Refresh.{NmcLaunchDesc}
use cohere_megakernel.Runtime.Service.{
  NmcRuntimeScheduleVariant, NmcZeroRegion, FinishReason, unfinished, eos, length_stop,
  is_supported_nmc_batch_size, zero_regions_ok, is_eos,
}
use cohere_megakernel.Runtime.Step.{any_active}

-- The inputs that decide what the run does; its outputs are a record of their own.
pub record NmcRuntimeGenerateDesc : Type 0 where
  pub launch : NmcLaunchDesc
  pub w_ln0 : ℕ
  pub generated_ids : ℕ
  pub zero_regions : List NmcZeroRegion
  pub eos_token_ids : List ℤ
  pub max_new : ℤ
  pub start_pos : ℤ
  pub vocab_size : ℤ
  pub jit_handle : ℕ
  pub schedule_variants : List NmcRuntimeScheduleVariant
  pub kv_handle : ℕ
  pub rms_norm_eps : Float
  pub temperature : Float
  pub token_callback : ℕ
  pub start_pos_per_row : List ℤ

abbrev nonzero : ℕ → Bool
nonzero p = not (p == 0)

-- The loop over the variants, from `previous_bucket_upper` on
unfoldable pub check_variants : ℤ → List NmcRuntimeScheduleVariant → Result (Unit {0})
check_variants previous_bucket_upper [] = returned tt
check_variants previous_bucket_upper (v ∷ vs) = do
  require (int_lt previous_bucket_upper v.bucket_upper) buckets_not_increasing
  require
      (nonzero v.inst_buf
        && (nonzero v.num_inst_per_sm && (nonzero v.jit_handle && not (is_nonpos v.max_inst))))
      variant_invalid
  check_variants v.bucket_upper vs

-- The checks of the scalars and pointers, in their order
unfoldable pub check_inputs : NmcRuntimeGenerateDesc → Result (Unit {0})
check_inputs d = do
  require (not (is_nonpos d.max_new)) max_new_not_positive
  require (is_supported_nmc_batch_size d.launch.bs) batch_size_unsupported
  require (not (is_nonpos d.launch.d)) hidden_not_positive
  require (not (is_nonpos d.vocab_size)) vocab_not_positive
  require (finite_nonnegative d.temperature) temperature_negative
  require (finite_positive d.rms_norm_eps) eps_not_positive
  require (not (is_neg d.start_pos)) start_pos_negative
  require (nonzero d.generated_ids) generated_ids_missing
  require
      (nonzero d.launch.w_lmhead
        && (nonzero d.launch.x_resid
            && (nonzero d.launch.x_raw && (nonzero d.launch.lm_logits && nonzero d.w_ln0))))
      buffers_missing
  require (nonzero d.jit_handle) jit_missing
  require (nonzero d.kv_handle) kv_handle_missing

-- `max_start_pos`, where no row is negative
unfoldable pub max_start_pos : List ℤ → ℕ → Result ℕ
max_start_pos [] longest = returned longest
max_start_pos (row ∷ rows) longest = do
  require (not (is_neg row)) start_pos_row_negative
  max_start_pos rows (max longest (pos_part row))

-- `start_pos_host[b]` of a list of rows
unfoldable pub row_start : List ℤ → ℕ → ℕ
row_start [] b = 0
row_start (row ∷ rows) zero = pos_part row
row_start (row ∷ rows) (suc b) = row_start rows b

-- The rows' positions, with `start_pos_per_row` as a list that is empty for a null pointer
unfoldable pub start_positions : NmcRuntimeGenerateDesc → List ℤ → Result (ℕ → ℕ)
start_positions d [] = returned (λ _. pos_part d.start_pos)
start_positions d (row ∷ rows) = do
  require (length (row ∷ rows) == pos_part d.launch.bs) start_pos_rows_not_batch
  longest ← max_start_pos (row ∷ rows) 0
  require (longest == pos_part d.start_pos) start_pos_not_maximum
  returned (row_start (row ∷ rows))

-- `required_context`, for a positive `max_new`
unfoldable pub required_context : NmcRuntimeGenerateDesc → ℕ
required_context d = pos_part d.start_pos + (pos_part d.max_new - 1)

abbrev pub int32_max : ℕ
int32_max = 2147483647

-- `schedule_variants[num - 1].bucket_upper < required`, if there is one, is false.
unfoldable pub last_covers : List NmcRuntimeScheduleVariant → ℕ → Bool
last_covers [] required = true
last_covers (v ∷ []) required = not (int_lt v.bucket_upper (pos required))
last_covers (v ∷ w ∷ vs) required = last_covers (w ∷ vs) required

-- All checks, which give the rows' positions
unfoldable pub checked_starts : NmcRuntimeGenerateDesc → Result (ℕ → ℕ)
checked_starts d = do
  check_inputs d
  check_variants (pos 0) d.schedule_variants
  starts ← start_positions d d.start_pos_per_row
  require (leb (required_context d) int32_max) horizon_exceeds_int32
  require (last_covers d.schedule_variants (required_context d)) horizon_not_covered
  require (zero_regions_ok d.zero_regions) zero_region_without_pointer
  returned starts

-- What the run meets outside: the rows that the device says are active, the tokens of column 0, those
-- that step `step` samples, whether the cache's step, the rest of a step's calls and the copies at its
-- end succeed, and the callback's answers.
pub record World : Type 0 where
  pub masked_in : ℕ → Bool
  pub seed_token : ℕ → ℤ
  pub sampled : ℕ → ℕ → ℤ
  pub kv_ok : ℕ → Bool
  pub launch_ok : ℕ → Bool
  pub tokens_ok : ℕ → Bool
  pub callback_ok : ℕ → Bool
  pub setup_ok : Bool
  pub report_ok : Bool

-- `row_active`, `gen_len`, `finish`, `executed`, and the variants from `schedule_variant_idx` on
pub record Decoded : Type 0 where
  pub row_active : ℕ → Bool
  pub gen_len : ℕ → ℕ
  pub finish : ℕ → FinishReason
  pub executed : ℕ
  pub schedule : List NmcRuntimeScheduleVariant

-- The rows whose token is a stop token finish.
unfoldable pub eos_stop : List ℤ → (ℕ → ℤ) → Decoded → Decoded
eos_stop ids tokens s = record s {
  row_active = λ b. s.row_active b && not (is_eos ids (tokens b));
  finish = λ b. if s.row_active b && is_eos ids (tokens b) then eos else s.finish b;
}

-- The rows that are still active finish.
unfoldable pub all_stop : Decoded → Decoded
all_stop s = record s {
  row_active = λ b. false;
  finish = λ b. if s.row_active b then length_stop else s.finish b;
}

abbrev pub is_empty : List ℤ → Bool
is_empty [] = true
is_empty (x ∷ xs) = false

-- Each row that is not masked out has its seed token.
unfoldable pub fresh : NmcRuntimeGenerateDesc → World → Decoded
fresh d w = record {
  row_active = w.masked_in;
  gen_len = λ b. 1;
  finish = λ b. unfinished;
  executed = 0;
  schedule = d.schedule_variants;
}

-- In front of the loop, with a positive `max_new`
unfoldable pub seeded : NmcRuntimeGenerateDesc → World → Decoded
seeded d w =
    let checked =
      if is_empty d.eos_token_ids
      then fresh d w
      else eos_stop d.eos_token_ids w.seed_token (fresh d w) in
    if pos_part d.max_new - 1 == 0 then all_stop checked else checked

-- The longest context of an active row among the first `n`
unfoldable pub longest_context : Decoded → (ℕ → ℕ) → ℕ → ℕ → ℕ
longest_context s starts step zero = 0
longest_context s starts step (suc n) =
    let longest = longest_context s starts step n in
    if s.row_active n then max longest (starts n + step + 1) else longest

-- `while (idx + 1 < num && context > variants[idx].bucket_upper) ++idx`, from variant `v` on
unfoldable pub advance_variants :
    NmcRuntimeScheduleVariant → List NmcRuntimeScheduleVariant → ℕ → List NmcRuntimeScheduleVariant
advance_variants v [] context = v ∷ []
advance_variants v (w ∷ ws) context =
    if int_lt v.bucket_upper (pos context) then advance_variants w ws context else v ∷ w ∷ ws

-- The test of the variant that the walk ends at
unfoldable pub require_bucket :
    List NmcRuntimeScheduleVariant → ℕ → Result (List NmcRuntimeScheduleVariant)
require_bucket [] context = returned []
require_bucket (v ∷ vs) context =
    if int_lt v.bucket_upper (pos context) then thrown no_bucket_for_context else returned (v ∷ vs)

unfoldable pub choose_variant :
    List NmcRuntimeScheduleVariant → ℕ → Result (List NmcRuntimeScheduleVariant)
choose_variant [] context = returned []
choose_variant (v ∷ vs) context = require_bucket (advance_variants v vs context) context

-- Each active row holds one token more.
unfoldable pub grown : ℕ → Decoded → Decoded
grown step s = record s { gen_len = λ b. if s.row_active b then step + 2 else s.gen_len b }

-- Whether the tokens of a step come to the host
unfoldable pub host_tokens : NmcRuntimeGenerateDesc → Bool
host_tokens d = not (is_empty d.eos_token_ids) || nonzero d.token_callback

-- A step, and whether the callback has asked to end the run
unfoldable pub generate_step :
    NmcRuntimeGenerateDesc → World → (ℕ → ℕ) → ℕ → Decoded → Result (Bool × Decoded)
generate_step d w starts step s = do
  require (w.kv_ok step) stream_failure
  schedule ← choose_variant s.schedule (longest_context s starts step (pos_part d.launch.bs))
  require (w.launch_ok step) stream_failure
  let now = grown step (record s { executed = s.executed + 1; schedule = schedule })
  require (not (host_tokens d) || w.tokens_ok step) stream_failure
  let told = if host_tokens d then eos_stop d.eos_token_ids (w.sampled step) now else now
  let ends = nonzero d.token_callback && not (w.callback_ok step)
  let full = if leb (pos_part d.max_new) (step + 2) then all_stop told else told
  returned (ends, if ends then told else full)

-- The steps from `step` on, `n` of them at the most
unfoldable pub generate_steps :
    NmcRuntimeGenerateDesc → World → (ℕ → ℕ) → ℕ → ℕ → Decoded → Result Decoded
generate_steps d w starts zero step s = returned s
generate_steps d w starts (suc n) step s = elim (any_active (pos_part d.launch.bs) s.row_active) [
  | false ↦ returned s
  | true ↦ generate_step d w starts step s >>= λ r. elim r.0 [
    | true ↦ returned r.1
    | false ↦ generate_steps d w starts n (suc step) r.1
  ]
]

unfoldable pub runtime_generate : NmcRuntimeGenerateDesc → World → Result Decoded
runtime_generate d w = do
  starts ← checked_starts d
  require w.setup_ok stream_failure
  s ← generate_steps d w starts (pos_part d.max_new - 1) 0 (seeded d w)
  require w.report_ok stream_failure
  returned s
