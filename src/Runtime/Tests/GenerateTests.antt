-- ===== src/Runtime/Tests/GenerateTests.antt =====
-- The theorem about `runtime_generate` of src/decode/runtime.cu at a small run.
use cohere_megakernel.Common.{ℕ, ◌+◌, ◌≡◌, refl, true, List, [], ◌∷◌, ◌==◌, if◌then◌else◌}
use cohere_megakernel.Common.Int.{pos}
use cohere_megakernel.Runtime.Float.{
  is_finite, sign_bit, is_zero, finite_positive, finite_nonnegative,
}
use cohere_megakernel.Runtime.Failure.{Result, returned}
use cohere_megakernel.Runtime.Service.{
  eos, length_stop, is_supported_nmc_batch_size, zero_regions_ok, is_eos, FinishReason,
}
use cohere_megakernel.Runtime.Step.{any_active}
use cohere_megakernel.Runtime.Generate.{
  NmcRuntimeGenerateDesc, World, Decoded, check_inputs, check_variants, start_positions,
  max_start_pos, row_start, required_context, last_covers, checked_starts, runtime_generate,
  eos_stop, all_stop, fresh, seeded, longest_context, advance_variants, require_bucket,
  choose_variant, grown, host_tokens, generate_step, generate_steps,
}
use cohere_megakernel.Runtime.Generate.Run.{runtime_generate_lem}
use cohere_megakernel.Runtime.Generate.Steps.{Smooth, Done}
use cohere_megakernel.Runtime.Tests.{launch, one, variants}

-- Two rows with their prompts, and room for four tokens of each
abbrev desc : NmcRuntimeGenerateDesc
desc = record {
  launch = launch;
  w_ln0 = 1;
  generated_ids = 1;
  zero_regions = [];
  eos_token_ids = pos 7 ∷ [];
  max_new = pos 4;
  start_pos = pos 511;
  vocab_size = pos 100;
  jit_handle = 1;
  schedule_variants = variants;
  kv_handle = 1;
  rms_norm_eps = one;
  temperature = 0;
  token_callback = 0;
  start_pos_per_row = pos 511 ∷ pos 5 ∷ [];
}

-- Row 0 samples a stop token in its second step.
abbrev world : World
world = record {
  masked_in = λ b. true;
  seed_token = λ b. pos 1;
  sampled = λ step b. if b == 0 then pos (6 + step) else pos 3;
  kv_ok = λ step. true;
  launch_ok = λ step. true;
  tokens_ok = λ step. true;
  callback_ok = λ step. true;
  setup_ok = true;
  report_ok = true;
}

world-Smooth : Smooth world
world-Smooth = record {
  kv = λ step. refl;
  launch = λ step. refl;
  tokens = λ step. refl;
  callback = λ step. refl;
  setup = refl;
  report = refl;
}

desc-accepted : checked_starts desc ≡ returned (row_start (pos 511 ∷ pos 5 ∷ []))
unfolding checked_starts check_inputs check_variants start_positions max_start_pos row_start
    required_context last_covers is_supported_nmc_batch_size zero_regions_ok finite_positive
    finite_nonnegative is_finite sign_bit is_zero
desc-accepted = refl

runtime_generate_lem_example :
    (r : Decoded) × (runtime_generate desc world ≡ returned r)
    × Done desc world (row_start (pos 511 ∷ pos 5 ∷ [])) r
runtime_generate_lem_example =
    runtime_generate_lem desc world (row_start (pos 511 ∷ pos 5 ∷ [])) desc-accepted world-Smooth

-- What the run reports
abbrev reported : Result Decoded → List (ℕ × FinishReason)
reported (returned r) =
    (r.gen_len 0, r.finish 0) ∷ (r.gen_len 1, r.finish 1) ∷ (r.executed, eos) ∷ []
reported r = []

reports_both : reported (runtime_generate desc world) ≡ (3, eos) ∷ (4, length_stop) ∷ (3, eos) ∷ []
unfolding runtime_generate checked_starts check_inputs check_variants start_positions max_start_pos
    row_start required_context last_covers is_supported_nmc_batch_size zero_regions_ok
    finite_positive finite_nonnegative is_finite sign_bit is_zero eos_stop all_stop fresh seeded
    longest_context advance_variants require_bucket choose_variant grown host_tokens generate_step
    generate_steps any_active is_eos
reports_both = refl
