-- ===== src/Runtime/Tests.antt =====
-- A small decode service of src/decode/runtime.cu, for the theorems at concrete inputs.
mod DrainTests
mod ServiceTests
mod GenerateTests
mod LoopTests
mod FacadeTests
mod ScratchTests
use cohere_megakernel.Common.{ℕ, ◌≡◌, refl, Bool, true, false, List, [], ◌∷◌}
use cohere_megakernel.Common.Int.{ℤ, pos, negsuc}
use cohere_megakernel.Kv.State.{filled}
use cohere_megakernel.Runtime.Float.{Float, is_finite, sign_bit, is_zero, finite_positive}
use cohere_megakernel.Runtime.Failure.{returned}
use cohere_megakernel.Runtime.Refresh.{NmcLaunchDesc}
use cohere_megakernel.Runtime.Service.{
  NmcRuntimeScheduleVariant, NmcDecodeServiceDesc, NmcDecodeService, unfinished,
  is_supported_nmc_batch_size, variants_ascend, zero_regions_ok, check_desc, apply_desc, created,
  slot_written,
}
use cohere_megakernel.Runtime.Loop.{Outside, System, top, unstarted, Start, constructed}

abbrev pub launch : NmcLaunchDesc
launch = record {
  num_sms = pos 8;
  inst_buf = 1;
  num_inst_per_sm = 1;
  max_inst = pos 4;
  page_block_size = pos 64;
  num_layers = pos 2;
  bs = pos 2;
  hq = 4;
  hkv = pos 1;
  head_dim = 128;
  attn_queue_words = 1;
  attn_queue_len = 0;
  attn_num_splits = 1;
  d = pos 512;
  w_lmhead = 1;
  x_resid = 1;
  x_raw = 1;
  lm_logits = 1;
}

-- The float 1.0
abbrev pub one : Float
one = 0x3f800000

abbrev pub variant : ℤ → NmcRuntimeScheduleVariant
variant upper = record {
  inst_buf = 1;
  num_inst_per_sm = 1;
  jit_handle = 1;
  max_inst = pos 4;
  bucket_upper = upper;
}

abbrev pub variants : List NmcRuntimeScheduleVariant
variants = variant (pos 512) ∷ variant (pos 4096) ∷ []

abbrev pub desc : NmcDecodeServiceDesc
desc = record {
  launch = launch;
  w_ln0 = 1;
  generated_ids = 1;
  zero_regions = [];
  eos_token_ids = pos 7 ∷ [];
  max_new = pos 16;
  vocab_size = pos 100;
  max_seq_len = pos 4096;
  kv_handle = 1;
  rms_norm_eps = one;
  d_gen_col = 1;
  d_temperature = 1;
  d_seed = 1;
  schedule_variants = variants;
  jit_handle = 0;
  token_callback = 0;
  attn_drain = pos 1;
  max_attn_splits = pos 4;
  min_attn_chunk = pos 64;
}

pub desc-accepted : check_desc desc ≡ returned tt
unfolding check_desc is_supported_nmc_batch_size variants_ascend zero_regions_ok finite_positive
    is_finite sign_bit is_zero
desc-accepted = refl

-- Two rows, none of them active
abbrev pub empty : NmcDecodeService
empty = record (unstarted desc) {
  batch = 2;
  active = filled 2 false;
  start_pos = filled 2 0;
  gen_col = filled 2 0;
  temperature = filled 2 0;
  seed = filled 2 0;
  finish = filled 2 unfinished;
  zero_regions_dev_count = negsuc 0;
  attn_splits_cache = filled 0 (pos 0);
}

-- Row 1 has taken a sequence of 100 tokens.
abbrev pub one_row : NmcDecodeService
one_row = record (slot_written 1 true 100 13 one 5 empty) { active_rows = 1 }

abbrev pub at_top : System
at_top = record { debug_mode = false; service = empty; phase = top; in_flight = false }

pub at_top-Start : Start at_top
unfolding created apply_desc check_desc is_supported_nmc_batch_size variants_ascend zero_regions_ok
    finite_positive is_finite sign_bit is_zero
at_top-Start = constructed false desc refl

-- Everything outside of the loop goes well.
abbrev pub fine : Outside
fine = record {
  scratch_ok = true;
  free_blocks = 8;
  launch_ok = true;
  sample_ok = true;
  in_time = true;
  sampled = λ _. pos 9;
  callback_ok = true;
}
