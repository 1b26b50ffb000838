-- ===== src/Runtime/Step.antt =====
-- The host's part of one decode step in `NmcDecodeService::run` of src/decode/runtime.cu: which rows
-- take part, where they write, how many blocks they may need, which schedule covers them, and what
-- the sampled tokens change. The uploads of columns, temperatures and seeds are left out.
pub mod Bucket
pub mod Progress
use cohere_megakernel.Common.{
  ℕ, zero, suc, ◌+◌, ◌*◌, ◌%◌, max, Bool, true, false, ◌&&◌, not, Option, none, some, List, [], ◌∷◌,
  ltb, ◌==◌, if◌then◌else◌,
}
use cohere_megakernel.Common.Int.{ℤ, pos, pos_part, is_nonpos, int_lt}
use cohere_megakernel.Kv.State.{Vector}
use cohere_megakernel.Runtime.Failure.{Result, returned, thrown, no_bucket_for_context}
use cohere_megakernel.Runtime.Service.{
  NmcRuntimeScheduleVariant, NmcDecodeService, eos, length_stop, count_active,
  recompute_active_rows_locked, is_eos,
}

-- `host_active_snapshot` and `host_gen_col_snapshot`
pub record Snapshot : Type 0 where
  pub active : Vector Bool
  pub gen_col : Vector ℕ

-- `host_active_snapshot[b] && gen_col_[b] + 1 >= max_new`, with the snapshot still that of the rows
unfoldable pub at_length : NmcDecodeService → ℕ → Bool
at_length s b = s.active.at b && not (int_lt (pos (s.gen_col.at b + 1)) s.desc.max_new)

-- The length guard: rows that cannot write another column finish now.
unfoldable pub length_guard : NmcDecodeService → NmcDecodeService
unfolding at_length recompute_active_rows_locked
length_guard s = recompute_active_rows_locked (record s {
  active = record {
    size = s.active.size;
    at = λ b. if at_length s b then false else s.active.at b;
  };
  finish = record {
    size = s.finish.size;
    at = λ b. if at_length s b then length_stop else s.finish.at b;
  };
})

-- The snapshot behind the guard, which clears the same rows in it.
unfoldable pub snapshot : NmcDecodeService → Snapshot
unfolding at_length
snapshot s = record {
  active = record {
    size = s.active.size;
    at = λ b. if at_length s b then false else s.active.at b;
  };
  gen_col = s.gen_col;
}

-- `any`
unfoldable pub any_active : ℕ → (ℕ → Bool) → Bool
any_active zero f = false
any_active (suc n) f = if f n then true else any_active n f

-- `positions[b]`
unfoldable pub position : NmcDecodeService → Snapshot → ℕ → ℕ
position s snap b = s.start_pos.at b + snap.gen_col.at b

-- The rows that cross a page boundary.
unfoldable pub crossing : NmcDecodeService → Snapshot → ℕ
unfolding position
crossing s snap =
    let page_block = s.desc.launch.page_block_size in
    count_active s.batch λ b.
      snap.active.at b
      && (not (is_nonpos page_block) && (position s snap b % pos_part page_block == 0))

-- `need`, the blocks that are reserved for them
unfoldable pub blocks_needed : NmcDecodeService → Snapshot → ℕ
unfolding crossing
blocks_needed s snap = crossing s snap * max 1 (pos_part s.desc.launch.num_layers)

-- The step parks, for the free blocks may not be enough.
unfoldable pub under_pressure : NmcDecodeService → Snapshot → ℕ → Bool
unfolding crossing blocks_needed
under_pressure s snap free_blocks =
    ltb 0 (crossing s snap) && ltb free_blocks (blocks_needed s snap)

-- The longest context of an active row among the first `n`.
unfoldable pub context_len : NmcDecodeService → Snapshot → ℕ → ℕ
unfolding position
context_len s snap zero = 0
context_len s snap (suc n) =
    let longest = context_len s snap n in
    if snap.active.at n then max longest (position s snap n + 1) else longest

-- `while (vi + 1 < size && context_len > variants[vi].bucket_upper) ++vi`, from variant `v` on
unfoldable pub walk_variants :
    NmcRuntimeScheduleVariant → List NmcRuntimeScheduleVariant → ℕ → NmcRuntimeScheduleVariant
walk_variants v [] context = v
walk_variants v (w ∷ ws) context =
    if int_lt v.bucket_upper (pos context) then walk_variants w ws context else v

-- The variant of the step, or `none` where the service has a single kernel.
unfoldable pub select_variant :
    List NmcRuntimeScheduleVariant → ℕ → Result (Option NmcRuntimeScheduleVariant)
unfolding walk_variants
select_variant [] context = returned none
select_variant (v ∷ vs) context =
    let w = walk_variants v vs context in
    if int_lt w.bucket_upper (pos context) then thrown no_bucket_for_context else returned (some w)

-- What the sampled tokens change: the active rows advance, and finish at a stop token.
unfoldable pub advance : Snapshot → (ℕ → ℤ) → NmcDecodeService → NmcDecodeService
unfolding recompute_active_rows_locked
advance snap sampled s =
    let stops = λ (b : ℕ). snap.active.at b && is_eos s.desc.eos_token_ids (sampled b) in
    recompute_active_rows_locked (record s {
      gen_col = record {
        size = s.gen_col.size;
        at = λ b. if snap.active.at b then snap.gen_col.at b + 1 else s.gen_col.at b;
      };
      active = record { size = s.active.size; at = λ b. if stops b then false else s.active.at b };
      finish = record { size = s.finish.size; at = λ b. if stops b then eos else s.finish.at b };
    })
