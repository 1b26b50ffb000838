-- ===== src/Runtime/Refresh.antt =====
-- `nmc_refresh_attn_drain_queue` of src/decode/runtime.cu: the device's attention queue follows the
-- live lengths, and is uploaded only when the splits have changed.
pub mod Splits
pub mod Synced
use cohere_megakernel.Common.{
  ℕ, zero, suc, ◌*◌, max, Bool, true, false, ◌&&◌, not, List, [], ◌∷◌, ◌==◌, if◌then◌else◌, length,
}
use cohere_megakernel.Common.Int.{ℤ, pos, pos_part, minus_one, int_eq}
use cohere_megakernel.Kv.State.{Vector, filled}
use cohere_megakernel.Runtime.Failure.{attn_drain_buffers_missing, stream_failure}
use cohere_megakernel.Runtime.Monad.{
  Outcome, ok, throws, and_then, ◌>>=◌, ◌>>◌, check, lift, modify,
}
use cohere_megakernel.Runtime.Drain.{AttnTask, nmc_attn_drain_splits, nmc_build_attn_queue_words}

-- The fields of `NmcLaunchDesc` that the host reads or writes; the others are passed to the kernel.
pub record NmcLaunchDesc : Type 0 where
  pub num_sms : ℤ
  pub inst_buf : ℕ
  pub num_inst_per_sm : ℕ
  pub max_inst : ℤ
  pub page_block_size : ℤ
  pub num_layers : ℤ
  pub bs : ℤ
  pub hq : ℕ
  pub hkv : ℤ
  pub head_dim : ℕ
  pub attn_queue_words : ℕ
  pub attn_queue_len : ℕ
  pub attn_num_splits : ℕ
  pub d : ℤ
  pub w_lmhead : ℕ
  pub x_resid : ℕ
  pub x_raw : ℕ
  pub lm_logits : ℕ

-- `host_splits_cache`, the tasks and splits that the device tables hold, and what CUDA answers to the
-- copies to come; behind the end of that list they succeed.
pub record DrainState : Type 0 where
  pub splits_cache : Vector ℤ
  pub device_tasks : List AttnTask
  pub device_splits : ℕ → ℕ
  pub copy_results : List Bool

-- `std::equal` of the splits and the cache
unfoldable pub same_splits : ℕ → (ℕ → ℕ) → (ℕ → ℤ) → Bool
same_splits zero splits cache = true
same_splits (suc n) splits cache = int_eq (cache n) (pos (splits n)) && same_splits n splits cache

unfoldable pub copy : DrainState → Outcome DrainState (Unit {0})
copy s = elim s.copy_results [
  | [] ↦ ok tt s
  | c ∷ rest ↦
      let s' = record s { copy_results = rest } in if c then ok tt s' else throws stream_failure s'
]

-- The two copies, and the cache behind them.
unfoldable pub upload :
    NmcLaunchDesc → ℕ → (ℕ → ℕ) → List AttnTask → DrainState → Outcome DrainState (Unit {0})
unfolding copy
upload ld bs splits tasks = do
  check (not (ld.attn_queue_words == 0) && not (ld.attn_num_splits == 0)) attn_drain_buffers_missing
  copy
  modify (λ s. record s { device_tasks = tasks })
  copy
  modify (λ s. record s { device_splits = splits })
  modify (λ s. record s { splits_cache = record { size = bs; at = λ b. pos (splits b) } })

unfoldable pub sized_cache : ℕ → DrainState → DrainState
sized_cache bs s =
    if s.splits_cache.size == bs then s else record s { splits_cache = filled bs minus_one }

unfoldable pub nmc_refresh_attn_drain_queue :
    NmcLaunchDesc → (ℕ → ℤ) → ℤ → ℤ → DrainState → Outcome DrainState NmcLaunchDesc
unfolding sized_cache upload same_splits
nmc_refresh_attn_drain_queue ld cache_seqlens max_attn_splits min_attn_chunk = do
  let bs = pos_part ld.bs
  let capacity = bs * pos_part ld.hkv * max 1 (pos_part max_attn_splits)
  modify (sized_cache bs)
  splits ← lift (
      nmc_attn_drain_splits cache_seqlens ld.bs ld.hkv ld.num_sms ld.page_block_size max_attn_splits
        min_attn_chunk (pos 1))
  tasks ← lift (nmc_build_attn_queue_words splits bs (pos_part ld.hkv) ld.hq ld.head_dim capacity)
  (λ s. if same_splits bs splits s.splits_cache.at then ok tt s else upload ld bs splits tasks s)
  λ s. ok (record ld { attn_queue_len = length tasks }) s
