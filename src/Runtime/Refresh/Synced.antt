-- ===== src/Runtime/Refresh/Synced.antt =====
-- After each refresh the device's queue is the one for the live lengths, uploaded or not.
use cohere_megakernel.Common.{ℕ, ◌*◌, ◌<◌, ◌≡◌, ◌⊎◌, max, List}
use cohere_megakernel.Common.Int.{pos, minus_one}
use cohere_megakernel.Runtime.Failure.{Result, returned}
use cohere_megakernel.Runtime.Drain.{DrainShape, AttnTask, nmc_build_attn_queue_words}
use cohere_megakernel.Runtime.Refresh.{NmcLaunchDesc, DrainState}

module _ (d : DrainShape) (ld : NmcLaunchDesc) where
  -- The capacity that the host reserves, and the queue for some splits.
  abbrev pub queue_of : (ℕ → ℕ) → Result (List AttnTask)
  queue_of splits =
      nmc_build_attn_queue_words splits d.batch d.hkv ld.hq ld.head_dim
        (d.batch * d.hkv * max 1 d.max_attn_splits)

  -- The device holds the queue for the splits that it holds.
  abbrev pub Current : DrainState → Type 0
  Current s = queue_of s.device_splits ≡ returned s.device_tasks

  -- A cache of the batch's size is fresh, or describes what the device holds.
  abbrev pub Synced : DrainState → Type 0
  Synced s =
      s.splits_cache.size ≡ d.batch
      → ((b : ℕ) → b < d.batch → s.splits_cache.at b ≡ minus_one)
        ⊎ (((b : ℕ) → b < d.batch → s.splits_cache.at b ≡ pos (s.device_splits b)) × Current s)

  -- The descriptor with the geometry of `d`.
  abbrev pub shaped : NmcLaunchDesc
  shaped = record ld {
    bs = pos d.batch;
    hkv = pos d.hkv;
    num_sms = pos d.num_sms;
    page_block_size = pos d.page_block;
  }

  -- The queue and the splits on the device are those of the rows.
  abbrev pub Follows : (ℕ → ℕ) → DrainState → Type 0
  Follows splits s =
      ((b : ℕ) → b < d.batch → s.device_splits b ≡ splits b)
      × (queue_of splits ≡ returned s.device_tasks)
