-- ===== src/Kv/Tests.antt =====
-- A small handle of src/kv/cache.cpp over a pool of two blocks, for the theorems at concrete inputs.
mod PoolTests
mod CallTests
mod RebindTests
mod BindingTests
mod PublishTests
use cohere_megakernel.Common.{
  ℕ, ◌+◌, ◌<◌, ◌≡◌, refl, Bool, true, false, Option, none, some, List, [], ◌∷◌, ◌++◌, arith,
}
use cohere_megakernel.Common.Int.{ℤ, pos, minus_one}
use cohere_megakernel.Kv.Pool.{
  BlockHash, KvBlockPool, new_block, cleared, init_blocks, push_free_tail, remove_from_free_queue,
  pop_free_head,
}
use cohere_megakernel.Kv.Pool.FreeList.{IsFreeList}
use cohere_megakernel.Kv.Pool.Init.{upto}
use cohere_megakernel.Kv.Prefix.{find, holds}
use cohere_megakernel.Kv.Global.{Global, acquire}
use cohere_megakernel.Kv.Global.Invariant.{IsConsistent, IsCached}
use cohere_megakernel.Kv.State.{Vector, filled, Geometry, State}
use cohere_megakernel.Kv.Store.{Store}
use cohere_megakernel.Kv.Rows.Inv.{Inv, IsConsistent-ext, refs_of, count_slots}
use cohere_megakernel.Kv.Create.Pool.{IsShared, fresh-IsConsistent, fresh-size}

abbrev pub no_others : ℕ → ℕ
no_others _ = 0

abbrev pub blank : Global
blank = record { pool = cleared; cache = [] }

pub blank-IsShared : IsShared no_others blank
unfolding cleared holds find
blank-IsShared = record {
  queue = [];
  consistent = record {
    free = record { chain = (refl, refl); distinct = tt; member = λ i. refl; count = refl };
    counted = λ i l. absurd (omega arith);
    idle = λ i. ground arith;
    named = record {
      ids = λ i l. absurd (omega arith);
      cached = λ h i. ground arith;
      none_empty = λ h ids f. cc;
    };
  };
  unused = λ e i. refl;
}

abbrev pub two_blocks : Global
two_blocks = record blank {
  pool = init_blocks 2 0 (record cleared { size = 2; block = λ _. new_block });
}

pub two_blocks-IsConsistent : IsConsistent no_others two_blocks (upto 0 2)
unfolding cleared
two_blocks-IsConsistent = fresh-IsConsistent no_others blank blank-IsShared 2 refl

pub two_blocks-size : two_blocks.pool.size ≡ 2
two_blocks-size = fresh-size no_others blank blank-IsShared 2 (unfold cleared in refl)

abbrev pub small : Geometry
small = record {
  num_layers = 1;
  bs = 1;
  max_pages_per_seq = 2;
  num_phys_pages = 2;
  page_block_size = 16;
  sw_size = 0;
  sw_pattern = 1;
  page_table_elems = 2;
  page_table = 4096;
  cache_seqlens = 8192;
  row_active = 12288;
}

abbrev pub small_state : State
small_state = record {
  geometry = small;
  page_table_host = filled 2 minus_one;
  cache_seqlens_host = filled 1 (pos 0);
  row_active_host = filled 1 (pos 0);
  sliding_evict_until = filled 1 0;
  peak_allocated = 0;
}

abbrev pub start : Store
start = record {
  global = two_blocks;
  kv = small_state;
  device = record {
    page_table = filled 2 minus_one;
    cache_seqlens = filled 1 (pos 0);
    row_active = filled 1 (pos 0);
  };
  cuda_results = true ∷ false ∷ [];
}

pub small-Inv : Inv 2 no_others small start
unfolding refs_of count_slots
small-Inv = record {
  queue = upto 0 2;
  consistent =
      IsConsistent-ext no_others (λ i. refs_of small_state.page_table_host i + no_others i)
        two_blocks (upto 0 2) (λ i. ground arith) two_blocks-IsConsistent;
  pool_size = two_blocks-size;
  shaped = record {
    geometry = refl;
    page_table = refl;
    seqlens = refl;
    active = refl;
    evict = refl;
  };
  slots = λ k l. refl;
}
