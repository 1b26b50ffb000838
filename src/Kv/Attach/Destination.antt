-- ===== src/Kv/Attach/Destination.antt =====
-- The number by which `prefix_attach_batch` of src/kv/cache.cpp tells destinations apart.
use cohere_megakernel.Common.{ℕ, ◌^◌, ◌<◌, ◌≡◌}
use cohere_megakernel.Kv.State.Index.{row_injective}
use cohere_megakernel.Kv.Attach.{destination}

-- Rows and logical blocks of 32 bits have the same destination only if they are the same.
pub destination_injective :
    (row block row' block' : ℕ)
    → block < 2 ^ 32
    → block' < 2 ^ 32
    → destination row block ≡ destination row' block'
    → (row ≡ row') × (block ≡ block')
unfolding destination
destination_injective row block row' block' h h' e =
    row_injective row block row' block' (2 ^ 32) h h' e
