-- ===== src/Runtime.antt =====
-- The host side of the decode runtime, src/decode/runtime.cu, over the paged KV cache.
pub mod Failure
pub mod Monad
pub mod Float
pub mod Drain
pub mod Refresh
pub mod Service
pub mod Step
pub mod Loop
pub mod Facade
pub mod Scratch
pub mod Generate
mod Tests
