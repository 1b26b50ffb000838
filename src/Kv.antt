-- ===== src/Kv.antt =====
-- src/kv/cache.h and src/kv/cache.cpp: the paged KV cache.
pub mod Pool
pub mod Prefix
pub mod Global
pub mod State
pub mod Store
pub mod Rows
pub mod Decode
pub mod Prefill
pub mod Attach
pub mod Publish
pub mod Calls
pub mod Create
pub mod Stats
pub mod Rebind
pub mod Bindings
mod Tests
