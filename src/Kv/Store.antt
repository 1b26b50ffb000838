-- ===== src/Kv/Store.antt =====
-- Everything that a call of a handle reads and writes, and the monad of src/kv/cache.cpp's calls:
-- a call returns, throws with the state as it stands by then, or runs into undefined behaviour.
pub mod Ensures
pub mod Post
use cohere_megakernel.Common.{
  ℕ, zero, suc, ◌+◌, ◌-◌, max, Bool, true, false, List, [], ◌∷◌, ltb, ◌==◌, if◌then◌else◌,
}
use cohere_megakernel.Common.Int.{ℤ}
use cohere_megakernel.Kv.Pool.{active_count}
use cohere_megakernel.Kv.Global.{Global, KvError, cuda_failure, Attempt, done, fails}
use cohere_megakernel.Kv.State.{Vector, write_at, Geometry, State}

-- What the device tables hold once the copies that were put on the stream have run.
pub record Device : Type 0 where
  pub page_table : Vector ℤ
  pub cache_seqlens : Vector ℤ
  pub row_active : Vector ℤ

-- `cuda_results` says of the CUDA calls to come, in their order, whether they succeed; behind its
-- end they all do. CUDA is no part of the repository.
pub record Store : Type 0 where
  pub global : Global
  pub kv : State
  pub device : Device
  pub cuda_results : List Bool

pub data Outcome (A : Type 0) : Type 0 where
  ok : A → Store → Outcome A
  throws : KvError → Store → Outcome A
  undefined : Outcome A

abbrev pub M : Type 0 → Type 0
M A = Store → Outcome A

abbrev pub pure : {A : Type 0} → A → M A
pure a s = ok a s

abbrev pub throw : {A : Type 0} → KvError → M A
throw e s = throws e s

abbrev pub and_then : {A B : Type 0} → Outcome A → (A → M B) → Outcome B
and_then (ok a s) k = k a s
and_then (throws e s) k = throws e s
and_then undefined k = undefined

infixl 5 ◌>>=◌ ◌>>◌
abbrev pub ◌>>=◌ : {A B : Type 0} → M A → (A → M B) → M B
◌>>=◌ m k s = and_then (m s) k

abbrev pub ◌>>◌ : {A B : Type 0} → M A → M B → M B
m >> k = m >>= λ _. k

abbrev pub require : Bool → KvError → M (Unit {0})
require true e s = ok tt s
require false e s = throws e s

abbrev pub get : M Store
get s = ok s s

abbrev pub get_kv : M State
get_kv s = ok s.kv s

abbrev pub set_kv : State → M (Unit {0})
set_kv kv s = ok tt (record s { kv = kv })

-- A call under the lock that may throw.
unfoldable pub locked : {A : Type 0} → (Global → Attempt (A × Global)) → M A
locked f s = elim (f s.global) [
  | done r ↦ ok r.0 (record s { global = r.1 })
  | fails e ↦ throws e s
]

abbrev pub outcome_of : {A : Type 0} → Attempt A → M A
outcome_of (done a) s = ok a s
outcome_of (fails e) s = throws e s

-- A call under the lock that reads and may throw.
unfoldable pub look : {A : Type 0} → (Global → Attempt A) → M A
look f s = outcome_of (f s.global) s

-- `for (i = from; i < from + n; ++i) a = body(i, a)`
unfoldable pub for_range : {A : Type 0} → ℕ → ℕ → A → (ℕ → A → M A) → M A
for_range zero i a body = pure a
for_range (suc n) i a body = do b ← body i a; for_range n (suc i) b body

-- `for (i = n - 1; i >= 0; --i) body(i)`
unfoldable pub for_down : ℕ → (ℕ → M (Unit {0})) → M (Unit {0})
for_down zero body = pure tt
for_down (suc n) body = do body n; for_down n body

-- Access to a vector's elements, which is undefined out of its bounds.
unfoldable pub read_page : ℕ → M ℤ
read_page k s = let v = s.kv.page_table_host in if ltb k v.size then ok (v.at k) s else undefined

unfoldable pub write_page : ℕ → ℤ → M (Unit {0})
write_page k z s =
    let v = s.kv.page_table_host in
    if ltb k v.size
    then ok tt (record s { kv = record s.kv { page_table_host = write_at v k z } })
    else undefined

unfoldable pub read_evict : ℕ → M ℕ
read_evict k s =
    let v = s.kv.sliding_evict_until in if ltb k v.size then ok (v.at k) s else undefined

unfoldable pub write_evict : ℕ → ℕ → M (Unit {0})
write_evict k n s =
    let v = s.kv.sliding_evict_until in
    if ltb k v.size
    then ok tt (record s { kv = record s.kv { sliding_evict_until = write_at v k n } })
    else undefined

unfoldable pub read_seqlen : ℕ → M ℤ
read_seqlen k s =
    let v = s.kv.cache_seqlens_host in if ltb k v.size then ok (v.at k) s else undefined

unfoldable pub write_seqlen : ℕ → ℤ → M (Unit {0})
write_seqlen k z s =
    let v = s.kv.cache_seqlens_host in
    if ltb k v.size
    then ok tt (record s { kv = record s.kv { cache_seqlens_host = write_at v k z } })
    else undefined

unfoldable pub write_active : ℕ → ℤ → M (Unit {0})
write_active k z s =
    let v = s.kv.row_active_host in
    if ltb k v.size
    then ok tt (record s { kv = record s.kv { row_active_host = write_at v k z } })
    else undefined

-- `MK_CUDA_CHECK` around a call that changes nothing by itself here.
unfoldable pub cuda_call : M (Unit {0})
cuda_call s = elim s.cuda_results [
  | [] ↦ ok tt s
  | c ∷ rest ↦
      let s' = record s { cuda_results = rest } in if c then ok tt s' else throws cuda_failure s'
]

-- `kv_update_peak`
unfoldable pub kv_update_peak : M (Unit {0})
kv_update_peak s = ok tt (record s {
  kv = record s.kv { peak_allocated = max s.kv.peak_allocated (active_count s.global.pool) };
})

unfoldable pub kv_flush_page_table : M (Unit {0})
kv_flush_page_table = do
  cuda_call
  λ s. ok tt (record s { device = record s.device { page_table = s.kv.page_table_host } })

unfoldable pub kv_flush_cache_seqlens : Geometry → M (Unit {0})
kv_flush_cache_seqlens g = if g.cache_seqlens == 0 then pure tt else do
  cuda_call
  λ s. ok tt (record s { device = record s.device { cache_seqlens = s.kv.cache_seqlens_host } })

-- The copy of `row_active_host` at the end of a call, where the handle has that tensor.
unfoldable pub kv_flush_row_active : Geometry → M (Unit {0})
kv_flush_row_active g = if g.row_active == 0 then pure tt else do
  cuda_call
  λ s. ok tt (record s { device = record s.device { row_active = s.kv.row_active_host } })
