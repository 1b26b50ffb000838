-- ===== src/Runtime/Service/Invariant.antt =====
-- What holds of a decode service of src/decode/runtime.cu between two of its calls.
use cohere_megakernel.Common.{
  ℕ, zero, suc, ◌<◌, ◌≡◌, refl, arith, Bool, true, false, ◌&&◌, Bool-cases, inl, inr,
}
use cohere_megakernel.Common.Int.{ℤ, pos, negsuc, pos_part, int_lt}
use cohere_megakernel.Runtime.Failure.{
  RuntimeError, Result, returned, thrown, ◌>>=◌, require, batch_size_unsupported,
}
use cohere_megakernel.Runtime.Service.{
  NmcDecodeServiceDesc, NmcDecodeService, unfinished, is_supported_nmc_batch_size, check_desc,
  apply_desc, count_active, recompute_active_rows_locked, set_geometry, adopted, cleared_rows,
}

-- The descriptor has been accepted, every vector has `B_` entries, the counter counts the active
-- rows, and an active row has room for a token and no reason to have finished.
pub record IsService (s : NmcDecodeService) : Type 0 where
  pub accepted : check_desc s.desc ≡ returned tt
  pub batch : s.desc.launch.bs ≡ pos s.batch
  pub active_size : s.active.size ≡ s.batch
  pub start_pos_size : s.start_pos.size ≡ s.batch
  pub gen_col_size : s.gen_col.size ≡ s.batch
  pub temperature_size : s.temperature.size ≡ s.batch
  pub seed_size : s.seed.size ≡ s.batch
  pub finish_size : s.finish.size ≡ s.batch
  pub counted : s.active_rows ≡ count_active s.batch s.active.at
  pub room :
      (b : ℕ)
      → b < s.batch
      → s.active.at b ≡ true
      → int_lt (pos (s.gen_col.at b)) s.desc.max_new ≡ true
  pub running : (b : ℕ) → b < s.batch → s.active.at b ≡ true → s.finish.at b ≡ unfinished

pub count_none : (n : ℕ) (f : ℕ → Bool) → ((b : ℕ) → f b ≡ false) → count_active n f ≡ 0
unfolding count_active
count_none zero f h = refl
count_none (suc n) f h = ground (arith, h n, count_none n f h)

pub supported-pos : (z : ℤ) → is_supported_nmc_batch_size z ≡ true → z ≡ pos (pos_part z)
unfolding is_supported_nmc_batch_size
supported-pos (pos n) h = refl
supported-pos (negsuc n) h = cc

require-passed :
    (b : Bool) (e : RuntimeError) (r : Result (Unit {0}))
    → (require b e >>= λ _. r) ≡ returned tt
    → b ≡ true
require-passed true e r h = refl
require-passed false e r h = cc

and_left : (a b : Bool) → (a && b) ≡ true → a ≡ true
and_left true b h = refl
and_left false b h = h

pub check_desc-supported :
    (d : NmcDecodeServiceDesc)
    → check_desc d ≡ returned tt
    → is_supported_nmc_batch_size d.launch.bs ≡ true
unfolding check_desc
check_desc-supported d h = and_left _ _ (require-passed _ _ _ h)

-- An accepted descriptor makes a switch succeed: the service has its geometry, no row is active, and
-- the queue of the new geometry will be uploaded. A refused one makes it throw.
pub set_geometry_lem :
    (d : NmcDecodeServiceDesc) (s : NmcDecodeService)
    → (check_desc d ≡ returned tt
        → (t : NmcDecodeService) × (set_geometry d s ≡ returned t)
          × IsService t
          × (t.desc ≡ d)
          × (t.active_rows ≡ 0)
          × (t.attn_splits_cache.size ≡ 0))
      × ((e : RuntimeError)
          → check_desc d ≡ thrown e
          → (e' : RuntimeError) × (set_geometry d s ≡ thrown e'))
unfolding set_geometry apply_desc recompute_active_rows_locked
set_geometry_lem d s = (
  λ ok_.
      let sup = check_desc-supported d ok_ in
      let n = pos_part d.launch.bs in
      (
        record (cleared_rows n (adopted d s)) { active_rows = count_active n (λ _. false) },
        rw (sup, ok_),
        record {
          accepted = ok_;
          batch = supported-pos d.launch.bs sup;
          active_size = refl;
          start_pos_size = refl;
          gen_col_size = refl;
          temperature_size = refl;
          seed_size = refl;
          finish_size = refl;
          counted = refl;
          room = λ b l h. cc;
          running = λ b l h. refl;
        },
        refl,
        count_none (pos_part d.launch.bs) (λ _. false) (λ b. refl),
        refl,
      ),
  λ e bad. elim (Bool-cases (is_supported_nmc_batch_size d.launch.bs)) [
    | inl good ↦ (e, rw (good, bad))
    | inr not_ ↦ (batch_size_unsupported, rw not_)
  ],
)
