-- ===== src/Runtime/Step/Progress.antt =====
-- A decode step of src/decode/runtime.cu keeps the service's invariant, and uses up the columns that
-- its rows have left.
use cohere_megakernel.Common.{
  ℕ, zero, suc, ◌+◌, ◌-◌, ◌<◌, ◌≤◌, ◌≡◌, refl, arith, Bool, true, false, if◌then◌else◌,
}
use cohere_megakernel.Common.Int.{ℤ, pos, negsuc, pos_part, int_lt}
use cohere_megakernel.Runtime.Service.{NmcDecodeService, count_active, recompute_active_rows_locked}
use cohere_megakernel.Runtime.Service.Invariant.{IsService}
use cohere_megakernel.Runtime.Step.{
  Snapshot, at_length, length_guard, snapshot, any_active, advance,
}

-- The guard finishes rows, and keeps the invariant; the rows that stay active can take one column
-- more.
pub length_guard-IsService :
    (s : NmcDecodeService)
    → IsService s
    → IsService (length_guard s)
      × ((b : ℕ)
          → (length_guard s).active.at b ≡ true
          → int_lt (pos ((length_guard s).gen_col.at b + 1)) s.desc.max_new ≡ true)
unfolding length_guard at_length recompute_active_rows_locked
length_guard-IsService s inv = (
  record {
    accepted = inv.accepted;
    batch = inv.batch;
    active_size = inv.active_size;
    start_pos_size = inv.start_pos_size;
    gen_col_size = inv.gen_col_size;
    temperature_size = inv.temperature_size;
    seed_size = inv.seed_size;
    finish_size = inv.finish_size;
    counted = refl;
    room = λ b l h. ground (arith, inv.room b l);
    running = λ b l h. ground (arith, inv.running b l);
  },
  λ b h. ground arith,
)

-- The state of the step's rows while the step runs: nobody else changes them.
pub record Agrees (snap : Snapshot) (s : NmcDecodeService) : Type 0 where
  pub same_active : (b : ℕ) → snap.active.at b ≡ s.active.at b
  pub same_col : (b : ℕ) → snap.gen_col.at b ≡ s.gen_col.at b
  pub can_write :
      (b : ℕ) → s.active.at b ≡ true → int_lt (pos (s.gen_col.at b + 1)) s.desc.max_new ≡ true

pub snapshot-Agrees : (s : NmcDecodeService) → IsService s → Agrees (snapshot s) (length_guard s)
unfolding snapshot length_guard recompute_active_rows_locked
snapshot-Agrees s inv = record {
  same_active = λ b. refl;
  same_col = λ b. refl;
  can_write = unfold recompute_active_rows_locked in (length_guard-IsService s inv).1;
}

pub advance-IsService :
    (snap : Snapshot) (sampled : ℕ → ℤ) (s : NmcDecodeService)
    → IsService s
    → Agrees snap s
    → IsService (advance snap sampled s)
unfolding advance recompute_active_rows_locked
advance-IsService snap sampled s inv agrees = record {
  accepted = inv.accepted;
  batch = inv.batch;
  active_size = inv.active_size;
  start_pos_size = inv.start_pos_size;
  gen_col_size = inv.gen_col_size;
  temperature_size = inv.temperature_size;
  seed_size = inv.seed_size;
  finish_size = inv.finish_size;
  counted = refl;
  room = λ b l h. ground (arith, agrees.same_active b, agrees.same_col b, agrees.can_write b);
  running = λ b l h. ground (arith, agrees.same_active b, inv.running b l);
}

-- The columns that the active rows among the first `n` have left.
unfoldable pub remaining : ℕ → NmcDecodeService → ℕ
remaining zero s = 0
remaining (suc n) s =
    remaining n s + (if s.active.at n then pos_part s.desc.max_new - s.gen_col.at n else 0)

int_lt-pos : (n : ℕ) (z : ℤ) → int_lt (pos n) z ≡ true → n < pos_part z
int_lt-pos n (pos m) h = ground arith
int_lt-pos n (negsuc m) h = cc

pub guard-remaining : (n : ℕ) (s : NmcDecodeService) → remaining n (length_guard s) ≤ remaining n s
unfolding remaining length_guard recompute_active_rows_locked
guard-remaining zero s = omega arith
guard-remaining (suc n) s = ground (arith, guard-remaining n s)

pub advance-remaining-le :
    (n : ℕ) (snap : Snapshot) (sampled : ℕ → ℤ) (s : NmcDecodeService)
    → Agrees snap s
    → remaining n (advance snap sampled s) + (if any_active n snap.active.at then 1 else 0)
      ≤ remaining n s
unfolding remaining advance any_active recompute_active_rows_locked
advance-remaining-le zero snap sampled s agrees = omega arith
advance-remaining-le (suc n) snap sampled s agrees = ground (
  arith,
  advance-remaining-le n snap sampled s agrees,
  agrees.same_active n,
  agrees.same_col n,
  agrees.can_write n,
  int_lt-pos (s.gen_col.at n + 1) s.desc.max_new,
)

none-count : (n : ℕ) (f : ℕ → Bool) → any_active n f ≡ false → count_active n f ≡ 0
unfolding any_active count_active
none-count zero f h = refl
none-count (suc n) f h = ground (arith, none-count n f)

pub idle :
    (s : NmcDecodeService)
    → any_active s.batch (snapshot s).active.at ≡ false
    → (length_guard s).active_rows ≡ 0
unfolding snapshot length_guard recompute_active_rows_locked
idle s h = none-count s.batch _ h
