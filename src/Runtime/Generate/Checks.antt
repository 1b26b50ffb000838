-- ===== src/Runtime/Generate/Checks.antt =====
-- What the checks of `runtime_generate` of src/decode/runtime.cu leave to its loop: there is a column,
-- no row starts behind `start_pos`, and the last schedule variant covers the whole run.
use cohere_megakernel.Common.{
  ℕ, zero, suc, ◌≤◌, ◌<◌, ◌≡◌, subst, arith, max, true, not, List, [], ◌∷◌, leb, ◌==◌, length,
}
use cohere_megakernel.Common.Int.{ℤ, pos, negsuc, pos_part, is_neg, is_nonpos}
use cohere_megakernel.Runtime.Failure.{
  returned, Returning, gives, what_it_gives, Returning-bind, Returning-require, Returning-always,
  Returning-weaken, start_pos_row_negative, start_pos_rows_not_batch, max_new_not_positive,
  horizon_exceeds_int32, horizon_not_covered, zero_region_without_pointer, start_pos_not_maximum,
}
use cohere_megakernel.Runtime.Service.{zero_regions_ok}
use cohere_megakernel.Runtime.Generate.{
  NmcRuntimeGenerateDesc, check_inputs, check_variants, start_positions, max_start_pos, row_start,
  required_context, last_covers, checked_starts, int32_max,
}

-- The starts do not lie behind `limit`.
abbrev pub Within : ℕ → (ℕ → ℕ) → Type 0
Within limit starts = (b : ℕ) → starts b ≤ limit

row_start-Within :
    (row : ℤ) (rows : List ℤ) (limit : ℕ)
    → pos_part row ≤ limit
    → Within limit (row_start rows)
    → Within limit (row_start (row ∷ rows))
unfolding row_start
row_start-Within row rows limit first rest zero = first
row_start-Within row rows limit first rest (suc b) = rest b

max_start_pos-Within :
    (rows : List ℤ) (longest : ℕ)
    → Returning (λ l. (longest ≤ l) × Within l (row_start rows)) (max_start_pos rows longest)
unfolding max_start_pos row_start
max_start_pos-Within [] longest = gives (omega arith, λ b. omega arith)
max_start_pos-Within (row ∷ rows) longest =
    Returning-require (not (is_neg row)) start_pos_row_negative λ _.
      Returning-weaken (max_start_pos-Within rows (max longest (pos_part row)))
        λ l h. (omega arith, row_start-Within row rows l (omega arith) h.1)

start_positions-Within :
    (d : NmcRuntimeGenerateDesc) (rows : List ℤ)
    → Returning (Within (pos_part d.start_pos)) (start_positions d rows)
unfolding start_positions
start_positions-Within d [] = gives λ b. omega arith
start_positions-Within d (row ∷ rows) =
    Returning-require (length (row ∷ rows) == pos_part d.launch.bs) start_pos_rows_not_batch λ _.
      Returning-bind (max_start_pos-Within (row ∷ rows) 0) λ longest h.
        Returning-require (longest == pos_part d.start_pos) start_pos_not_maximum
          λ e. gives λ b. (let near = h.1 b in ground arith)

positive : (z : ℤ) → not (is_nonpos z) ≡ true → 0 < pos_part z
positive (pos n) h = ground arith
positive (negsuc n) h = ground arith

check_inputs-positive :
    (d : NmcRuntimeGenerateDesc) → Returning (λ _. 0 < pos_part d.max_new) (check_inputs d)
unfolding check_inputs
check_inputs-positive d =
    Returning-require (not (is_nonpos d.max_new)) max_new_not_positive
      λ h. Returning-always _ λ _. positive d.max_new h

-- What the loop may use
pub record Accepted (d : NmcRuntimeGenerateDesc) (starts : ℕ → ℕ) : Type 0 where
  pub has_column : 0 < pos_part d.max_new
  pub within : Within (pos_part d.start_pos) starts
  pub covered : last_covers d.schedule_variants (required_context d) ≡ true

checks-Accepted : (d : NmcRuntimeGenerateDesc) → Returning (Accepted d) (checked_starts d)
unfolding checked_starts
checks-Accepted d = Returning-bind (check_inputs-positive d) λ _ room.
    Returning-bind (Returning-always (check_variants (pos 0) d.schedule_variants) λ _. tt) λ _ _.
      Returning-bind (start_positions-Within d d.start_pos_per_row) λ starts h.
        Returning-require (leb (required_context d) int32_max) horizon_exceeds_int32 λ _.
          Returning-require (last_covers d.schedule_variants (required_context d))
            horizon_not_covered
            λ c.
              Returning-require (zero_regions_ok d.zero_regions) zero_region_without_pointer
                λ _. gives (record { has_column = room; within = h; covered = c })

pub accepted :
    (d : NmcRuntimeGenerateDesc) (starts : ℕ → ℕ)
    → checked_starts d ≡ returned starts
    → Accepted d starts
accepted d starts e = what_it_gives (subst (Returning (Accepted d)) e (checks-Accepted d))
