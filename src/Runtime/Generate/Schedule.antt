-- ===== src/Runtime/Generate/Schedule.antt =====
-- The walk along the schedule variants of `runtime_generate` in src/decode/runtime.cu: where the last
-- variant covers the whole run, no context of the run is without a bucket.
use cohere_megakernel.Common.{
  ℕ, zero, suc, ◌+◌, ◌≤◌, ◌≡◌, refl, arith, Bool-cases, inl, inr, true, false, not, List, [], ◌∷◌,
}
use cohere_megakernel.Common.Int.{ℤ, pos, negsuc, int_lt}
use cohere_megakernel.Runtime.Failure.{returned}
use cohere_megakernel.Runtime.Service.{NmcRuntimeScheduleVariant}
use cohere_megakernel.Runtime.Generate.{
  Decoded, last_covers, advance_variants, choose_variant, require_bucket, longest_context,
}

bucket_reaches :
    (bucket : ℤ) (context required : ℕ)
    → context ≤ required
    → not (int_lt bucket (pos required)) ≡ true
    → int_lt bucket (pos context) ≡ false
bucket_reaches (pos n) context required le h = ground arith
bucket_reaches (negsuc n) context required le h = ground arith

-- Where the walk along `v ∷ vs` ends
record Reached (v : NmcRuntimeScheduleVariant) (vs : List NmcRuntimeScheduleVariant)
    (context required : ℕ) : Type 0 where
  chosen : NmcRuntimeScheduleVariant
  rest : List NmcRuntimeScheduleVariant
  found : advance_variants v vs context ≡ chosen ∷ rest
  reaches : int_lt chosen.bucket_upper (pos context) ≡ false
  still_covers : last_covers (chosen ∷ rest) required ≡ true

advance_variants-Reached :
    (v : NmcRuntimeScheduleVariant) (vs : List NmcRuntimeScheduleVariant) (context required : ℕ)
    → context ≤ required
    → last_covers (v ∷ vs) required ≡ true
    → Reached v vs context required
unfolding advance_variants last_covers
advance_variants-Reached v [] context required le h = record {
  chosen = v;
  rest = [];
  found = refl;
  reaches = bucket_reaches v.bucket_upper context required le h;
  still_covers = h;
}
advance_variants-Reached v (u ∷ us) context required le h =
    elim (Bool-cases (int_lt v.bucket_upper (pos context))) [
      | inl short ↦
          let next = advance_variants-Reached u us context required le h in
          record {
            chosen = next.chosen;
            rest = next.rest;
            found = rw short next.found;
            reaches = next.reaches;
            still_covers = next.still_covers;
          }
      | inr reaches ↦ record {
        chosen = v;
        rest = u ∷ us;
        found = rw reaches refl;
        reaches = reaches;
        still_covers = h;
      }
    ]

pub choose_variant-covers :
    (vs : List NmcRuntimeScheduleVariant) (context required : ℕ)
    → context ≤ required
    → last_covers vs required ≡ true
    → (left : List NmcRuntimeScheduleVariant) × (choose_variant vs context ≡ returned left)
      × (last_covers left required ≡ true)
unfolding choose_variant require_bucket
choose_variant-covers [] context required le h = ([], refl, h)
choose_variant-covers (v ∷ vs) context required le h =
    let r = advance_variants-Reached v vs context required le h in
    (r.chosen ∷ r.rest, rw (r.found, r.reaches) refl, r.still_covers)

-- The longest context of a step stays within the run's.
pub longest_context-le :
    (s : Decoded) (starts : ℕ → ℕ) (step limit n : ℕ)
    → ((b : ℕ) → starts b + step + 1 ≤ limit)
    → longest_context s starts step n ≤ limit
unfolding longest_context
longest_context-le s starts step limit zero h = omega arith
longest_context-le s starts step limit (suc n) h =
    let rest = longest_context-le s starts step limit n h in
    let here = h n in
    elim (Bool-cases (s.row_active n)) [
      | inl active ↦ rw active (omega arith)
      | inr idle ↦ rw idle rest
    ]
