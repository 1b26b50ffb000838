-- ===== src/Runtime/Step/Bucket.antt =====
-- Which schedule variant a decode step of src/decode/runtime.cu takes.
use cohere_megakernel.Common.{
  ℕ, ◌≡◌, refl, arith, true, false, Option, none, some, List, [], ◌∷◌, All, Bool-cases, inl, inr,
  ◌⊎◌, ap, sym, if◌then◌else◌,
}
use cohere_megakernel.Common.Int.{ℤ, pos, negsuc, int_lt}
use cohere_megakernel.Runtime.Failure.{Result, returned, thrown, no_bucket_for_context}
use cohere_megakernel.Runtime.Service.{NmcRuntimeScheduleVariant, variants_ascend}
use cohere_megakernel.Runtime.Step.{walk_variants, select_variant}

-- The variant's bucket holds the context.
abbrev pub Covers : ℕ → NmcRuntimeScheduleVariant → Type 0
Covers context v = int_lt v.bucket_upper (pos context) ≡ false

-- The first variant that covers the context.
unfoldable pub first_covering :
    List NmcRuntimeScheduleVariant → ℕ → Option NmcRuntimeScheduleVariant
first_covering [] context = none
first_covering (v ∷ vs) context =
    if int_lt v.bucket_upper (pos context) then first_covering vs context else some v

abbrev pub found_or_thrown :
    Option NmcRuntimeScheduleVariant → Result (Option NmcRuntimeScheduleVariant)
found_or_thrown none = thrown no_bucket_for_context
found_or_thrown (some v) = returned (some v)

some_injective : (v w : NmcRuntimeScheduleVariant) → some v ≡ some w → v ≡ w
some_injective v w e = cc

walk-first :
    (v : NmcRuntimeScheduleVariant) (vs : List NmcRuntimeScheduleVariant) (context : ℕ)
    → select_variant (v ∷ vs) context ≡ found_or_thrown (first_covering (v ∷ vs) context)
unfolding select_variant walk_variants first_covering
walk-first v [] context = ground arith
walk-first v (w ∷ ws) context = ground (arith, walk-first w ws context)

int_lt_trans : (x y z : ℤ) → int_lt x y ≡ true → int_lt y z ≡ true → int_lt x z ≡ true
int_lt_trans (pos a) (pos b) (pos c) h k = ground arith
int_lt_trans (pos a) (pos b) (negsuc c) h k = ground arith
int_lt_trans (pos a) (negsuc b) z h k = cc
int_lt_trans (negsuc a) (pos b) (pos c) h k = ground arith
int_lt_trans (negsuc a) (pos b) (negsuc c) h k = cc
int_lt_trans (negsuc a) (negsuc b) (pos c) h k = ground arith
int_lt_trans (negsuc a) (negsuc b) (negsuc c) h k = ground arith

int_lt_asym : (x y : ℤ) → int_lt x y ≡ true → int_lt y x ≡ false
int_lt_asym (pos a) (pos b) h = ground arith
int_lt_asym (pos a) (negsuc b) h = cc
int_lt_asym (negsuc a) (pos b) h = refl
int_lt_asym (negsuc a) (negsuc b) h = ground arith

int_lt_irrefl : (x : ℤ) → int_lt x x ≡ false
int_lt_irrefl (pos a) = ground arith
int_lt_irrefl (negsuc a) = ground arith

-- `v` is no later in the order of buckets than any variant that covers the context.
abbrev pub IsLeast : ℕ → NmcRuntimeScheduleVariant → List NmcRuntimeScheduleVariant → Type 0
IsLeast context v = All (λ w. Covers context w → int_lt w.bucket_upper v.bucket_upper ≡ false)

variants_ascend-head :
    (prev : ℤ) (v : NmcRuntimeScheduleVariant) (vs : List NmcRuntimeScheduleVariant)
    → variants_ascend prev (v ∷ vs) ≡ true
    → (int_lt prev v.bucket_upper ≡ true) × (variants_ascend v.bucket_upper vs ≡ true)
unfolding variants_ascend
variants_ascend-head prev v vs h = (ground arith, ground arith)

above :
    (x prev : ℤ) (context : ℕ) (v : NmcRuntimeScheduleVariant) (vs : List NmcRuntimeScheduleVariant)
    → v.bucket_upper ≡ x
    → (x ≡ prev) ⊎ (int_lt x prev ≡ true)
    → variants_ascend prev vs ≡ true
    → IsLeast context v vs
above x prev context v [] e h a = tt
above x prev context v (w ∷ ws) e h a =
    let (next, rest) = variants_ascend-head prev w ws a in
    let more : int_lt x w.bucket_upper ≡ true = elim h [
      | inl same ↦ rw same next
      | inr less ↦ int_lt_trans x prev w.bucket_upper less next
    ] in
    (
      λ _. rw e (int_lt_asym x w.bucket_upper more),
      above x w.bucket_upper context v ws e (inr more) rest,
    )

least :
    (prev : ℤ) (vs : List NmcRuntimeScheduleVariant) (context : ℕ) (v : NmcRuntimeScheduleVariant)
    → variants_ascend prev vs ≡ true
    → first_covering vs context ≡ some v
    → IsLeast context v vs
unfolding first_covering
least prev [] context v a h = tt
least prev (w ∷ ws) context v a h =
    let (next, rest) = variants_ascend-head prev w ws a in
    elim (Bool-cases (int_lt w.bucket_upper (pos context))) [
      | inl small ↦ (
        λ covers. ground (arith, small, covers),
        least w.bucket_upper ws context v rest (rw small at h),
      )
      | inr covers ↦
          let e : w ≡ v = some_injective w v (rw covers at h) in
          (
            λ _. rw e (int_lt_irrefl v.bucket_upper),
            above w.bucket_upper w.bucket_upper context v ws
                (ap (λ (u : NmcRuntimeScheduleVariant). u.bucket_upper) (sym e)) (inl refl) rest,
          )
    ]

covered :
    (vs : List NmcRuntimeScheduleVariant) (context : ℕ) (v : NmcRuntimeScheduleVariant)
    → first_covering vs context ≡ some v
    → Covers context v
unfolding first_covering
covered [] context v h = cc
covered (w ∷ ws) context v h = elim (Bool-cases (int_lt w.bucket_upper (pos context))) [
  | inl small ↦ covered ws context v (rw small at h)
  | inr covers ↦ rw (← some_injective w v (rw covers at h)) covers
]

-- With variants the walk over the buckets throws exactly where no variant covers the context, and
-- otherwise returns the first one that does, which of a service's ascending variants is the one with
-- the least bucket that covers it.
pub select_variant_lem :
    (v : NmcRuntimeScheduleVariant) (vs : List NmcRuntimeScheduleVariant) (context : ℕ)
    → variants_ascend (pos 0) (v ∷ vs) ≡ true
    → (select_variant (v ∷ vs) context ≡ found_or_thrown (first_covering (v ∷ vs) context))
      × ((w : NmcRuntimeScheduleVariant)
          → first_covering (v ∷ vs) context ≡ some w
          → Covers context w × IsLeast context w (v ∷ vs))
select_variant_lem v vs context ascend = (
  walk-first v vs context,
  λ w h. (covered (v ∷ vs) context w h, least (pos 0) (v ∷ vs) context w ascend h),
)
