-- ===== src/Kv/Rebind/Parts.antt =====
-- The checks of `KvHandle::rebind` in src/kv/cache.cpp, its sizes, and its copies to the device.
use native.Mathlib.Nat.{le-div_iff_mul-le}
use cohere_megakernel.Common.{
  ℕ, zero, suc, List, [], ◌∷◌, ◌+◌, ◌*◌, ◌/◌, ◌<◌, ◌≤◌, ◌≡◌, ◌∙◌, refl, subst, sym, ap, arith, Bool,
  true, false, ◌&&◌, ◌||◌, not, ltb, ◌==◌, ==_iff, Bool-cases, inl, inr, if◌then◌else◌,
}
use cohere_megakernel.Common.Int.{ℤ, pos, negsuc, pos_part, minus_one, is_neg, below, int_lt}
use cohere_megakernel.Kv.Global.{cuda_failure}
use cohere_megakernel.Kv.State.{Geometry, State}
use cohere_megakernel.Kv.Store.{
  Store, Outcome, ok, throws, M, ◌>>=◌, and_then, cuda_call, kv_flush_page_table,
  kv_flush_cache_seqlens, kv_flush_row_active,
}
use cohere_megakernel.Kv.Store.Ensures.{Ensures, returns, raises, bind, mono, weaken_error}
use cohere_megakernel.Kv.Rows.Inv.{Inv, Inv-frame}
use cohere_megakernel.Kv.Decode.{Array}
use cohere_megakernel.Kv.Create.{checked_product, checked_page_table_elems, size_max}
use cohere_megakernel.Kv.Rebind.{check_sources, seen}

fits_product : (a b : ℕ) → a * b ≤ size_max → (not (b == 0) && ltb (size_max / b) a) ≡ false
fits_product a b h = elim (Bool-cases (b == 0)) [
  | inl z ↦ ground (arith, z)
  | inr nz ↦
      let below_ : a ≤ size_max / b =
        (le-div_iff_mul-le {k = b} {x = a} {y = size_max} (ground (arith, nz))).1 h in
      ground (arith, below_)
]

pub checked_product-returns :
    (a b : ℕ) (s : Store) → a * b ≤ size_max → checked_product a b s ≡ ok (a * b) s
unfolding checked_product
checked_product-returns a b s h = rw (fits_product a b h) refl

pub checked_page_table_elems-returns :
    (l b m : ℕ) (s : Store)
    → l * b ≤ size_max
    → l * b * m ≤ size_max / 4
    → checked_page_table_elems l b m s ≡ ok (l * b * m) s
unfolding checked_page_table_elems
checked_page_table_elems-returns l b m s h h' =
    let all : l * b * m ≤ size_max = omega arith in
    let small : ltb (size_max / 4) (l * b * m) ≡ false = ground (arith, h') in
    rw (checked_product-returns l b s h)
      (rw (checked_product-returns (l * b) m s all) (rw small refl))

-- The state of the handle and the shared state are as they were.
abbrev pub Same : Store → Store → Type 0
Same s t = (t.global ≡ s.global) × (t.kv ≡ s.kv)

abbrev pub KeepsSame : {A : Type 0} → M A → Type 0
KeepsSame m = (s : Store) → Ensures (λ _ t. Same s t) (λ _ t. Same s t) (m s)

pub cuda_call-Same : KeepsSame cuda_call
unfolding cuda_call
cuda_call-Same s =
    elim s.cuda_results
      as (λ r.
        Ensures (λ _ t. Same s t) (λ _ t. Same s t)
          (elim r [
            | [] ↦ ok tt s
            | c ∷ rest ↦
                let s' = record s { cuda_results = rest } in
                if c then ok tt s' else throws cuda_failure s'
          ])) [
            | [] ↦ returns (refl, refl)
            | true ∷ rest ↦ returns (refl, refl)
            | false ∷ rest ↦ raises (refl, refl)
          ]

flush-Same :
    (f : Store → Store)
    → ((s : Store) → Same s (f s))
    → KeepsSame (cuda_call >>= λ _ s. ok tt (f s))
flush-Same f same s =
    bind (cuda_call-Same s) λ _ t (pool, kv). returns ((same t).0 ∙ pool, (same t).1 ∙ kv)

maybe-Same :
    (b : Bool) (m : M (Unit {0})) → KeepsSame m → KeepsSame (if b then (λ s. ok tt s) else m)
maybe-Same true m h s = returns (refl, refl)
maybe-Same false m h s = h s

pub then-Same : (m k : M (Unit {0})) → KeepsSame m → KeepsSame k → KeepsSame (m >>= λ _. k)
then-Same m k first next s = elim_same (m s) (first s)
  where
    elim_same :
        (r : Outcome (Unit {0}))
        → Ensures (λ _ t. Same s t) (λ _ t. Same s t) r
        → Ensures (λ _ t. Same s t) (λ _ t. Same s t) (and_then r (λ _. k))
    elim_same _ (returns {s = t} (pool, kv)) =
        weaken_error (mono (next t) λ _ u (pool', kv'). (pool' ∙ pool, kv' ∙ kv))
          λ _ u (pool', kv'). (pool' ∙ pool, kv' ∙ kv)
    elim_same _ (raises same) = raises same

pub page_table-Same : KeepsSame kv_flush_page_table
unfolding kv_flush_page_table
page_table-Same = flush-Same _ (λ s. (refl, refl))

pub seqlens-Same : (g : Geometry) → KeepsSame (kv_flush_cache_seqlens g)
unfolding kv_flush_cache_seqlens
seqlens-Same g = maybe-Same (g.cache_seqlens == 0) _ (flush-Same _ (λ s. (refl, refl)))

pub row_active-Same : (g : Geometry) → KeepsSame (kv_flush_row_active g)
unfolding kv_flush_row_active
row_active-Same g = maybe-Same (g.row_active == 0) _ (flush-Same _ (λ s. (refl, refl)))

pub Same-Inv :
    (n : ℕ) (others : ℕ → ℕ) (g : Geometry) (s t : Store)
    → Same s t
    → Inv n others g s
    → Inv n others g t
Same-Inv n others g s t (pool, kv) inv =
    Inv-frame n others g s t pool (ap (λ (x : State). x.page_table_host) kv) (rw kv inv.shaped) inv

-- A row of a source that exists
abbrev pub IsSource : Geometry → ℤ → Type 0
IsSource g z = is_neg z ≡ false → pos_part z < g.bs

pub check_sources-Ensures :
    (g : Geometry) (src_rows : Array) (n d : ℕ) (rows : List ℕ) (s : Store)
    → Ensures
        (λ _ t. (t ≡ s) × ((j : ℕ) → d ≤ j → j < d + n → IsSource g (src_rows j)))
        (λ _ t. t ≡ s)
        (check_sources g src_rows n d rows s)
unfolding check_sources
check_sources-Ensures g src_rows zero d rows s = returns (refl, λ j lo hi. absurd (omega arith))
check_sources-Ensures g src_rows (suc n) d rows s =
    elim (Bool-cases (not (int_lt (src_rows d) minus_one) && below (src_rows d) g.bs)) [
      | inr bad ↦ rw bad (raises refl)
      | inl good ↦
          rw good
            (elim (Bool-cases (is_neg (src_rows d) || not (seen (pos_part (src_rows d)) rows))) [
              | inr bad ↦ rw bad (raises refl)
              | inl fine ↦ rw fine (
                  mono
                    (check_sources-Ensures g src_rows n (suc d)
                      (if is_neg (src_rows d) then rows else pos_part (src_rows d) ∷ rows) s)
                    λ _ t (same, rest). (
                      same,
                      λ j lo hi. elim (Bool-cases (j == d)) [
                        | inl e ↦
                            subst (λ i. IsSource g (src_rows i)) (sym ((==_iff j d).0 e))
                              (in_range (src_rows d) good)
                        | inr ne ↦ rest j (ground (arith, ne)) (omega arith)
                      ],
                    ))
            ])
    ]
  where
    in_range : (z : ℤ) → (not (int_lt z minus_one) && below z g.bs) ≡ true → IsSource g z
    in_range (pos i) h source = ground arith
    in_range (negsuc i) h source = cc
