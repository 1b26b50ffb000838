-- ===== src/Runtime/Refresh/Splits.antt =====
-- Splits of the rows that agree give equal queues, src/decode/runtime.cu.
use cohere_megakernel.Common.{
  ℕ, zero, suc, ◌-◌, ◌*◌, ◌≤◌, ◌<◌, ◌≡◌, inl, inr, refl, ap, arith, true, List, [], ◌==◌, ==_iff,
  Bool-cases, fun_ext,
}
use cohere_megakernel.Common.Int.{ℤ, pos_part, pos, int_eq_iff}
use cohere_megakernel.Runtime.Failure.{Result, returned, ◌>>=◌}
use cohere_megakernel.Runtime.Drain.{
  AttnTask, emit_heads, emit_rows, sum_below, nmc_build_attn_queue_words,
}
use cohere_megakernel.Runtime.Refresh.{same_splits}

-- Equal splits of the rows give equal queues.
emit_rows-ext :
    (capacity wait : ℕ) (f f' : ℕ → ℕ) (hkv batch n : ℕ) (q : List AttnTask)
    → ((b : ℕ) → b < batch → f b ≡ f' b)
    → n ≤ batch
    → emit_rows capacity wait f hkv batch n q ≡ emit_rows capacity wait f' hkv batch n q
unfolding emit_rows
emit_rows-ext capacity wait f f' hkv batch zero q same h = refl
emit_rows-ext capacity wait f f' hkv batch (suc n) q same h =
    rw (same (batch - suc n) (omega arith)) (
      ap
        (λ (k : List AttnTask → Result (List AttnTask)).
          ◌>>=◌ (emit_heads capacity wait (batch - suc n) (f' (batch - suc n)) hkv hkv q) k)
        (fun_ext λ r. emit_rows-ext capacity wait f f' hkv batch n r same (omega arith)))

pub build-ext :
    (f f' : ℕ → ℕ) (batch hkv hq head_dim capacity : ℕ)
    → ((b : ℕ) → b < batch → f b ≡ f' b)
    → nmc_build_attn_queue_words f batch hkv hq head_dim capacity
      ≡ nmc_build_attn_queue_words f' batch hkv hq head_dim capacity
unfolding nmc_build_attn_queue_words
build-ext f f' batch hkv hq head_dim capacity same =
    rw (emit_rows-ext capacity _ f f' hkv batch batch [] same (omega arith))

pub pos_injective : (m n : ℕ) → pos m ≡ pos n → m ≡ n
pos_injective m n e = ap pos_part e

pub returned_injective : (q r : List AttnTask) → returned q ≡ returned r → q ≡ r
returned_injective q r e = cc

pub same_splits_lem :
    (n : ℕ) (f : ℕ → ℕ) (cache : ℕ → ℤ)
    → same_splits n f cache ≡ true
    → (b : ℕ) → b < n
    → cache b ≡ pos (f b)
unfolding same_splits
same_splits_lem zero f cache e b l = absurd (omega arith)
same_splits_lem (suc n) f cache e b l = elim (Bool-cases (b == n)) [
  | inl same ↦ rw ((==_iff b n).0 same) ((int_eq_iff (cache n) (pos (f n))).0 (ground arith))
  | inr other ↦ same_splits_lem n f cache (ground arith) b (ground arith)
]

pub sum_bound : (f : ℕ → ℕ) (top n : ℕ) → ((b : ℕ) → f b ≤ top) → sum_below f n ≤ n * top
unfolding sum_below
sum_bound f top zero h = omega arith
sum_bound f top (suc n) h = grind (arith, sum_bound f top n h, h n)

mul_mono : (h a b : ℕ) → a ≤ b → h * a ≤ h * b
mul_mono h a b l = grind arith

pub room : (hkv sum batch top : ℕ) → sum ≤ batch * top → hkv * sum ≤ batch * hkv * top
room hkv sum batch top h =
    let e : batch * hkv * top ≡ hkv * (batch * top) = grind arith in
    rw e (mul_mono hkv sum (batch * top) h)
