-- ===== src/Runtime/Drain/Queue.antt =====
-- The queue that `nmc_build_attn_queue_words` of src/decode/runtime.cu emits.
use cohere_megakernel.Common.{
  ℕ, zero, suc, ◌+◌, ◌-◌, ◌*◌, ◌≡◌, ◌≤◌, ◌<◌, ◌%◌, refl, arith, Bool, true, ◌&&◌, leb, ltb, ◌==◌,
  List, [], ◌∷◌, ◌++◌, length, length-append, All, ==_iff, Bool-cases, inl, inr, subst,
}
use cohere_megakernel.Kv.Rows.Inv.{one_if}
use cohere_megakernel.Runtime.Failure.{returned}
use cohere_megakernel.Runtime.Drain.{
  AttnTask, emit_task, emit_splits, emit_heads, emit_rows, sum_below, qkv_wait_target,
  nmc_build_attn_queue_words,
}

-- The task is that of a row, a head and a split.
abbrev is_task : ℕ → ℕ → ℕ → AttnTask → Bool
is_task row kvh split t = (t.batch_idx == row) && ((t.kv_head_idx == kvh) && (t.split_idx == split))

-- How often the queue has the task of a row, a head and a split.
unfoldable pub occurrences : ℕ → ℕ → ℕ → List AttnTask → ℕ
occurrences row kvh split [] = 0
occurrences row kvh split (t ∷ q) = one_if (is_task row kvh split t) + occurrences row kvh split q

occurrences-append :
    (row kvh split : ℕ) (q r : List AttnTask)
    → occurrences row kvh split (q ++ r) ≡ occurrences row kvh split q + occurrences row kvh split r
unfolding occurrences
occurrences-append row kvh split [] r = omega arith
occurrences-append row kvh split (t ∷ q) r = omega (arith, occurrences-append row kvh split q r)

occurrences-snoc :
    (row kvh split : ℕ) (q : List AttnTask) (t : AttnTask)
    → occurrences row kvh split (q ++ t ∷ [])
      ≡ occurrences row kvh split q + one_if (is_task row kvh split t)
unfolding occurrences
occurrences-snoc row kvh split q t = omega (arith, occurrences-append row kvh split q (t ∷ []))

All-append : (P : AttnTask → Type 0) (q r : List AttnTask) → All P q → All P r → All P (q ++ r)
All-append P [] r h k = k
All-append P (t ∷ q) r h k = (h.0, All-append P q r h.1 k)

sum_mono : (f : ℕ → ℕ) (m n : ℕ) → m ≤ n → sum_below f m ≤ sum_below f n
unfolding sum_below
sum_mono f m zero h = let e : m ≡ 0 = omega arith in rw e (omega arith)
sum_mono f m (suc n) h = elim (Bool-cases (m == suc n)) [
  | inl e ↦ rw ((==_iff m (suc n)).0 e) (omega arith)
  | inr ne ↦ omega (arith, sum_mono f m n (ground arith))
]

mul_sub : (h a b c : ℕ) → a + b ≤ c → h * (c - a) ≡ h * b + h * (c - (a + b))
mul_sub h a b c l =
    let d : ℕ = c - (a + b) in let e : c - a ≡ b + d = omega arith in rw e (grind arith)

sub_self : (h a : ℕ) → h * (a - a) ≡ 0
sub_self h a = let e : a - a ≡ 0 = omega arith in rw e (omega arith)

sub_zero : (h a : ℕ) → h * (a - 0) ≡ h * a
sub_zero h a = let e : a - 0 ≡ a = omega arith in rw e

later_lem :
    (f : ℕ → ℕ) (h m n : ℕ)
    → m < n
    → h * (sum_below f n - sum_below f m) ≡ h * f m + h * (sum_below f n - sum_below f (suc m))
unfolding sum_below
later_lem f h m n l =
    mul_sub h (sum_below f m) (f m) (sum_below f n) (sum_mono f (suc m) n (omega arith))

module _ (capacity wait : ℕ) (splits : ℕ → ℕ) where
  -- The words that every task of its row shares.
  abbrev Fits : AttnTask → Type 0
  Fits t = (t.num_splits ≡ splits t.batch_idx) × (t.wait_target ≡ wait)

  -- `q'` is `q` with `n` tasks more, those that pass the test.
  record Extends (n : ℕ) (test : ℕ → ℕ → ℕ → Bool) (q q' : List AttnTask) : Type 0 where
    size : length q' ≡ length q + n
    counts :
        (row kvh split : ℕ)
        → occurrences row kvh split q' ≡ occurrences row kvh split q + one_if (test row kvh split)
    fits : All Fits q → All Fits q'

  emit_splits-Extends :
      (row kvh n : ℕ) (q : List AttnTask)
      → n ≤ splits row
      → length q + n ≤ capacity
      → (q' : List AttnTask) × (emit_splits capacity wait row kvh (splits row) n q ≡ returned q')
        × Extends n
            (λ r k s. (row == r) && ((kvh == k) && (leb (splits row - n) s && ltb s (splits row))))
            q
            q'
  unfolding emit_splits emit_task
  emit_splits-Extends row kvh zero q h c =
      (q, refl, record { size = omega arith; counts = λ r k s. ground arith; fits = λ a. a })
  emit_splits-Extends row kvh (suc n) q h c =
      let t : AttnTask = record {
        batch_idx = row;
        kv_head_idx = kvh;
        split_idx = splits row - suc n;
        num_splits = splits row;
        wait_target = wait;
      } in
      let grown = length-append q (t ∷ []) in
      let (q', e, more) =
        emit_splits-Extends row kvh n (q ++ t ∷ []) (omega arith) (omega (arith, grown)) in
      (
        q',
        ground (arith, e),
        record {
          size = omega (arith, grown, more.size);
          counts = λ r k s. ground (arith, more.counts r k s, occurrences-snoc r k s q t);
          fits = λ a. more.fits (All-append Fits q (t ∷ []) a ((refl, refl), tt));
        },
      )

  emit_heads-Extends :
      (row hkv n : ℕ) (q : List AttnTask)
      → n ≤ hkv
      → length q + n * splits row ≤ capacity
      → (q' : List AttnTask) × (emit_heads capacity wait row (splits row) hkv n q ≡ returned q')
        × Extends
            (n * splits row)
            (λ r k s. (row == r) && ((leb (hkv - n) k && ltb k hkv) && ltb s (splits row)))
            q
            q'
  unfolding emit_heads
  emit_heads-Extends row hkv zero q h c =
      (q, refl, record { size = omega arith; counts = λ r k s. ground arith; fits = λ a. a })
  emit_heads-Extends row hkv (suc n) q h c =
      let (q₁, e₁, m₁) =
        emit_splits-Extends row (hkv - suc n) (splits row) q (omega arith) (grind arith) in
      let (q₂, e₂, m₂) = emit_heads-Extends row hkv n q₁ (omega arith) (grind (arith, m₁.size)) in
      (
        q₂,
        ground (arith, e₁, e₂),
        record {
          size = grind (arith, m₁.size, m₂.size);
          counts = λ r k s. ground (arith, m₁.counts r k s, m₂.counts r k s);
          fits = λ a. m₂.fits (m₁.fits a);
        },
      )

  -- The tasks of the rows from `batch - n` on.
  abbrev later : ℕ → ℕ → ℕ → ℕ
  later hkv batch n = hkv * (sum_below splits batch - sum_below splits (batch - n))

  emit_rows-Extends :
      (hkv batch n : ℕ) (q : List AttnTask)
      → n ≤ batch
      → length q + later hkv batch n ≤ capacity
      → (q' : List AttnTask) × (emit_rows capacity wait splits hkv batch n q ≡ returned q')
        × Extends
            (later hkv batch n)
            (λ r k s. (leb (batch - n) r && ltb r batch) && (ltb k hkv && ltb s (splits r)))
            q
            q'
  unfolding emit_rows
  emit_rows-Extends hkv batch zero q h c =
      let none_later : length q ≡ length q + later hkv batch 0 =
        let e : batch - 0 ≡ batch = omega arith in
        rw e (omega (arith, sub_self hkv (sum_below splits batch))) in
      (q, refl, record { size = none_later; counts = λ r k s. ground arith; fits = λ a. a })
  emit_rows-Extends hkv batch (suc n) q h c =
      let row = batch - suc n in
      let step : later hkv batch (suc n) ≡ hkv * splits row + later hkv batch n =
        subst
          (λ m.
            later hkv batch (suc n)
            ≡ hkv * splits row + hkv * (sum_below splits batch - sum_below splits m))
          (omega arith) (later_lem splits hkv row batch (omega arith)) in
      let (q₁, e₁, m₁) = emit_heads-Extends row hkv hkv q (omega arith) (omega (arith, step)) in
      let (q₂, e₂, m₂) =
        emit_rows-Extends hkv batch n q₁ (omega arith) (omega (arith, step, m₁.size)) in
      (
        q₂,
        ground (arith, e₁, e₂),
        record {
          size = omega (arith, step, m₁.size, m₂.size);
          counts = λ r k s. ground (arith, m₁.counts r k s, m₂.counts r k s);
          fits = λ a. m₂.fits (m₁.fits a);
        },
      )

-- With room for all tasks and a head dimension that is a multiple of 64, the queue builder returns
-- a queue of one task for each row, head and split of the row, and of no other, whose tasks carry
-- their row's number of splits and the wait target; its length is the number of heads times the sum
-- of the splits.
pub nmc_build_attn_queue_words_lem :
    (splits : ℕ → ℕ) (batch hkv hq head_dim capacity : ℕ)
    → head_dim % 64 ≡ 0
    → hkv * sum_below splits batch ≤ capacity
    → (q : List AttnTask) × (nmc_build_attn_queue_words splits batch hkv hq head_dim capacity
        ≡ returned q)
      × (length q ≡ hkv * sum_below splits batch)
      × ((row kvh split : ℕ)
          → occurrences row kvh split q
            ≡ one_if (ltb row batch && (ltb kvh hkv && ltb split (splits row))))
      × All
          (λ t.
            (t.num_splits ≡ splits t.batch_idx) × (t.wait_target ≡ qkv_wait_target hq hkv head_dim))
          q
unfolding nmc_build_attn_queue_words sum_below occurrences
nmc_build_attn_queue_words_lem splits batch hkv hq head_dim capacity dim room =
    let wait = qkv_wait_target hq hkv head_dim in
    let multiple : (head_dim % 64 == 0) ≡ true = ground arith in
    let none_before : batch - batch ≡ 0 = omega arith in
    let all : later capacity wait splits hkv batch batch ≡ hkv * sum_below splits batch =
      rw none_before (sub_zero hkv (sum_below splits batch)) in
    let (q, e, more) =
      emit_rows-Extends capacity wait splits hkv batch batch [] (omega arith)
        (omega (arith, all)) in
    (
      q,
      rw (multiple, e),
      omega (arith, all, more.size),
      λ row kvh split. ground (arith, more.counts row kvh split),
      more.fits tt,
    )
