-- ===== src/Runtime/Generate/Tested.antt =====
-- The active rows and the tests of a step of `runtime_generate` in src/decode/runtime.cu.
use cohere_megakernel.Common.{
  ℕ, zero, suc, ◌<◌, ◌≡◌, inl, inr, refl, sym, ap, ◌∙◌, arith, Bool, Bool-cases, true, false, List,
  ◌==◌, if◌then◌else◌,
}
use mathlib.Core.Bool.{false≢true}
use cohere_megakernel.Common.Int.{ℤ}
use cohere_megakernel.Runtime.Step.{any_active}
use cohere_megakernel.Runtime.Generate.{Decoded, eos_stop, all_stop}

-- An active row among the first `n`
pub some_active : (n : ℕ) (f : ℕ → Bool) → any_active n f ≡ true → (b : ℕ) × (b < n) × (f b ≡ true)
unfolding any_active
some_active zero f h = absurd (false≢true h)
some_active (suc n) f h = elim (Bool-cases (f n)) [
  | inl here ↦ (n, omega arith, here)
  | inr off ↦ let rest = some_active n f (rw off at h) in (rest.0, omega arith, rest.2)
]

pub none_active : (n : ℕ) (f : ℕ → Bool) → any_active n f ≡ false → (b : ℕ) → b < n → f b ≡ false
unfolding any_active
none_active zero f h b l = absurd (omega arith)
none_active (suc n) f h b l = elim (Bool-cases (f n)) [
  | inl here ↦ absurd (false≢true (sym h ∙ rw here refl))
  | inr off ↦
      let rest = none_active n f (rw off at h) b in
      elim (Bool-cases (b == n)) [
        | inl same ↦ (let e : b ≡ n = ground arith in ap f e ∙ off)
        | inr other ↦ rest (ground arith)
      ]
]

-- A step's tests of its tokens and of its length keep the rest.
abbrev pub tested : Bool → Bool → List ℤ → (ℕ → ℤ) → Decoded → Decoded
tested looks full ids tokens s =
    let told = if looks then eos_stop ids tokens s else s in if full then all_stop told else told

pub tested-keeps :
    (looks full : Bool) (ids : List ℤ) (tokens : ℕ → ℤ) (s : Decoded)
    → ((tested looks full ids tokens s).executed ≡ s.executed)
      × ((tested looks full ids tokens s).schedule ≡ s.schedule)
      × ((b : ℕ) → (tested looks full ids tokens s).gen_len b ≡ s.gen_len b)
unfolding eos_stop all_stop
tested-keeps false false ids tokens s = (refl, refl, λ b. refl)
tested-keeps false true ids tokens s = (refl, refl, λ b. refl)
tested-keeps true false ids tokens s = (refl, refl, λ b. refl)
tested-keeps true true ids tokens s = (refl, refl, λ b. refl)
