-- ===== src/Runtime/Generate/Run.antt =====
-- A whole run of `runtime_generate` in src/decode/runtime.cu, where the calls of the cache and of CUDA
-- succeed.
use cohere_megakernel.Common.{ℕ, ◌-◌, ◌≡◌, refl, ap, ◌∙◌, arith, Bool, true}
use cohere_megakernel.Common.Int.{pos_part}
use cohere_megakernel.Runtime.Failure.{
  RuntimeError, stream_failure, Result, returned, ◌>>=◌, ◌>>◌, require,
}
use cohere_megakernel.Runtime.Generate.{
  NmcRuntimeGenerateDesc, World, Decoded, checked_starts, generate_steps, runtime_generate, seeded,
}
use cohere_megakernel.Runtime.Generate.Checks.{accepted}
use cohere_megakernel.Runtime.Generate.Steps.{Smooth, Done, seeded-Loop, steps-Done}

require_passes :
    {A : Type 0} (c : Bool) (e : RuntimeError) (k : Result A) → c ≡ true → (require c e >> k) ≡ k
require_passes c e k h = rw h refl

returns_run :
    (d : NmcRuntimeGenerateDesc) (w : World) (starts : ℕ → ℕ) (r : Decoded)
    → checked_starts d ≡ returned starts
    → Smooth w
    → generate_steps d w starts (pos_part d.max_new - 1) 0 (seeded d w) ≡ returned r
    → runtime_generate d w ≡ returned r
unfolding runtime_generate
returns_run d w starts r e smooth steps =
    ap
      (λ m. m >>= λ starts.
        require w.setup_ok stream_failure
        >> (generate_steps d w starts (pos_part d.max_new - 1) 0 (seeded d w) >>= λ s.
            require w.report_ok stream_failure >> returned s))
      e
    ∙ require_passes w.setup_ok stream_failure _ smooth.setup
    ∙ ap (λ m. m >>= λ s. require w.report_ok stream_failure >> returned s) steps
    ∙ require_passes w.report_ok stream_failure _ smooth.report

-- Where the checks of a descriptor pass, every call of the cache and of CUDA succeeds and the callback
-- never asks to end the run, the run returns, so that no context is without a schedule bucket. It then
-- reports for each row of the batch the length and the finish reason that the row's tokens alone
-- determine: a row that is masked out has its seed token and is unfinished, any other row ends with its
-- first stop token or, without one, at `max_new` tokens. No row has more tokens than one plus the number
-- of steps, and where there was a step, some row has that many.
pub runtime_generate_lem :
    (d : NmcRuntimeGenerateDesc) (w : World) (starts : ℕ → ℕ)
    → checked_starts d ≡ returned starts
    → Smooth w
    → (r : Decoded) × (runtime_generate d w ≡ returned r) × Done d w starts r
unfolding runtime_generate
runtime_generate_lem d w starts e smooth =
    let a = accepted d starts e in
    let columns = a.has_column in
    let run =
      steps-Done d w starts (pos_part d.max_new - 1) 0 (seeded d w) a smooth
        (seeded-Loop d w starts a) (omega arith) in
    (run.0, returns_run d w starts run.0 e smooth run.1, run.2)
