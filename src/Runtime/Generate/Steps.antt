-- ===== src/Runtime/Generate/Steps.antt =====
-- The loop of `runtime_generate` in src/decode/runtime.cu, where the calls of the cache and of CUDA succeed:
-- each step leads to the next, and what the run reports when it ends.
use cohere_megakernel.Common.{
  ℕ, zero, suc, ◌+◌, ◌-◌, ◌≤◌, ◌<◌, ◌≡◌, ◌⊎◌, inl, inr, refl, ap, subst, ◌∙◌, arith, Bool-cases,
  true, false, ◌&&◌, ◌||◌, not, List, leb, ◌==◌,
}
use mathlib.Core.Bool.{or-true, and-false}
use cohere_megakernel.Common.Int.{pos_part}
use cohere_megakernel.Runtime.Failure.{returned}
use cohere_megakernel.Runtime.Service.{NmcRuntimeScheduleVariant}
use cohere_megakernel.Runtime.Step.{any_active}
use cohere_megakernel.Runtime.Generate.{
  NmcRuntimeGenerateDesc, World, Decoded, last_covers, longest_context, required_context,
  generate_step, generate_steps, seeded, grown, eos_stop, all_stop, host_tokens, nonzero, fresh,
  is_empty,
}
use cohere_megakernel.Runtime.Generate.Checks.{Accepted}
use cohere_megakernel.Runtime.Generate.Rows.{
  Rows, Row, expected, told-Rows, stopped-Rows, seeded-Rows,
}
use cohere_megakernel.Runtime.Generate.Schedule.{choose_variant-covers, longest_context-le}
use cohere_megakernel.Runtime.Generate.Tested.{some_active, none_active, tested, tested-keeps}

-- No call fails, and the callback never asks to end the run.
pub record Smooth (w : World) : Type 0 where
  pub kv : (step : ℕ) → w.kv_ok step ≡ true
  pub launch : (step : ℕ) → w.launch_ok step ≡ true
  pub tokens : (step : ℕ) → w.tokens_ok step ≡ true
  pub callback : (step : ℕ) → w.callback_ok step ≡ true
  pub setup : w.setup_ok ≡ true
  pub report : w.report_ok ≡ true

module _ (d : NmcRuntimeGenerateDesc) (w : World) (starts : ℕ → ℕ) where
  abbrev pub batch : ℕ
  batch = pos_part d.launch.bs

  -- In front of step `step`
  pub record Loop (step : ℕ) (s : Decoded) : Type 0 where
    rows : Rows d w (suc step) s
    idle : pos_part d.max_new ≤ suc step → (b : ℕ) → s.row_active b ≡ false
    steps : s.executed ≡ step
    covered : last_covers s.schedule (required_context d) ≡ true
    reached : (step ≡ 0) ⊎ ((b : ℕ) × (b < batch) × (s.gen_len b ≡ suc step))

  -- What a run reports
  pub record Done (r : Decoded) : Type 0 where
    pub rows : (b : ℕ) → b < batch → expected d w b ≡ (r.gen_len b, r.finish b)
    pub enough : (b : ℕ) → b < batch → r.gen_len b ≤ r.executed + 1
    pub needed : (r.executed ≡ 0) ⊎ ((b : ℕ) × (b < batch) × (r.gen_len b ≡ r.executed + 1))

  ended :
      (k : ℕ) (s : Decoded) (b : ℕ)
      → Rows d w k s
      → s.row_active b ≡ false
      → (expected d w b ≡ (s.gen_len b, s.finish b)) × (s.gen_len b ≤ k)
  unfolding Row
  ended k s b h idle = subst (λ a. Row d w k a (s.gen_len b) (s.finish b) b) idle (h b)

  idle-Done :
      (step : ℕ) (s : Decoded)
      → Loop step s
      → ((b : ℕ) → b < batch → s.row_active b ≡ false)
      → Done s
  idle-Done step s h idle = record {
    rows = λ b l. (ended (suc step) s b h.rows (idle b l)).0;
    enough = λ b l.
        (let le = (ended (suc step) s b h.rows (idle b l)).1 in let n = h.steps in omega arith);
    needed = elim h.reached [
      | inl start ↦ inl (h.steps ∙ start)
      | inr far ↦ (let n = h.steps in inr (far.0, far.1, far.2 ∙ omega arith))
    ];
  }

  abbrev after : ℕ → Decoded → List NmcRuntimeScheduleVariant → Decoded
  after step s schedule =
      tested (host_tokens d) (leb (pos_part d.max_new) (step + 2)) d.eos_token_ids (w.sampled step)
        (grown step (record s { executed = s.executed + 1; schedule = schedule }))

  after-Rows :
      (step : ℕ) (s : Decoded)
      → suc step < pos_part d.max_new
      → Rows d w (suc step) s
      → Rows d w (suc (suc step)) (
          tested
            (host_tokens d)
            (leb (pos_part d.max_new) (step + 2))
            d.eos_token_ids
            (w.sampled step)
            (grown step s))
  after-Rows step s room h =
      let told = told-Rows d w step s room h in
      elim (Bool-cases (leb (pos_part d.max_new) (step + 2))) [
        | inl full ↦ rw full (stopped-Rows d w (suc (suc step)) _ (ground arith) told)
        | inr more ↦ rw more told
      ]

  after_idle :
      (step : ℕ) (s : Decoded)
      → pos_part d.max_new ≤ suc (suc step)
      → (b : ℕ)
      → (tested
            (host_tokens d)
            (leb (pos_part d.max_new) (step + 2))
            d.eos_token_ids
            (w.sampled step)
            (grown step s)).row_active
          b
        ≡ false
  unfolding all_stop
  after_idle step s all b =
      let full : leb (pos_part d.max_new) (step + 2) ≡ true = ground arith in rw full refl

  after-Loop :
      (step : ℕ) (s : Decoded) (schedule : List NmcRuntimeScheduleVariant)
      → Loop step s
      → suc step < pos_part d.max_new
      → any_active batch s.row_active ≡ true
      → last_covers schedule (required_context d) ≡ true
      → Loop (suc step) (after step s schedule)
  unfolding grown
  after-Loop step s schedule h room some covers =
      let full = leb (pos_part d.max_new) (step + 2) in
      let launched : Decoded = record s { executed = s.executed + 1; schedule = schedule } in
      let keeps =
        tested-keeps (host_tokens d) full d.eos_token_ids (w.sampled step) (grown step launched) in
      let far = some_active batch s.row_active some in
      let n = h.steps in
      record {
        rows = after-Rows step launched room h.rows;
        idle = after_idle step launched;
        steps = keeps.0 ∙ omega arith;
        covered = ap (λ vs. last_covers vs (required_context d)) keeps.1 ∙ covers;
        reached = inr (far.0, far.1, keeps.2 far.0 ∙ rw far.2 (omega arith));
      }

  fits :
      (step b : ℕ)
      → Accepted d starts
      → suc step < pos_part d.max_new
      → starts b + step + 1 ≤ required_context d
  unfolding required_context
  fits step b a room = let near = a.within b in omega arith

  step-Loop :
      (step : ℕ) (s : Decoded)
      → Accepted d starts
      → Smooth w
      → Loop step s
      → suc step < pos_part d.max_new
      → any_active batch s.row_active ≡ true
      → (t : Decoded) × (generate_step d w starts step s ≡ returned (false, t)) × Loop (suc step) t
  unfolding generate_step
  step-Loop step s a smooth h room some =
      let near : (b : ℕ) → starts b + step + 1 ≤ required_context d = λ b. fits step b a room in
      let found =
        choose_variant-covers s.schedule (longest_context s starts step batch) (required_context d)
          (longest_context-le s starts step (required_context d) batch near) h.covered in
      let copied : not (host_tokens d) || w.tokens_ok step ≡ true =
        rw (smooth.tokens step) (or-true (not (host_tokens d))) in
      let goes_on : nonzero d.token_callback && not (w.callback_ok step) ≡ false =
        rw (smooth.callback step) (and-false (nonzero d.token_callback)) in
      (
        after step s found.0,
        rw (smooth.kv step, found.1, smooth.launch step, copied, goes_on) refl,
        after-Loop step s found.0 h room some found.2,
      )

  -- Behind the last step
  idle_at_end : (step : ℕ) (s : Decoded) → Loop step s → pos_part d.max_new ≤ suc step → Done s
  idle_at_end step s h full = idle-Done step s h λ b _. h.idle full b

  steps_continue :
      (n step : ℕ) (s t r : Decoded)
      → any_active batch s.row_active ≡ true
      → generate_step d w starts step s ≡ returned (false, t)
      → generate_steps d w starts n (suc step) t ≡ returned r
      → generate_steps d w starts (suc n) step s ≡ returned r
  unfolding generate_steps
  steps_continue n step s t r some here rest = rw (generate_steps, some, here) rest

  pub steps-Done :
      (n step : ℕ) (s : Decoded)
      → Accepted d starts
      → Smooth w
      → Loop step s
      → step + n + 1 ≡ pos_part d.max_new
      → (r : Decoded) × (generate_steps d w starts n step s ≡ returned r) × Done r
  unfolding generate_steps
  steps-Done zero step s a smooth h all = (s, refl, idle_at_end step s h (omega arith))
  steps-Done (suc n) step s a smooth h all = elim (Bool-cases (any_active batch s.row_active)) [
    | inr off ↦
        (s, rw (generate_steps, off) refl, idle-Done step s h (none_active batch s.row_active off))
    | inl some ↦
        let next = step-Loop step s a smooth h (omega arith) some in
        let rest = steps-Done n (suc step) next.0 a smooth next.2 (omega arith) in
        (rest.0, steps_continue n step s next.0 rest.0 some next.1 rest.1, rest.2)
  ]

  -- The state in front of the loop is one behind the tests of a step.
  seeded_idle : pos_part d.max_new ≤ 1 → (b : ℕ) → (seeded d w).row_active b ≡ false
  unfolding seeded all_stop
  seeded_idle all b = let only : pos_part d.max_new - 1 == 0 ≡ true = ground arith in rw only refl

  seeded_keeps : ((seeded d w).executed ≡ 0) × ((seeded d w).schedule ≡ d.schedule_variants)
  unfolding seeded all_stop eos_stop fresh
  seeded_keeps = elim (Bool-cases (is_empty d.eos_token_ids)) [
    | inl none ↦ elim (Bool-cases (pos_part d.max_new - 1 == 0)) [
      | inl only ↦ (rw (none, only) refl, rw (none, only) refl)
      | inr more ↦ (rw (none, more) refl, rw (none, more) refl)
    ]
    | inr listed ↦ elim (Bool-cases (pos_part d.max_new - 1 == 0)) [
      | inl only ↦ (rw (listed, only) refl, rw (listed, only) refl)
      | inr more ↦ (rw (listed, more) refl, rw (listed, more) refl)
    ]
  ]

  pub seeded-Loop : Accepted d starts → Loop 0 (seeded d w)
  seeded-Loop a = record {
    rows = seeded-Rows d w a.has_column;
    idle = seeded_idle;
    steps = seeded_keeps.0;
    covered = ap (λ vs. last_covers vs (required_context d)) seeded_keeps.1 ∙ a.covered;
    reached = inl refl;
  }
