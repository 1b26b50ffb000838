-- ===== src/Runtime/Generate/Rows.antt =====
-- What `runtime_generate` of src/decode/runtime.cu reports for a row, told from the row's tokens alone.
use cohere_megakernel.Common.{
  ℕ, zero, suc, ◌+◌, ◌-◌, ◌≤◌, ◌<◌, ◌≡◌, inl, inr, refl, ap, ◌∙◌, sym, arith, Bool, true, false,
  ◌&&◌, not, List, [], ◌∷◌, ◌==◌, Bool-cases, if◌then◌else◌,
}
use cohere_megakernel.Common.Int.{ℤ, pos_part}
use cohere_megakernel.Runtime.Service.{FinishReason, unfinished, eos, length_stop, is_eos}
use cohere_megakernel.Runtime.Generate.{
  NmcRuntimeGenerateDesc, World, Decoded, eos_stop, all_stop, fresh, seeded, grown, host_tokens,
  is_empty,
}

-- Length and finish reason of a row with the tokens `tok` of which the first `j` are no stop tokens and
-- `n` more have a column
unfoldable pub ending : List ℤ → (ℕ → ℤ) → ℕ → ℕ → ℕ × FinishReason
ending ids tok zero j = (j, length_stop)
ending ids tok (suc n) j = if is_eos ids (tok j) then (j + 1, eos) else ending ids tok n (suc j)

-- The tokens of a row: the seed, and then what the steps sample
abbrev pub token : World → ℕ → ℕ → ℤ
token w b zero = w.seed_token b
token w b (suc step) = w.sampled step b

-- What a run reports for row `b`: a row that is masked out keeps its seed token only.
unfoldable pub expected : NmcRuntimeGenerateDesc → World → ℕ → ℕ × FinishReason
expected d w b =
    if w.masked_in b
    then ending d.eos_token_ids (token w b) (pos_part d.max_new) 0
    else (1, unfinished)

no_eos : (ids : List ℤ) (t : ℤ) → is_empty ids ≡ true → is_eos ids t ≡ false
unfolding is_eos
no_eos [] t none = refl
no_eos (x ∷ xs) t none = grind arith

module _ (d : NmcRuntimeGenerateDesc) (w : World) where
  abbrev pub columns : ℕ
  columns = pos_part d.max_new

  -- A row of which `k` columns are filled: it has finished with what is expected, or it is active and
  -- nothing is decided yet.
  unfoldable pub Row : ℕ → Bool → ℕ → FinishReason → ℕ → Type 0
  Row k false len why b = (expected d w b ≡ (len, why)) × (len ≤ k)
  Row k true len why b =
      (len ≡ k)
      × (why ≡ unfinished)
      × (expected d w b ≡ ending d.eos_token_ids (token w b) (columns - k) k)

  ending-step :
      (k b : ℕ)
      → k < columns
      → expected d w b ≡ ending d.eos_token_ids (token w b) (columns - k) k
      → expected d w b ≡ (
          if is_eos d.eos_token_ids (token w b k)
          then (k + 1, eos)
          else ending d.eos_token_ids (token w b) (columns - suc k) (suc k))
  unfolding ending
  ending-step k b room h =
      let more : columns - k ≡ suc (columns - suc k) = omega arith in h ∙ rw more refl

  -- A further column is filled, and its token tested.
  column_filled :
      (k b : ℕ) (active : Bool) (len : ℕ) (why : FinishReason)
      → k < columns
      → Row k active len why b
      → Row
          (suc k)
          (active && not (is_eos d.eos_token_ids (token w b k)))
          (if active then suc k else len)
          (if active && is_eos d.eos_token_ids (token w b k) then eos else why)
          b
  unfolding Row
  column_filled k b false len why room (h, le) = (h, omega arith)
  column_filled k b true len why room (size, reason, h) =
      let next = ending-step k b room h in
      elim (Bool-cases (is_eos d.eos_token_ids (token w b k))) [
        | inl stops ↦ rw stops (rw stops at next ∙ ap (λ n. (n, eos)) (omega arith), omega arith)
        | inr goes ↦ rw goes (refl, reason, rw goes at next)
      ]

  -- All columns are filled.
  columns_full :
      (k b : ℕ) (active : Bool) (len : ℕ) (why : FinishReason)
      → columns ≤ k
      → Row k active len why b
      → Row k false len (if active then length_stop else why) b
  unfolding Row ending
  columns_full k b false len why full h = h
  columns_full k b true len why full (size, reason, h) =
      let none_left : columns - k ≡ 0 = omega arith in
      (rw none_left at h ∙ ap (λ n. (n, length_stop)) (sym size), omega arith)

  masked_out : (b : ℕ) → w.masked_in b ≡ false → expected d w b ≡ (1, unfinished)
  unfolding expected
  masked_out b out = rw out refl

  none_yet :
      (b : ℕ)
      → w.masked_in b ≡ true
      → expected d w b ≡ ending d.eos_token_ids (token w b) (columns - 0) 0
  unfolding expected
  none_yet b active = let all : columns - 0 ≡ columns = omega arith in rw (active, all) refl

  -- The row behind the test of its seed token
  seed_tested :
      (b : ℕ)
      → 0 < columns
      → Row 1
          (w.masked_in b && not (is_eos d.eos_token_ids (w.seed_token b)))
          1
          (if w.masked_in b && is_eos d.eos_token_ids (w.seed_token b) then eos else unfinished)
          b
  unfolding Row
  seed_tested b room = elim (Bool-cases (w.masked_in b)) [
    | inr out ↦ rw out (masked_out b out, omega arith)
    | inl active ↦
        let next = ending-step 0 b room (none_yet b active) in
        elim (Bool-cases (is_eos d.eos_token_ids (w.seed_token b))) [
          | inl stops ↦ rw (active, stops) (rw stops at next, omega arith)
          | inr goes ↦ rw (active, goes) (refl, refl, rw goes at next)
        ]
  ]

  abbrev pub Rows : ℕ → Decoded → Type 0
  Rows k s = (b : ℕ) → Row k (s.row_active b) (s.gen_len b) (s.finish b) b

  -- A token that is no stop token changes nothing.
  not_stopped :
      (k b : ℕ) (active : Bool) (len : ℕ) (why : FinishReason)
      → Row k (active && not false) len (if active && false then eos else why) b
      → Row k active len why b
  not_stopped k b false len why h = h
  not_stopped k b true len why h = h

  no_stop_tokens : (t : ℤ) → is_empty d.eos_token_ids ≡ true → is_eos d.eos_token_ids t ≡ false
  no_stop_tokens t = no_eos d.eos_token_ids t

  blind_is_empty : host_tokens d ≡ false → is_empty d.eos_token_ids ≡ true
  unfolding host_tokens
  blind_is_empty blind = grind arith

  -- The rows behind a step's new column, whether the host looks at the tokens or none can stop a row
  pub told-Rows :
      (step : ℕ) (s : Decoded)
      → suc step < columns
      → Rows (suc step) s
      → Rows (suc (suc step)) (
          if host_tokens d
          then eos_stop d.eos_token_ids (w.sampled step) (grown step s)
          else grown step s)
  unfolding grown eos_stop host_tokens
  told-Rows step s room h b =
      let two : step + 2 ≡ suc (suc step) = omega arith in
      let next =
        column_filled (suc step) b (s.row_active b) (s.gen_len b) (s.finish b) room (h b) in
      elim (Bool-cases (host_tokens d)) [
        | inl looks ↦ rw (looks, two) next
        | inr blind ↦
            let quiet = no_stop_tokens (w.sampled step b) (blind_is_empty blind) in
            rw (blind, two)
              (not_stopped (suc (suc step)) b (s.row_active b)
                (if s.row_active b then suc (suc step) else s.gen_len b) (s.finish b)
                (rw quiet at next))
      ]

  pub stopped-Rows : (k : ℕ) (s : Decoded) → columns ≤ k → Rows k s → Rows k (all_stop s)
  unfolding all_stop
  stopped-Rows k s full h b =
      columns_full k b (s.row_active b) (s.gen_len b) (s.finish b) full (h b)

  tested-Rows :
      0 < columns
      → Rows 1 (
          if is_empty d.eos_token_ids
          then fresh d w
          else eos_stop d.eos_token_ids w.seed_token (fresh d w))
  unfolding fresh eos_stop
  tested-Rows room b = elim (Bool-cases (is_empty d.eos_token_ids)) [
    | inr some ↦ rw some (seed_tested b room)
    | inl none ↦
        let next = seed_tested b room in
        let quiet = no_stop_tokens (w.seed_token b) none in
        rw none (not_stopped 1 b (w.masked_in b) 1 unfinished (rw quiet at next))
  ]

  pub seeded-Rows : 0 < columns → Rows 1 (seeded d w)
  unfolding seeded
  seeded-Rows room = elim (Bool-cases (columns - 1 == 0)) [
    | inr more ↦ rw more (tested-Rows room)
    | inl only ↦ rw only (stopped-Rows 1 _ ground arith (tested-Rows room))
  ]
