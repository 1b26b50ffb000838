-- ===== src/Kv/Attach/Atomic.antt =====
-- `prefix_attach_batch` of src/kv/cache.cpp attaches all of its items or none.
use cohere_megakernel.Common.{
  ℕ, ◌≡◌, refl, ◌∙◌, sym, subst, ap, true, false, Bool, Option, none, some, List, [], ◌∷◌, ◌⊎◌, inl,
  inr, ◌||◌, Bool-cases,
}
use cohere_megakernel.Common.Int.{ℤ, pos_part, is_nonpos}
use cohere_megakernel.Kv.Prefix.{Entry}
use cohere_megakernel.Kv.Global.{Attempt, KvError, done, fails, cuda_failure}
use cohere_megakernel.Kv.State.{Geometry}
use cohere_megakernel.Kv.Store.{Store, outcome_of, look, cuda_call, kv_flush_page_table}
use cohere_megakernel.Kv.Store.Ensures.{Ensures, returns, raises, bind, weaken_error}
use cohere_megakernel.Kv.Rows.Inv.{Inv}
use cohere_megakernel.Kv.Decode.{Array}
use cohere_megakernel.Kv.Attach.{
  Batch, check_items, attach_found, attach_checked, prefix_attach_batch,
}
use cohere_megakernel.Kv.Attach.Check.{ItemsOk, check_items-ItemsOk}
use cohere_megakernel.Kv.Attach.Keep.{attach_items-Runs}

cuda_call-error :
    (s : Store) (results : List Bool)
    → s.cuda_results ≡ results
    → Ensures (λ _ t. t.kv ≡ s.kv) (λ e _. e ≡ cuda_failure) (cuda_call s)
unfolding cuda_call
cuda_call-error s [] e = rw (e, cuda_call) (returns refl)
cuda_call-error s (true ∷ rest) e = rw (e, cuda_call) (returns refl)
cuda_call-error s (false ∷ rest) e = rw (e, cuda_call) (raises refl)

-- The copy of the page table leaves the host as it is, and brings the device up to date.
pub flush-error :
    (s : Store)
    → Ensures
        (λ _ t. (t.kv ≡ s.kv) × (t.device.page_table ≡ t.kv.page_table_host))
        (λ e _. e ≡ cuda_failure)
        (kv_flush_page_table s)
unfolding kv_flush_page_table
flush-error s = bind (cuda_call-error s s.cuda_results refl) λ _ t same. returns (same, refl)

module _ (n : ℕ) (others : ℕ → ℕ) (g : Geometry) (s : Store) (inv : Inv n others g s) where
  -- All or nothing: `true` with the device up to date, or `false` with nothing changed.
  abbrev Attached : Bool → Store → Type 0
  Attached found t =
      ((found ≡ true) × (t.device.page_table ≡ t.kv.page_table_host)) ⊎ ((found ≡ false) × (t ≡ s))

  -- An error of the copy, or one with nothing changed.
  abbrev Refused : KvError → Store → Type 0
  Refused e t = (e ≡ cuda_failure) ⊎ (t ≡ s)

  look-same :
      {A : Type 0} (r : Attempt A)
      → Ensures (λ a t. (t ≡ s) × (r ≡ done a)) Refused (outcome_of r s)
  look-same (done a) = returns (refl, refl)
  look-same (fails e) = raises (inr refl)

  attach_found-Attached :
      (a : Batch) (found : Option (List Entry))
      → ((es : List Entry) → found ≡ some es → ItemsOk n g a 0 es)
      → Ensures Attached Refused (attach_found g a found s)
  unfolding attach_found
  attach_found-Attached a none h = returns (inr (refl, refl))
  attach_found-Attached a (some es) h =
      bind
        (weaken_error (attach_items-Runs n others g a 0 es (h es refl) s inv) λ _ _ bot. absurd bot)
        λ _ t _.
          bind (weaken_error (flush-error t) λ _ _ cuda. inl cuda)
            λ _ u (_, synced). returns (inl (refl, synced))

  attach_checked-Attached :
      (a : Batch) (count : ℕ) → Ensures Attached Refused (attach_checked g a count s)
  unfolding attach_checked look
  attach_checked-Attached a count =
      bind (look-same (check_items g s.global a count 0 [])) λ found t (same, checked).
        subst (λ u. Ensures Attached Refused (attach_found g a found u)) (sym same)
          (attach_found-Attached a found λ es f.
            subst (λ m. ItemsOk m g a 0 es) inv.pool_size
              (check_items-ItemsOk g s.global a count 0 [] es inv.consistent.named
                (checked ∙ ap done f)))

  -- On a handle that satisfies the invariant `prefix_attach_batch` either returns `true`, with the
  -- device's page table equal to the host's, or returns `false` and has changed nothing, or throws:
  -- because the copy to the device has failed, or with nothing changed.
  pub prefix_attach_batch_atomic :
      (keys : Option (List ℕ)) (key_len : ℤ) (rows blocks required : Option Array) (count : ℤ)
      → Ensures
          (λ found t.
            ((found ≡ true) × (t.device.page_table ≡ t.kv.page_table_host))
            ⊎ ((found ≡ false) × (t ≡ s)))
          (λ e t. (e ≡ cuda_failure) ⊎ (t ≡ s))
          (prefix_attach_batch g keys key_len rows blocks required count s)
  unfolding prefix_attach_batch
  prefix_attach_batch_atomic (some keys) key_len (some rows) (some blocks) (some required) count =
      elim (Bool-cases (is_nonpos key_len || is_nonpos count)) [
        | inl bad ↦ rw bad (raises (inr refl))
        | inr fine ↦ rw fine (attach_checked-Attached _ (pos_part count))
      ]
  prefix_attach_batch_atomic keys key_len rows blocks required count = raises (inr refl)
