-- ===== src/Kv/Rows/Access.antt =====
-- Accesses to the host vectors of a handle in bounds, and the copies to the device, keep the
-- invariant.
use cohere_megakernel.Common.{
  ℕ, ◌<◌, ◌≡◌, refl, subst, sym, arith, Bool, true, false, lt→ltb, List, [], ◌∷◌, ◌==◌,
}
use cohere_megakernel.Common.Int.{ℤ}
use cohere_megakernel.Kv.State.{Geometry}
use cohere_megakernel.Kv.Store.{
  Store, M, pure, read_seqlen, write_seqlen, write_active, cuda_call, kv_flush_page_table,
  kv_flush_cache_seqlens, kv_flush_row_active,
}
use cohere_megakernel.Kv.Store.Ensures.{Ensures, Keeps, returns, raises, Keeps-if, Keeps-bind}
use cohere_megakernel.Kv.Rows.Inv.{Inv, Inv-frame}

module _ (n : ℕ) (others : ℕ → ℕ) (g : Geometry) where
  abbrev Kept : {A : Type 0} → M A → Type 0
  Kept m = Keeps (Inv n others g) m

  pub pure-Keeps : {A : Type 0} (a : A) → Kept (pure a)
  pure-Keeps a s inv = returns inv

  module _ (b : ℕ) (row : b < g.bs) where
    pub read_seqlen-Keeps : Kept (read_seqlen b)
    unfolding read_seqlen
    read_seqlen-Keeps s inv =
        rw (lt→ltb b s.kv.cache_seqlens_host.size (subst (λ m. b < m) (sym inv.shaped.seqlens) row))
          (returns inv)

    pub write_seqlen-Keeps : (z : ℤ) → Kept (write_seqlen b z)
    unfolding write_seqlen
    write_seqlen-Keeps z s inv =
        rw (lt→ltb b s.kv.cache_seqlens_host.size (subst (λ m. b < m) (sym inv.shaped.seqlens) row))
          (returns (Inv-frame n others g s _ refl refl (ground (arith, inv.shaped)) inv))

    pub write_active-Keeps : (z : ℤ) → Kept (write_active b z)
    unfolding write_active
    write_active-Keeps z s inv =
        rw (lt→ltb b s.kv.row_active_host.size (subst (λ m. b < m) (sym inv.shaped.active) row))
          (returns (Inv-frame n others g s _ refl refl (ground (arith, inv.shaped)) inv))

  cuda_call-cases :
      (s : Store) (results : List Bool)
      → s.cuda_results ≡ results
      → Inv n others g s
      → Ensures (λ _ t. Inv n others g t) (λ _ t. Inv n others g t) (cuda_call s)
  unfolding cuda_call
  cuda_call-cases s [] e inv = rw (e, cuda_call) (returns inv)
  cuda_call-cases s (true ∷ rest) e inv =
      rw (e, cuda_call) (returns (Inv-frame n others g s _ refl refl inv.shaped inv))
  cuda_call-cases s (false ∷ rest) e inv =
      rw (e, cuda_call) (raises (Inv-frame n others g s _ refl refl inv.shaped inv))

  pub cuda_call-Keeps : Kept cuda_call
  cuda_call-Keeps s inv = cuda_call-cases s s.cuda_results refl inv

  pub kv_flush_page_table-Keeps : Kept kv_flush_page_table
  unfolding kv_flush_page_table
  kv_flush_page_table-Keeps =
      Keeps-bind cuda_call _ cuda_call-Keeps
        λ _ s inv. returns (Inv-frame n others g s _ refl refl inv.shaped inv)

  pub kv_flush_cache_seqlens-Keeps : Kept (kv_flush_cache_seqlens g)
  unfolding kv_flush_cache_seqlens
  kv_flush_cache_seqlens-Keeps =
      Keeps-if (g.cache_seqlens == 0) (pure tt) _ (λ _. pure-Keeps tt)
        λ _.
          Keeps-bind cuda_call _ cuda_call-Keeps
            λ _ s inv. returns (Inv-frame n others g s _ refl refl inv.shaped inv)

  pub kv_flush_row_active-Keeps : Kept (kv_flush_row_active g)
  unfolding kv_flush_row_active
  kv_flush_row_active-Keeps =
      Keeps-if (g.row_active == 0) (pure tt) _ (λ _. pure-Keeps tt)
        λ _.
          Keeps-bind cuda_call _ cuda_call-Keeps
            λ _ s inv. returns (Inv-frame n others g s _ refl refl inv.shaped inv)
