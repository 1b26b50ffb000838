-- ===== src/Kv/Publish/Keep.antt =====
-- `prefix_publish` of src/kv/cache.cpp keeps the invariant.
use cohere_megakernel.Common.{
  ℕ, zero, suc, ◌+◌, ◌<◌, ◌≡◌, refl, ◌∙◌, sym, subst, ap, not, Option, none, some, List, [], ◌∷◌,
  arith, Bool-cases, inl, inr,
}
use cohere_megakernel.Common.Int.{ℤ, pos, negsuc, pos_part, is_nonpos}
use cohere_megakernel.Kv.Pool.{BlockHash}
use cohere_megakernel.Kv.Prefix.{Entry, find, has_any, lists}
use cohere_megakernel.Kv.Global.{
  Global, done, block_at, missing_arguments, row_or_block_out_of_range,
}
use cohere_megakernel.Kv.State.{Geometry, kv_pt}
use cohere_megakernel.Kv.State.Index.{kv_pt-lt}
use cohere_megakernel.Kv.Store.{Store, M, look}
use cohere_megakernel.Kv.Store.Ensures.{Ensures, Keeps, returns, raises, bind, require-then}
use cohere_megakernel.Kv.Rows.Inv.{Inv, IsSlot}
use cohere_megakernel.Kv.Rows.Slots.{read_page-some}
use cohere_megakernel.Kv.Attach.{parse_block_hash, in_range}
use cohere_megakernel.Kv.Attach.Keep.{outcome_of-Ensures}
use cohere_megakernel.Kv.Attach.Check.{in_range-lt}
use cohere_megakernel.Kv.Publish.{
  check_unhashed, collect_entry, published, store_entry, publish_new, publish_at, prefix_publish,
}
use cohere_megakernel.Kv.Publish.Mark.{CanPublish, published-IsConsistent}

module _ (n : ℕ) (others : ℕ → ℕ) (g : Geometry) where
  abbrev Kept : {A : Type 0} → M A → Type 0
  Kept m = Keeps (Inv n others g) m

  CanPublish-cons :
      (gl : Global) (h : BlockHash) (id : ℤ) (ids : Entry)
      → IsSlot gl.pool.size id
      → check_unhashed h id gl ≡ done tt
      → CanPublish gl h ids
      → CanPublish gl h (id ∷ ids)
  unfolding check_unhashed block_at lists
  CanPublish-cons gl h (pos i) ids slot fine rest = record {
    within = λ j m. ground (arith, rest.within j);
    unhashed = λ j m. ground (arith, rest.unhashed j);
  }
  CanPublish-cons gl h (negsuc k) ids slot fine rest = record {
    within = λ j m. rest.within j m;
    unhashed = λ j m. rest.unhashed j m;
  }

  CanPublish-nil : (gl : Global) (h : BlockHash) → CanPublish gl h []
  unfolding lists
  CanPublish-nil gl h = record { within = λ i m. cc; unhashed = λ i m. cc }

  module _ (h : BlockHash) (row : ℕ) (r : row < g.bs) (blk : ℕ)
      (b : blk < g.max_pages_per_seq) where
    collect_entry-Ensures :
        (m li : ℕ) (s : Store)
        → li + m ≡ g.num_layers
        → Inv n others g s
        → Ensures
            (λ e t. (t ≡ s) × CanPublish s.global h e)
            (λ _ t. Inv n others g t)
            (collect_entry g h row blk m li s)
    unfolding collect_entry look
    collect_entry-Ensures zero li s l inv = returns (refl, CanPublish-nil s.global h)
    collect_entry-Ensures (suc m) li s l inv =
        let k = kv_pt g li row blk in
        let within : k < s.kv.page_table_host.size =
          subst (λ z. k < z) (sym inv.shaped.page_table)
            (kv_pt-lt g li row blk (omega arith) r b) in
        let id = s.kv.page_table_host.at k in
        let slot : IsSlot s.global.pool.size id =
          subst (λ z. IsSlot z id) (sym inv.pool_size) (inv.slots k within) in
        rw (read_page-some k s within) (
          bind (outcome_of-Ensures n others g (check_unhashed h id s.global) s inv)
            λ u t (same, fine).
              bind
                (collect_entry-Ensures m (suc li) t (omega arith)
                  (subst (Inv n others g) (sym same) inv))
                λ ids t' (same', can). returns (
                  same' ∙ same,
                  CanPublish-cons s.global h id ids slot fine
                      (subst (λ x. CanPublish x.global h ids) same can),
                ))

    store_entry-Ensures :
        (e : Entry) (s : Store)
        → find h s.global.cache ≡ none
        → CanPublish s.global h e
        → Inv n others g s
        → Ensures (λ _ t. Inv n others g t) (λ _ t. Inv n others g t) (store_entry h e s)
    unfolding store_entry
    store_entry-Ensures e s new can inv = elim (Bool-cases (has_any e)) [
      | inl some_block ↦ rw some_block (
          returns (record {
            queue = inv.queue;
            consistent =
                published-IsConsistent s.global h e new can some_block _ inv.queue inv.consistent;
            pool_size = unfold published in inv.pool_size;
            shaped = inv.shaped;
            slots = inv.slots;
          }))
      | inr nothing ↦ rw nothing (returns inv)
    ]

    publish_new-Ensures :
        (found : Option Entry) (s : Store)
        → find h s.global.cache ≡ found
        → Inv n others g s
        → Ensures
            (λ _ t. Inv n others g t)
            (λ _ t. Inv n others g t)
            (publish_new g h row blk found s)
    publish_new-Ensures (some e) s f inv = returns inv
    publish_new-Ensures none s f inv =
        bind (collect_entry-Ensures g.num_layers 0 s (omega arith) inv) λ e t (same, can).
          store_entry-Ensures e t (ap (λ (x : Store). find h x.global.cache) same ∙ f)
            (subst (λ x. CanPublish x.global h e) (sym same) can)
            (subst (Inv n others g) (sym same) inv)

    publish_at-Keeps : Kept (publish_at g h row blk)
    unfolding publish_at
    publish_at-Keeps s inv = publish_new-Ensures (find h s.global.cache) s refl inv

  pub prefix_publish-Keeps :
      (key : Option (List ℕ)) (key_len row logical_block : ℤ)
      → Kept (prefix_publish g key key_len row logical_block)
  unfolding prefix_publish look
  prefix_publish-Keeps none key_len row logical_block = λ s inv. raises inv
  prefix_publish-Keeps (some key) key_len row logical_block =
      require-then (not (is_nonpos key_len)) missing_arguments _ λ _.
        require-then (in_range g row logical_block) row_or_block_out_of_range _ λ inside s inv.
          let (r, b) = in_range-lt g row logical_block inside in
          bind (outcome_of-Ensures n others g (parse_block_hash (some key) key_len) s inv)
            λ h t (same, _).
              publish_at-Keeps h (pos_part row) r (pos_part logical_block) b t
                (subst (Inv n others g) (sym same) inv)
