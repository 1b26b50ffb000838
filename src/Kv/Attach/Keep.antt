-- ===== src/Kv/Attach/Keep.antt =====
-- Attaching cached blocks, as in src/kv/cache.cpp, keeps the invariant.
use cohere_megakernel.Common.{
  ℕ, suc, ◌+◌, ◌<◌, ◌≡◌, refl, ◌∙◌, sym, subst, ap, true, false, not, Option, none, some, List, [],
  ◌∷◌, arith, ◌==◌, length, All, Bool-cases, inl, inr, ◌||◌,
}
use cohere_megakernel.Common.Int.{
  ℤ, pos, negsuc, pos_part, is_neg, is_nonpos, int_eq, int_eq_iff, minus_one, below,
}
use cohere_megakernel.Kv.Prefix.{Entry}
use cohere_megakernel.Kv.Global.{
  Attempt, done, fails, retain_at, release_at, missing_arguments, row_or_block_out_of_range,
}
use cohere_megakernel.Kv.Global.Invariant.{IsConsistent, bump, drop}
use cohere_megakernel.Kv.Global.Counts.{
  release-done, release-IsConsistent, release_at-size, retain-done, retain-IsConsistent,
  retain_at-size, queue_after_release, queue_after_retain,
}
use cohere_megakernel.Kv.State.{Geometry, kv_pt}
use cohere_megakernel.Kv.State.Index.{kv_pt-lt}
use cohere_megakernel.Kv.Store.{Store, M, ok, pure, outcome_of, look, kv_flush_page_table}
use cohere_megakernel.Kv.Store.Ensures.{
  Ensures, Keeps, returns, raises, bind, Runs, Runs-bind, Runs-Keeps, Keeps-bind, Keeps-if,
  require-then,
}
use cohere_megakernel.Kv.Rows.{retain_block, release_block}
use cohere_megakernel.Kv.Rows.Inv.{Inv, IsSlot, refs_of, refs_of-pos}
use cohere_megakernel.Kv.Rows.Slots.{
  read_page-some, write_page-some, retain_block-some, release_block-some, rewritten, rewritten-Inv,
  full-pos,
}
use cohere_megakernel.Kv.Rows.Access.{pure-Keeps, kv_flush_page_table-Keeps}
use cohere_megakernel.Kv.Decode.{Array}
use cohere_megakernel.Kv.Attach.{
  Batch, check_items, attach_slot, attach_layers, attach_items, attach_found, attach_checked,
  is_found, prefix_attach_batch, prefix_attach, prefix_can_attach,
}
use cohere_megakernel.Kv.Attach.Check.{IsId, ItemsOk, check_items-ItemsOk}

module _ (n : ℕ) (others : ℕ → ℕ) (g : Geometry) where
  abbrev Kept : {A : Type 0} → M A → Type 0
  Kept m = Keeps (Inv n others g) m

  module _ (k : ℕ) (s : Store) (inv : Inv n others g s) (within : k < s.kv.page_table_host.size)
      (i : ℕ) (id : i < n) where
    abbrev refs_now : ℕ → ℕ
    refs_now j = refs_of s.kv.page_table_host j + others j

    here : i < s.global.pool.size
    here = ground (arith, id, inv.pool_size)

    -- An empty slot takes the cached block.
    attach_empty :
        s.kv.page_table_host.at k ≡ minus_one
        → Inv n others g (rewritten n others g s (retain_at s.global i) k (pos i))
    attach_empty empty =
        rewritten-Inv n others g s (retain_at s.global i) k (pos i) (bump i refs_now)
          (queue_after_retain refs_now i inv.queue) inv within id
          (retain_at-size refs_now s.global inv.queue i inv.consistent here ∙ inv.pool_size)
          (retain-IsConsistent refs_now s.global inv.queue i inv.consistent here)
          (λ j. ground (arith, empty))

    -- A slot that names another block gives that one back first.
    module _ (m : ℕ) (full : s.kv.page_table_host.at k ≡ pos m) (other : (m == i) ≡ false) where
      there : m < s.global.pool.size
      there = ground (arith, subst (IsSlot n) full (inv.slots k within), inv.pool_size)

      held : 0 < refs_now m
      held = omega (arith, refs_of-pos s.kv.page_table_host k m within full)

      less :
          IsConsistent
            (drop m refs_now)
            (release_at s.global m)
            (queue_after_release refs_now m inv.queue)
      less = release-IsConsistent refs_now s.global inv.queue m inv.consistent there held

      less-size : (release_at s.global m).pool.size ≡ n
      less-size =
          release_at-size refs_now s.global inv.queue m inv.consistent there held ∙ inv.pool_size

      here' : i < (release_at s.global m).pool.size
      here' = ground (arith, less-size, id)

      replaced-Inv :
          Inv n others g (rewritten n others g s (retain_at (release_at s.global m) i) k (pos i))
      replaced-Inv =
          rewritten-Inv n others g s (retain_at (release_at s.global m) i) k (pos i)
            (bump i (drop m refs_now)) _ inv within id
            (retain_at-size (drop m refs_now) (release_at s.global m) _ i less here' ∙ less-size)
            (retain-IsConsistent (drop m refs_now) (release_at s.global m) _ i less here')
            (λ j. ground (arith, full, held, other))

      replaced-run :
          (release_block (pos m) s ≡ ok tt (record s { global = release_at s.global m }))
          × (retain_block (pos i) (record s { global = release_at s.global m })
              ≡ ok tt (record s { global = retain_at (release_at s.global m) i }))
      replaced-run = (
        release_block-some s (pos m) (release_at s.global m)
            (release-done refs_now s.global inv.queue m inv.consistent there held),
        retain_block-some (record s { global = release_at s.global m }) (pos i) _
            (retain-done (drop m refs_now) (release_at s.global m) _ i less here'),
      )

    attach_slot-Inv : Ensures (λ _ t. Inv n others g t) (λ _ _. ⊥) (attach_slot k (pos i) s)
    unfolding attach_slot
    attach_slot-Inv =
        rw (read_page-some k s within)
          (elim (Bool-cases (int_eq (s.kv.page_table_host.at k) (pos i))) [
            | inl same ↦ rw same (returns inv)
            | inr new ↦ elim (Bool-cases (int_eq (s.kv.page_table_host.at k) minus_one)) [
              | inl empty ↦
                  let e = (int_eq_iff (s.kv.page_table_host.at k) minus_one).0 empty in
                  rw
                    (
                      e,
                      retain_block-some s (pos i) (retain_at s.global i)
                          (retain-done refs_now s.global inv.queue i inv.consistent here),
                    )
                    (rw
                      (write_page-some k (pos i) (record s { global = retain_at s.global i })
                        within)
                      (returns (attach_empty e)))
              | inr full ↦
                  let (m, e) =
                    full-pos n others g k s inv within (s.kv.page_table_host.at k)
                      (inv.slots k within) full in
                  let other : (m == i) ≡ false = ground (arith, e, new) in
                  let (first, second) = replaced-run m e other in
                  rw (e, other, first)
                    (rw second (
                      rw
                        (write_page-some k (pos i)
                          (record s { global = retain_at (release_at s.global m) i }) within)
                        (returns (replaced-Inv m e other))))
            ]
          ])

  module _ (row : ℕ) (r : row < g.bs) (blk : ℕ) (b : blk < g.max_pages_per_seq) where
    attach_layers-Runs :
        (li : ℕ) (e : Entry)
        → li + length e ≡ g.num_layers
        → All (IsId n) e
        → Runs (Inv n others g) (attach_layers g row blk li e)
    unfolding attach_layers
    attach_layers-Runs li [] l v = λ s inv. returns inv
    attach_layers-Runs li (pos i ∷ ids) l v =
        Runs-bind (attach_slot (kv_pt g li row blk) (pos i)) _
          (λ s inv.
            attach_slot-Inv (kv_pt g li row blk) s inv
              (subst (λ m. kv_pt g li row blk < m) (sym inv.shaped.page_table)
                (kv_pt-lt g li row blk (omega arith) r b))
              i v.0)
          λ _. attach_layers-Runs (suc li) ids (omega arith) v.1
    attach_layers-Runs li (negsuc k ∷ ids) l v =
        Runs-bind (pure tt) _ (λ s inv. returns inv)
          λ _. attach_layers-Runs (suc li) ids (omega arith) v.1

  pub attach_items-Runs :
      (a : Batch) (i : ℕ) (es : List Entry)
      → ItemsOk n g a i es
      → Runs (Inv n others g) (attach_items g a i es)
  unfolding attach_items
  attach_items-Runs a i [] h = λ s inv. returns inv
  attach_items-Runs a i (e ∷ es) h =
      Runs-bind (attach_layers g (pos_part (a.rows i)) (pos_part (a.logical_blocks i)) 0 e) _
        (attach_layers-Runs (pos_part (a.rows i)) h.0.row (pos_part (a.logical_blocks i)) h.0.block
          0 e (omega (arith, h.0.layers)) h.0.ids)
        λ _. attach_items-Runs a (suc i) es h.1

  -- A look at the shared state changes nothing.
  pub outcome_of-Ensures :
      {A : Type 0} (r : Attempt A) (s : Store)
      → Inv n others g s
      → Ensures (λ a t. (t ≡ s) × (r ≡ done a)) (λ _ t. Inv n others g t) (outcome_of r s)
  outcome_of-Ensures (done a) s inv = returns (refl, refl)
  outcome_of-Ensures (fails e) s inv = raises inv

  attach_found-Keeps :
      (a : Batch) (found : Option (List Entry)) (s : Store)
      → Inv n others g s
      → ((es : List Entry) → found ≡ some es → ItemsOk n g a 0 es)
      → Ensures (λ _ t. Inv n others g t) (λ _ t. Inv n others g t) (attach_found g a found s)
  unfolding attach_found
  attach_found-Keeps a none s inv h = returns inv
  attach_found-Keeps a (some es) s inv h =
      Keeps-bind (attach_items g a 0 es) _ (Runs-Keeps _ (attach_items-Runs a 0 es (h es refl)))
        (λ _.
          Keeps-bind kv_flush_page_table _ (kv_flush_page_table-Keeps n others g)
            (λ _. pure-Keeps n others g true))
        s inv

  attach_checked-Keeps : (a : Batch) (count : ℕ) → Kept (attach_checked g a count)
  unfolding attach_checked look
  attach_checked-Keeps a count s inv =
      bind (outcome_of-Ensures (check_items g s.global a count 0 []) s inv)
        λ found t (same, checked).
          attach_found-Keeps a found t (subst (Inv n others g) (sym same) inv) λ es f.
            subst (λ m. ItemsOk m g a 0 es) inv.pool_size
              (check_items-ItemsOk g s.global a count 0 [] es inv.consistent.named
                (checked ∙ ap done f))

  pub prefix_attach_batch-Keeps :
      (keys : Option (List ℕ)) (key_len : ℤ) (rows blocks required : Option Array) (count : ℤ)
      → Kept (prefix_attach_batch g keys key_len rows blocks required count)
  unfolding prefix_attach_batch
  prefix_attach_batch-Keeps (some keys) key_len (some rows) (some blocks) (some required) count =
      Keeps-if (is_nonpos key_len || is_nonpos count) _ _ (λ _ s inv. raises inv)
        λ _. attach_checked-Keeps _ (pos_part count)
  prefix_attach_batch-Keeps keys key_len rows blocks required count = λ s inv. raises inv

  pub prefix_attach-Keeps :
      (key : Option (List ℕ)) (key_len row logical_block required_from : ℤ)
      → Kept (prefix_attach g key key_len row logical_block required_from)
  unfolding prefix_attach
  prefix_attach-Keeps key key_len row logical_block required_from =
      prefix_attach_batch-Keeps key key_len _ _ _ (pos 1)

  can_attach_found-Keeps : (found : Option Entry) → Kept (is_found found)
  can_attach_found-Keeps none = pure-Keeps n others g false
  can_attach_found-Keeps (some _) = pure-Keeps n others g true

  pub prefix_can_attach-Keeps :
      (key : Option (List ℕ)) (key_len logical_block required_from : ℤ)
      → Kept (prefix_can_attach g key key_len logical_block required_from)
  unfolding prefix_can_attach look
  prefix_can_attach-Keeps none key_len logical_block required_from = λ s inv. raises inv
  prefix_can_attach-Keeps (some key) key_len logical_block required_from =
      require-then (not (is_nonpos key_len)) missing_arguments _ λ _.
        require-then (not (is_neg logical_block)) row_or_block_out_of_range _ λ _.
          require-then (below logical_block g.max_pages_per_seq) row_or_block_out_of_range _
            λ _ s inv. bind (outcome_of-Ensures _ s inv) λ found t (same, _).
              can_attach_found-Keeps found t (subst (Inv n others g) (sym same) inv)
