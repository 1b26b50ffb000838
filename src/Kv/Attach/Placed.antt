-- ===== src/Kv/Attach/Placed.antt =====
-- Where an attach of src/kv/cache.cpp returns, the slots of its destination hold the blocks of the entry.
use cohere_megakernel.Common.{
  ℕ, suc, ◌<◌, ◌≡◌, refl, ◌∙◌, sym, ap, arith, false, [], ◌∷◌, All, ◌==◌, if◌then◌else◌, Bool-cases,
  inl, inr,
}
use cohere_megakernel.Common.Int.{ℤ, pos, negsuc, is_neg, int_eq, int_eq_iff}
use cohere_megakernel.Kv.Prefix.{Entry}
use cohere_megakernel.Kv.State.{Vector, write_at, State, Geometry, kv_pt}
use cohere_megakernel.Kv.State.Index.{kv_pt_injective}
use cohere_megakernel.Kv.Store.{Store, pure}
use cohere_megakernel.Kv.Store.Post.{
  Post, after, Post-bind, Post-weaken, locked-Post, read_page-Post, write_page-Post,
}
use cohere_megakernel.Kv.Rows.{retain_block, release_block}
use cohere_megakernel.Kv.Attach.{attach_slot, attach_layers}

abbrev pub slot_of : Store → ℕ → ℤ
slot_of s k = s.kv.page_table_host.at k

-- Slot `k` has become `z`, and the others are as before.
abbrev Written : ℕ → ℤ → Store → Store → Type 0
Written k z s t = (slot_of t k ≡ z) × ((j : ℕ) → (k == j) ≡ false → slot_of t j ≡ slot_of s j)

write_at-Written :
    (k : ℕ) (z : ℤ) (s t : Store)
    → t.kv.page_table_host ≡ write_at s.kv.page_table_host k z
    → Written k z s t
write_at-Written k z s t e =
    let at : (j : ℕ) → slot_of t j ≡ (if k == j then z else slot_of s j) =
      λ j. ap (λ (v : Vector ℤ). v.at j) e in
    (ground (arith, at k), λ j other. at j ∙ rw other refl)

retain_block-Post : (id : ℤ) (s : Store) → Post (λ _ t. t.kv ≡ s.kv) (retain_block id s)
unfolding retain_block
retain_block-Post id s = locked-Post _ s

released-Post :
    (slot : ℤ) (s : Store)
    → Post (λ _ t. t.kv ≡ s.kv) ((if is_neg slot then pure tt else release_block slot) s)
unfolding release_block
released-Post (pos i) s = locked-Post _ s
released-Post (negsuc i) s = after refl

attach_slot-Post : (k : ℕ) (z : ℤ) (s : Store) → Post (λ _ t. Written k z s t) (attach_slot k z s)
unfolding attach_slot
attach_slot-Post k z s = Post-bind (read_page-Post k s) λ slot t (same, read).
    elim (Bool-cases (int_eq slot z)) [
      | inl there ↦
          let e = (int_eq_iff slot z).0 there in
          rw there (
            after (
              ap (λ (x : Store). slot_of x k) same ∙ sym read ∙ e,
              λ j other. ap (λ (x : Store). slot_of x j) same,
            ))
      | inr new ↦ rw new (
          Post-bind (released-Post slot t) λ _ u kept.
            Post-bind (retain_block-Post z u) λ _ v kept'.
              Post-weaken (write_page-Post k z v) λ _ w written. write_at-Written k z s w (
                written
                ∙ ap (λ (kv : State). write_at kv.page_table_host k z)
                    (kept' ∙ kept ∙ ap (λ (x : Store). x.kv) same)))
    ]

-- The ids of an entry that has a block for each layer
abbrev pub IsFullEntry : Entry → Type 0
IsFullEntry e = All (λ id. is_neg id ≡ false) e

module _ (g : Geometry) (row : ℕ) (r : row < g.bs) (blk : ℕ) (b : blk < g.max_pages_per_seq) where
  abbrev at_layer : ℕ → ℕ
  at_layer li = kv_pt g li row blk

  -- The slots of the layers from `li` on hold the entry.
  abbrev pub Holds : ℕ → Entry → Store → Type 0
  Holds li [] t = Unit {0}
  Holds li (id ∷ ids) t = (slot_of t (at_layer li) ≡ id) × Holds (suc li) ids t

  other_layer : (l li : ℕ) → l < li → (at_layer li == at_layer l) ≡ false
  other_layer l li lt = elim (Bool-cases (at_layer li == at_layer l)) [
    | inr other ↦ other
    | inl same ↦
        let e : at_layer li ≡ at_layer l = ground arith in
        let layers = kv_pt_injective g li row blk l row blk r r b b e in
        absurd (omega (arith, layers.0))
  ]

  -- Layers in front of `li` stay as they are.
  abbrev Below : ℕ → Store → Store → Type 0
  Below li s t = (l : ℕ) → l < li → slot_of t (at_layer l) ≡ slot_of s (at_layer l)

  pub attach_layers-Post :
      (li : ℕ) (e : Entry) (s : Store)
      → IsFullEntry e
      → Post (λ _ t. Holds li e t × Below li s t) (attach_layers g row blk li e s)
  unfolding attach_layers
  attach_layers-Post li [] s full = after (tt, λ l lt. refl)
  attach_layers-Post li (id ∷ ids) s full = rw full.0 (
      Post-bind (attach_slot-Post (at_layer li) id s) λ _ t (here, kept).
        Post-weaken (attach_layers-Post (suc li) ids t full.1) λ _ u (rest, below). (
          (below li (omega arith) ∙ here, rest),
          λ l lt. below l (omega arith) ∙ kept (at_layer l) (other_layer l li lt),
        ))
