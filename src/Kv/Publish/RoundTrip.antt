-- ===== src/Kv/Publish/RoundTrip.antt =====
-- A prefix that `prefix_publish` of src/kv/cache.cpp has put into the cache can be attached, and the attach
-- gives its blocks to the destination.
use cohere_megakernel.Common.{
  ℕ, zero, suc, ◌+◌, ◌*◌, ◌<◌, ◌≤◌, ◌≡◌, refl, ◌∙◌, sym, ap, subst, arith, Bool, true, false, some,
  List, [], ◌∷◌, length, All, ◌==◌, Bool-cases, inl, inr,
}
use mathlib.Core.Bool.{false≢true}
use cohere_megakernel.Common.Int.{ℤ, pos, negsuc, pos_part, is_neg}
use cohere_megakernel.Kv.Pool.{BlockHash}
use cohere_megakernel.Kv.Prefix.{Entry, find, lists}
use cohere_megakernel.Kv.Global.{Global, KvError, cuda_failure, done}
use cohere_megakernel.Kv.State.{Vector, State, Geometry, kv_pt}
use cohere_megakernel.Kv.Store.{Store, ok, look, kv_flush_page_table, cuda_call}
use cohere_megakernel.Kv.Store.Ensures.{
  Ensures, what_returned, returns, raises, bind, both, mono, weaken_error,
}
use cohere_megakernel.Kv.Store.Post.{Post, after, behind, Post-bind, Ensures-Post}
use cohere_megakernel.Kv.Rows.Inv.{Inv}
use cohere_megakernel.Kv.Rows.Access.{kv_flush_page_table-Keeps}
use cohere_megakernel.Kv.Attach.{
  Batch, parse_block_hash, in_range, lookup_item, check_item, check_items, attach_items,
  attach_found, attach_checked, prefix_attach, prefix_attach_batch, clamp_required,
}
use cohere_megakernel.Kv.Attach.Check.{IsId, ItemsOk, check_items-ItemsOk, find-ids, in_range-lt}
use cohere_megakernel.Kv.Attach.Keep.{attach_items-Runs}
use cohere_megakernel.Kv.Attach.Placed.{slot_of, IsFullEntry, Holds, attach_layers-Post}
use cohere_megakernel.Kv.Publish.{prefix_publish}
use cohere_megakernel.Kv.Publish.Keep.{prefix_publish-Keeps}
use cohere_megakernel.Kv.Publish.Found.{
  slots_from, Hashed, Publish, prefix_publish-Post, usable_entry-Hashed, length-slots_from,
}

All-Hashed :
    (gl : Global) (e : Entry)
    → IsFullEntry e
    → All (IsId gl.pool.size) e
    → ((i : ℕ) → lists i e ≡ true → (gl.pool.block i).has_hash ≡ true)
    → All (Hashed gl) e
unfolding lists
All-Hashed gl [] full ids hashed = tt
All-Hashed gl (pos i ∷ e) full ids hashed =
    ((ids.0, hashed i (ground arith)), All-Hashed gl e full.1 ids.1 λ j l. hashed j (ground arith))
All-Hashed gl (negsuc k ∷ e) full ids hashed = absurd (false≢true (sym full.0))

module _ (g : Geometry) (v : Vector ℤ) (row blk : ℕ) where
  slots_from-IsFullEntry :
      (li m : ℕ)
      → ((l : ℕ) → l < li + m → is_neg (v.at (kv_pt g l row blk)) ≡ false)
      → IsFullEntry (slots_from g v row blk li m)
  slots_from-IsFullEntry li zero full = tt
  slots_from-IsFullEntry li (suc m) full =
      (full li (omega arith), slots_from-IsFullEntry (suc li) m λ l lt. full l (omega arith))

  Holds-slots_from :
      (row' : ℕ) (r : row' < g.bs) (blk' : ℕ) (b : blk' < g.max_pages_per_seq) (t : Store)
      (li m : ℕ)
      → Holds g row' r blk' b li (slots_from g v row blk li m) t
      → (l : ℕ) → li ≤ l
      → l < li + m
      → slot_of t (kv_pt g l row' blk') ≡ v.at (kv_pt g l row blk)
  Holds-slots_from row' r blk' b t li zero h l lo hi = absurd (omega arith)
  Holds-slots_from row' r blk' b t li (suc m) h l lo hi = elim (Bool-cases (l == li)) [
    | inl here ↦ (let e : l ≡ li = ground arith in rw e h.0)
    | inr later ↦ Holds-slots_from row' r blk' b t (suc li) m h.1 l (ground arith) (omega arith)
  ]

Holds-same :
    (g : Geometry) (row : ℕ) (r : row < g.bs) (blk : ℕ) (b : blk < g.max_pages_per_seq) (li : ℕ)
    (e : Entry) (u v : Store)
    → v.kv ≡ u.kv
    → Holds g row r blk b li e u
    → Holds g row r blk b li e v
Holds-same g row r blk b li [] u v same h = tt
Holds-same g row r blk b li (id ∷ ids) u v same h = (
  ap (λ (kv : State). kv.page_table_host.at (kv_pt g li row blk)) same ∙ h.0,
  Holds-same g row r blk b (suc li) ids u v same h.1,
)

abbrev SameTable : Store → KvError → Store → Type 0
SameTable s e t = (e ≡ cuda_failure) × (t.kv ≡ s.kv)

cuda_call-SameTable :
    (s : Store) (results : List Bool)
    → s.cuda_results ≡ results
    → Ensures (λ _ t. t.kv ≡ s.kv) (λ e t. SameTable s e t) (cuda_call s)
unfolding cuda_call
cuda_call-SameTable s [] e = rw (e, cuda_call) (returns refl)
cuda_call-SameTable s (true ∷ rest) e = rw (e, cuda_call) (returns refl)
cuda_call-SameTable s (false ∷ rest) e = rw (e, cuda_call) (raises (refl, refl))

flush-SameTable :
    (s : Store) → Ensures (λ _ t. t.kv ≡ s.kv) (λ e t. SameTable s e t) (kv_flush_page_table s)
unfolding kv_flush_page_table
flush-SameTable s = bind (cuda_call-SameTable s s.cuda_results refl) λ _ t same. returns same

module _ (n : ℕ) (others : ℕ → ℕ) (g : Geometry) where
  module _ (a : Batch) (e : Entry) (t : Store) (inv : Inv n others g t)
      (checked : check_items g t.global a 1 0 [] ≡ done (some (e ∷ []))) (full : IsFullEntry e)
      (r : pos_part (a.rows 0) < g.bs)
      (b : pos_part (a.logical_blocks 0) < g.max_pages_per_seq) where
    -- The destination holds the entry, and the invariant holds.
    abbrev Attached : Store → Type 0
    Attached u =
        Inv n others g u × Holds g (pos_part (a.rows 0)) r (pos_part (a.logical_blocks 0)) b 0 e u

    items-Post :
        Post
          (λ _ u. Holds g (pos_part (a.rows 0)) r (pos_part (a.logical_blocks 0)) b 0 e u)
          (attach_items g a 0 (e ∷ []) t)
    unfolding attach_items
    items-Post = Post-bind (attach_layers-Post g _ r _ b 0 e t full) λ _ u h. after h.0

    items-Attached : Ensures (λ _ u. Attached u) (λ _ _. ⊥) (attach_items g a 0 (e ∷ []) t)
    items-Attached =
        let ok_ =
          subst (λ m. ItemsOk m g a 0 (e ∷ [])) inv.pool_size
            (check_items-ItemsOk g t.global a 1 0 [] (e ∷ []) inv.consistent.named checked) in
        Ensures-Post (attach_items-Runs n others g a 0 (e ∷ []) ok_ t inv) items-Post

    moved : (u v : Store) → v.kv ≡ u.kv → Inv n others g v → Attached u → Attached v
    moved u v same inv h = (inv, Holds-same g _ r _ b 0 e u v same h.1)

    flush-Attached :
        (u : Store)
        → Attached u
        → Ensures
            (λ _ v. Attached v)
            (λ x v. (x ≡ cuda_failure) × Attached v)
            (kv_flush_page_table u)
    flush-Attached u h =
        let run =
          both (kv_flush_page_table u) (kv_flush_page_table-Keeps n others g u h.0)
            (flush-SameTable u) in
        weaken_error (mono run λ _ v (inv, same). moved u v same inv h)
          λ x v h'. (h'.1.0, moved u v h'.1.1 h'.0 h)

    attach_found-Attached :
        Ensures
          (λ c u. (c ≡ true) × Attached u)
          (λ x u. (x ≡ cuda_failure) × Attached u)
          (attach_found g a (some (e ∷ [])) t)
    unfolding attach_found
    attach_found-Attached =
        bind (weaken_error items-Attached λ _ _ bot. absurd bot)
          λ _ u h. bind (flush-Attached u h) λ _ v h'. returns (refl, h')

    attach_checked-Attached :
        Ensures
          (λ c u. (c ≡ true) × Attached u)
          (λ x u. (x ≡ cuda_failure) × Attached u)
          (attach_checked g a 1 t)
    unfolding attach_checked look
    attach_checked-Attached = rw checked attach_found-Attached

  -- A call that finds a published entry whose layers are all there
  finds :
      (gl : Global) (key : List ℕ) (key_len row blk from : ℤ) (h : BlockHash) (e : Entry)
      → parse_block_hash (some key) key_len ≡ done h
      → in_range g row blk ≡ true
      → find h gl.cache ≡ some e
      → length e ≡ g.num_layers
      → All (Hashed gl) e
      → check_items g gl
          (record {
            keys = key;
            key_len = key_len;
            rows = λ _. row;
            logical_blocks = λ _. blk;
            required_from_blocks = λ _. from;
          })
          1
          0
          []
        ≡ done (some (e ∷ []))
  unfolding check_items check_item lookup_item
  finds gl key key_len row blk from h e parsed inside found layers hashed =
      let start : 0 * pos_part key_len ≡ 0 = omega arith in
      rw
        (
          inside,
          start,
          parsed,
          usable_entry-Hashed g gl h (pos_part blk) (clamp_required g from) e found layers hashed,
        )
        refl

  -- The invariant holds, and the row and block behind `to` names the blocks that the row and block behind
  -- `from` had in `s`, layer for layer.
  abbrev pub Taken : Store → ℤ × ℤ → ℤ × ℤ → Store → Type 0
  Taken s from to u =
      Inv n others g u
      × ((li : ℕ)
          → li < g.num_layers
          → slot_of u (kv_pt g li (pos_part to.0) (pos_part to.1))
            ≡ slot_of s (kv_pt g li (pos_part from.0) (pos_part from.1)))

  module _ (s t : Store) (key : List ℕ) (key_len row blk : ℤ)
      (published : prefix_publish g (some key) key_len row blk s ≡ ok true t)
      (inv : Inv n others g s)
      (present : (li : ℕ)
        → li < g.num_layers
        → is_neg (slot_of s (kv_pt g li (pos_part row) (pos_part blk))) ≡ false) where
    done_ : Publish g key key_len row blk s t
    done_ = behind (prefix_publish-Post g key key_len row blk s) published refl

    kept : Inv n others g t
    kept = what_returned (
        subst (Ensures _ _) published
          (prefix_publish-Keeps n others g (some key) key_len row blk s inv))

    abbrev entry : Entry
    entry = slots_from g s.kv.page_table_host (pos_part row) (pos_part blk) 0 g.num_layers

    entry-IsFullEntry : IsFullEntry entry
    entry-IsFullEntry =
        slots_from-IsFullEntry g s.kv.page_table_host (pos_part row) (pos_part blk) 0 g.num_layers
          λ l lt. present l (omega arith)

    entry-Hashed : All (Hashed t.global) entry
    entry-Hashed =
        let e = done_.stored.entry in
        All-Hashed t.global entry entry-IsFullEntry
          (find-ids t.global done_.hash entry kept.consistent.named e.found) e.hashed

    -- A `prefix_publish` that returned true, of a row and block whose slots hold a block in every layer, is
    -- followed by attaches that succeed: `prefix_attach` of the key to any row and block in range, whatever
    -- it requires, returns true and gives the destination the blocks of the published row, layer for layer,
    -- and where the copy to the device fails it throws that failure with the destination filled.
    pub publish-attach :
        (row' blk' from : ℤ)
        → in_range g row' blk' ≡ true
        → Ensures
            (λ c u. (c ≡ true) × Taken s (row, blk) (row', blk') u)
            (λ x u. (x ≡ cuda_failure) × Taken s (row, blk) (row', blk') u)
            (prefix_attach g (some key) key_len row' blk' from t)
    unfolding prefix_attach prefix_attach_batch
    publish-attach row' blk' from inside =
        let (r, b) = in_range-lt g row' blk' inside in
        let layers =
          length-slots_from g s.kv.page_table_host (pos_part row) (pos_part blk) 0 g.num_layers in
        let checked =
          finds t.global key key_len row' blk' from done_.hash entry done_.parsed inside
            done_.stored.entry.found layers entry-Hashed in
        let run =
          attach_checked-Attached
            (record {
              keys = key;
              key_len = key_len;
              rows = λ _. row';
              logical_blocks = λ _. blk';
              required_from_blocks = λ _. from;
            })
            entry t kept checked entry-IsFullEntry r b in
        let slots =
          λ (u : Store) (h : Holds g (pos_part row') r (pos_part blk') b 0 entry u) (li : ℕ)
              (l : li < g.num_layers).
            Holds-slots_from g s.kv.page_table_host (pos_part row) (pos_part blk) (pos_part row') r
              (pos_part blk') b u 0 g.num_layers h li (omega arith) (omega arith) in
        rw done_.positive (
          weaken_error (mono run λ c u h. (h.0, (h.1.0, slots u h.1.1)))
            λ x u h. (h.0, (h.1.0, slots u h.1.1)))
