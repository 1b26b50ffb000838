-- ===== src/Kv/Publish/Found.antt =====
-- What the cache of src/kv/cache.cpp has behind a `prefix_publish` that returned true.
use cohere_megakernel.Common.{
  ℕ, zero, suc, ◌<◌, ◌≡◌, refl, ◌∙◌, sym, ap, subst, arith, true, false, not, Option, none, some,
  List, [], ◌∷◌, length, All, lt→ltb, ◌==◌, Bool-cases, inl, inr,
}
use mathlib.Core.Bool.{false≢true}
use cohere_megakernel.Common.Int.{ℤ, pos, negsuc, pos_part, is_nonpos}
use cohere_megakernel.Kv.Pool.{BlockHash}
use cohere_megakernel.Kv.Prefix.{Entry, find, has_any, lists, hash_eq_iff}
use cohere_megakernel.Kv.Global.{Global, done, missing_arguments, row_or_block_out_of_range}
use cohere_megakernel.Kv.State.{Vector, Geometry, kv_pt}
use cohere_megakernel.Kv.Store.{Store}
use cohere_megakernel.Kv.Store.Post.{
  Post, after, Post-bind, Post-weaken, require-Post, look-Post, read_page-Post,
}
use cohere_megakernel.Kv.Attach.{
  parse_block_hash, in_range, layers_can_attach, prefix_entry_can_attach, usable_entry,
}
use cohere_megakernel.Kv.Publish.{
  collect_entry, published, store_entry, publish_new, publish_at, prefix_publish, check_unhashed,
}
use cohere_megakernel.Kv.Publish.Mark.{mark_blocks-if}

-- The ids in a row's slots, from layer `li` on
abbrev pub slots_from : Geometry → Vector ℤ → ℕ → ℕ → ℕ → ℕ → Entry
slots_from g v row blk li zero = []
slots_from g v row blk li (suc m) = v.at (kv_pt g li row blk) ∷ slots_from g v row blk (suc li) m

-- A block of the pool that carries a hash
abbrev pub Hashed : Global → ℤ → Type 0
Hashed gl (pos i) = (i < gl.pool.size) × ((gl.pool.block i).has_hash ≡ true)
Hashed gl (negsuc k) = ⊥

-- The cache has the entry under its key, and the blocks carry hashes.
pub record Found (gl : Global) (h : BlockHash) (e : Entry) : Type 0 where
  pub found : find h gl.cache ≡ some e
  pub hashed : (i : ℕ) → lists i e ≡ true → (gl.pool.block i).has_hash ≡ true

published-size :
    (h : BlockHash) (e : Entry) (gl : Global) → (published h e gl).pool.size ≡ gl.pool.size
unfolding published
published-size h e gl = refl

published-Found : (h : BlockHash) (e : Entry) (gl : Global) → Found (published h e gl) h e
unfolding published find
published-Found h e gl = record {
  found = (let same = (hash_eq_iff h h).1 refl in rw same refl);
  hashed = λ i named. ground (arith, mark_blocks-if h e gl.pool.block i);
}

module _ (g : Geometry) where
  collect_entry-Post :
      (h : BlockHash) (row blk m li : ℕ) (s : Store)
      → Post
          (λ e t. (t ≡ s) × (e ≡ slots_from g s.kv.page_table_host row blk li m))
          (collect_entry g h row blk m li s)
  unfolding collect_entry
  collect_entry-Post h row blk zero li s = after (refl, refl)
  collect_entry-Post h row blk (suc m) li s =
      Post-bind (read_page-Post (kv_pt g li row blk) s) λ id t (same, read).
        Post-bind (look-Post (check_unhashed h id) t) λ _ u (same', fine).
          Post-bind (collect_entry-Post h row blk m (suc li) u) λ ids v (same'', rest). after (
            same'' ∙ same' ∙ same,
            ap (λ z. z ∷ ids) read
                ∙ ap (λ es. s.kv.page_table_host.at (kv_pt g li row blk) ∷ es)
                    (rest
                      ∙ ap (λ (x : Store). slots_from g x.kv.page_table_host row blk (suc li) m)
                          (same' ∙ same)),
          )

  -- What a publish that returned true has done
  pub record Stored (row blk : ℕ) (h : BlockHash) (s t : Store) : Type 0 where
    pub kept : t.kv ≡ s.kv
    pub size : t.global.pool.size ≡ s.global.pool.size
    pub entry : Found t.global h (slots_from g s.kv.page_table_host row blk 0 g.num_layers)

  store_entry-Post :
      (row blk : ℕ) (h : BlockHash) (e : Entry) (s : Store)
      → e ≡ slots_from g s.kv.page_table_host row blk 0 g.num_layers
      → Post (λ b t. b ≡ true → Stored row blk h s t) (store_entry h e s)
  unfolding store_entry
  store_entry-Post row blk h e s slots = elim (Bool-cases (has_any e)) [
    | inl some_block ↦ rw some_block (
        after λ _. record {
          kept = refl;
          size = published-size h e s.global;
          entry = subst (Found (published h e s.global) h) slots (published-Found h e s.global);
        })
    | inr nothing ↦ rw nothing (after λ no. absurd (false≢true no))
  ]

  publish_new-Post :
      (row blk : ℕ) (h : BlockHash) (found : Option Entry) (s : Store)
      → Post (λ b t. b ≡ true → Stored row blk h s t) (publish_new g h row blk found s)
  publish_new-Post row blk h (some e) s = after λ no. absurd (false≢true no)
  publish_new-Post row blk h none s =
      Post-bind (collect_entry-Post h row blk g.num_layers 0 s) λ e t (same, slots).
        Post-weaken
          (store_entry-Post row blk h e t (
            slots
            ∙ ap (λ (x : Store). slots_from g x.kv.page_table_host row blk 0 g.num_layers)
                (sym same)))
          λ b u stored done_. subst (λ x. Stored row blk h x u) same (stored done_)

  -- The key is a digest, and row and block are in range.
  pub record Publish (key : List ℕ) (key_len row blk : ℤ) (s t : Store) : Type 0 where
    pub hash : BlockHash
    pub parsed : parse_block_hash (some key) key_len ≡ done hash
    pub positive : is_nonpos key_len ≡ false
    pub inside : in_range g row blk ≡ true
    pub stored : Stored (pos_part row) (pos_part blk) hash s t

  pub prefix_publish-Post :
      (key : List ℕ) (key_len row blk : ℤ) (s : Store)
      → Post
          (λ b t. b ≡ true → Publish key key_len row blk s t)
          (prefix_publish g (some key) key_len row blk s)
  unfolding prefix_publish publish_at
  prefix_publish-Post key key_len row blk s =
      require-Post (not (is_nonpos key_len)) missing_arguments _ s λ positive.
        require-Post (in_range g row blk) row_or_block_out_of_range _ s λ inside.
          Post-bind (look-Post (λ _. parse_block_hash (some key) key_len) s) λ h t (same, parsed).
            Post-weaken (publish_new-Post (pos_part row) (pos_part blk) h (find h t.global.cache) t)
              λ b u stored done_. record {
                hash = h;
                parsed = parsed;
                positive = ground arith;
                inside = inside;
                stored =
                    subst (λ x. Stored (pos_part row) (pos_part blk) h x u) same (stored done_);
              }

-- An entry with a block for each layer, all of which carry a hash, can be attached.
layers_can_attach-Hashed :
    (g : Geometry) (gl : Global) (blk from li : ℕ) (e : Entry)
    → All (Hashed gl) e
    → layers_can_attach g gl blk from li e ≡ done true
unfolding layers_can_attach
layers_can_attach-Hashed g gl blk from li [] all = refl
layers_can_attach-Hashed g gl blk from li (pos i ∷ ids) all =
    let within = lt→ltb i gl.pool.size all.0.0 in
    rw (within, all.0.1, layers_can_attach-Hashed g gl blk from (suc li) ids all.1) refl
layers_can_attach-Hashed g gl blk from li (negsuc k ∷ ids) all = absurd all.0

pub usable_entry-Hashed :
    (g : Geometry) (gl : Global) (h : BlockHash) (blk from : ℕ) (e : Entry)
    → find h gl.cache ≡ some e
    → length e ≡ g.num_layers
    → All (Hashed gl) e
    → usable_entry g gl h blk from ≡ done (some e)
unfolding usable_entry prefix_entry_can_attach
usable_entry-Hashed g gl h blk from e found layers all =
    let can = layers_can_attach-Hashed g gl blk from 0 e all in
    let sized : (length e == g.num_layers) ≡ true = ground arith in
    rw (usable_entry, found, sized, can) refl

pub length-slots_from :
    (g : Geometry) (v : Vector ℤ) (row blk li m : ℕ) → length (slots_from g v row blk li m) ≡ m
length-slots_from g v row blk li zero = refl
length-slots_from g v row blk li (suc m) =
    ap (λ n. suc n) (length-slots_from g v row blk (suc li) m)
