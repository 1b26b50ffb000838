-- ===== src/Kv/Bindings/Batch.antt =====
-- What a batch of prefix attaches and a `rebind` of src/kv/cache.cpp read of their arguments: `count`
-- elements of the arrays and of the key blob, and one source row for each row of the new handle.
use cohere_megakernel.Common.{
  ℕ, zero, suc, ◌+◌, ◌*◌, ◌≤◌, ◌<◌, ◌≡◌, refl, ap, fun_ext, ◌∙◌, arith, ◌&&◌, ◌||◌, not, Bool-cases,
  inl, inr, Option, none, some, List, [], ◌∷◌, ◌++◌, length, take, drop, if◌then◌else◌,
}
use cohere_megakernel.Common.Int.{
  ℤ, pos, pos_part, minus_one, below, int_lt, is_neg, int_eq, int_eq_iff,
}
use cohere_megakernel.Kv.Prefix.{Entry}
use cohere_megakernel.Kv.Global.{
  Global, source_row_out_of_range, duplicate_source_row, Attempt, done, fails,
}
use cohere_megakernel.Kv.State.{Geometry, State}
use cohere_megakernel.Kv.Store.{
  Store, and_then, outcome_of, pure, ◌>>◌, for_range, look, require, set_kv,
}
use cohere_megakernel.Kv.Decode.{Array}
use cohere_megakernel.Kv.Attach.{
  Batch, parse_block_hash, prefix_hash_bytes, lookup_item, check_item, check_items, attach_items,
  attach_found, attach_checked, ◌then_try◌, destination_of, with_entry,
}
use cohere_megakernel.Kv.Rebind.{
  check_sources, seen, owned, rebound, unsized, sized, size_evict, copy_row, copy_rows, rebuild,
}
use cohere_megakernel.Kv.Create.{checked_page_table_elems}
use cohere_megakernel.Kv.Bindings.Agree.{Agree, bind_cong, over_batch_cong}

take-append : {A : Type 0} (n : ℕ) (xs ys : List A) → n ≤ length xs → take n (xs ++ ys) ≡ take n xs
take-append zero xs ys le = refl
take-append (suc n) [] ys le = absurd (omega arith)
take-append (suc n) (x ∷ xs) ys le = ap (λ t. x ∷ t) (take-append n xs ys (omega arith))

pub take-drop :
    {A : Type 0} (m n : ℕ) (xs ys : List A)
    → m + n ≤ length xs
    → take n (drop m (xs ++ ys)) ≡ take n (drop m xs)
take-drop zero n xs ys le = take-append n xs ys (omega arith)
take-drop (suc m) n [] ys le = absurd (omega arith)
take-drop (suc m) n (x ∷ xs) ys le = take-drop m n xs ys (omega arith)

-- Of a key no more than its bytes are read.
pub parse_block_hash_cong :
    (m : ℕ) (keys tail tail' : List ℕ) (key_len : ℤ)
    → (key_len ≡ pos prefix_hash_bytes → m + prefix_hash_bytes ≤ length keys)
    → parse_block_hash (some (drop m (keys ++ tail))) key_len
      ≡ parse_block_hash (some (drop m (keys ++ tail'))) key_len
unfolding parse_block_hash
parse_block_hash_cong m keys tail tail' key_len enough =
    elim (Bool-cases (int_eq key_len (pos prefix_hash_bytes))) [
      | inr other ↦ rw other refl
      | inl sized ↦
          let le = enough ((int_eq_iff key_len (pos prefix_hash_bytes)).0 sized) in
          rw
            (
              take-drop m prefix_hash_bytes keys tail le,
              take-drop m prefix_hash_bytes keys tail' le,
            )
            refl
    ]

-- The checks of `n` items find an entry for each of them.
abbrev OneEach : ℕ → Attempt (Option (List Entry)) → Type 0
OneEach n (done (some es)) = length es ≡ n
OneEach n (done none) = Unit {0}
OneEach n (fails e) = Unit {0}

OneEach-suc :
    (n : ℕ) (found : Attempt (Option Entry)) (rest : Attempt (Option (List Entry)))
    → OneEach n rest
    → OneEach (suc n) (
        found then_try λ found. elim found [
          | none ↦ done none
          | some e ↦ rest then_try λ es. done (with_entry e es)
        ])
OneEach-suc n (fails e) rest h = tt
OneEach-suc n (done none) rest h = tt
OneEach-suc n (done (some e)) (fails _) h = tt
OneEach-suc n (done (some e)) (done none) h = tt
OneEach-suc n (done (some e)) (done (some es)) h = ap (λ k. suc k) h

check_items-OneEach :
    (g : Geometry) (gl : Global) (a : Batch) (n i : ℕ) (seen : List ℕ)
    → OneEach n (check_items g gl a n i seen)
unfolding check_items
check_items-OneEach g gl a zero i seen = refl
check_items-OneEach g gl a (suc n) i seen =
    OneEach-suc n (check_item g gl a i seen) _
      (check_items-OneEach g gl a n (suc i) (destination_of a i ∷ seen))

-- Two batches that agree on what the call reads
pub record Alike (count : ℕ) (a a' : Batch) : Type 0 where
  pub key_len : a.key_len ≡ a'.key_len
  pub rows : Agree count a.rows a'.rows
  pub blocks : Agree count a.logical_blocks a'.logical_blocks
  pub from : Agree count a.required_from_blocks a'.required_from_blocks
  pub keys :
      (i : ℕ)
      → i < count
      → parse_block_hash (some (drop (i * pos_part a.key_len) a.keys)) a.key_len
        ≡ parse_block_hash (some (drop (i * pos_part a'.key_len) a'.keys)) a'.key_len

module _ (g : Geometry) (count : ℕ) (a a' : Batch) (same : Alike count a a') where
  check_item_cong :
      (gl : Global) (i : ℕ) (seen : List ℕ)
      → i < count
      → check_item g gl a i seen ≡ check_item g gl a' i seen
  unfolding check_item lookup_item
  check_item_cong gl i seen l =
      rw (same.rows i l, same.blocks i l, same.from i l, same.keys i l) refl

  check_items_cong :
      (gl : Global) (n i : ℕ) (seen : List ℕ)
      → i + n ≤ count
      → check_items g gl a n i seen ≡ check_items g gl a' n i seen
  unfolding check_items
  check_items_cong gl zero i seen le = refl
  check_items_cong gl (suc n) i seen le =
      let l : i < count = omega arith in
      let to : destination_of a i ≡ destination_of a' i =
        rw (same.rows i l, same.blocks i l) refl in
      let rest : check_items g gl a n (suc i) (destination_of a i ∷ seen)
          ≡ check_items g gl a' n (suc i) (destination_of a' i ∷ seen) =
        check_items_cong gl n (suc i) (destination_of a i ∷ seen) (omega arith)
        ∙ ap (λ t. check_items g gl a' n (suc i) (t ∷ seen)) to in
      rw (check_item_cong gl i seen l) (
        ap
          (λ more. check_item g gl a' i seen then_try λ found. elim found [
            | none ↦ done none
            | some e ↦ more then_try λ es. done (with_entry e es)
          ])
          rest)

  -- As many entries as the checks have found are attached.
  attach_items_cong :
      (i : ℕ) (entries : List Entry)
      → i + length entries ≤ count
      → attach_items g a i entries ≡ attach_items g a' i entries
  unfolding attach_items
  attach_items_cong i [] le = refl
  attach_items_cong i (entry ∷ entries) le =
      let l : i < count = omega arith in
      rw (same.rows i l, same.blocks i l, attach_items_cong (suc i) entries (omega arith)) refl

  attach_found_cong :
      (found : Option (List Entry))
      → OneEach count (done found)
      → attach_found g a found ≡ attach_found g a' found
  unfolding attach_found
  attach_found_cong none n = refl
  attach_found_cong (some es) n = rw (attach_items_cong 0 es (omega arith)) refl

  attach_after_cong :
      (found : Attempt (Option (List Entry))) (s : Store)
      → OneEach count found
      → and_then (outcome_of found s) (attach_found g a)
        ≡ and_then (outcome_of found s) (attach_found g a')
  attach_after_cong (fails e) s n = refl
  attach_after_cong (done found) s n = rw (attach_found_cong found n) refl

  pub attach_checked_cong : attach_checked g a count ≡ attach_checked g a' count
  unfolding attach_checked look
  attach_checked_cong = fun_ext λ s.
      ap (λ found. and_then (outcome_of found s) (attach_found g a))
        (check_items_cong s.global count 0 [] (omega arith))
      ∙ attach_after_cong (check_items g s.global a' count 0 []) s
          (check_items-OneEach g s.global a' count 0 [])

module _ (g : Geometry) (src src' : Array) (n : ℕ) (same : Agree n src src') where
  pub check_sources_cong :
      (k d : ℕ) (rows : List ℕ)
      → d + k ≤ n
      → check_sources g src k d rows ≡ check_sources g src' k d rows
  unfolding check_sources
  check_sources_cong zero d rows le = refl
  check_sources_cong (suc k) d rows le =
      let l : d < n = omega arith in
      let row = src' d in
      rw (same d l) (
        ap
          (λ rest. do
            require (not (int_lt row minus_one) && below row g.bs) source_row_out_of_range
            require (is_neg row || not (seen (pos_part row) rows)) duplicate_source_row
            rest)
          (check_sources_cong k (suc d) (if is_neg row then rows else pos_part row ∷ rows)
            (omega arith)))

  copy_row_cong :
      (old : State) (g' : Geometry) (d : ℕ)
      → d < n
      → copy_row g old g' src d ≡ copy_row g old g' src' d
  unfolding copy_row
  copy_row_cong old g' d l = rw (same d l) refl

  copy_rows_cong :
      (old : State) (g' : Geometry) → g'.bs ≡ n → copy_rows g old g' src ≡ copy_rows g old g' src'
  unfolding copy_rows
  copy_rows_cong old g' e =
      let rows : for_range g'.bs 0 tt (λ d _. copy_row g old g' src d)
          ≡ for_range g'.bs 0 tt (λ d _. copy_row g old g' src' d) =
        over_batch_cong g'.bs tt _ _ λ d l c. copy_row_cong old g' d (omega arith) in
      rw rows refl

  pub rebuild_cong :
      (old : State) (page_table seqlens active : ℕ)
      → rebuild g old src n page_table seqlens active
        ≡ rebuild g old src' n page_table seqlens active
  unfolding rebuild
  rebuild_cong old page_table seqlens active =
      let unset = rebound g n 0 page_table seqlens active in
      let made = λ (elems : ℕ). rebound g n elems page_table seqlens active in
      bind_cong (set_kv (unsized unset old)) _ _ λ _.
        bind_cong
          (owned unset (checked_page_table_elems unset.num_layers unset.bs unset.max_pages_per_seq))
          _ _
          λ elems.
            ap
              (λ rows. do
                set_kv (sized (made elems) old)
                owned (made elems) (do size_evict (made elems); rows)
                pure (made elems))
              (copy_rows_cong old (made elems) refl)
