-- ===== src/Runtime/Failure.antt =====
-- The errors that src/decode/runtime.cu throws, by their messages, and results of its pure parts.
-- `std::runtime_error` and `MkError`, which is one, are not told apart.
use cohere_megakernel.Common.{Bool, true, false, ◌≡◌, refl}
use cohere_megakernel.Kv.Global.{KvError}

pub data RuntimeError : Type 0 where
  invalid_geometry max_splits_too_small head_dim_not_multiple queue_exceeds_capacity : RuntimeError
  attn_drain_buffers_missing no_rows : RuntimeError
  batch_size_unsupported dimensions_not_positive buffers_missing jit_missing : RuntimeError
  eps_not_positive variants_invalid zero_region_without_pointer : RuntimeError
  slot_row_out_of_range slot_outside_context temperature_negative : RuntimeError
  no_bucket_for_context callback_failed stream_failure : RuntimeError
  watchdog_expired : RuntimeError
  max_new_not_positive hidden_not_positive vocab_not_positive start_pos_negative : RuntimeError
  generated_ids_missing kv_handle_missing buckets_not_increasing variant_invalid : RuntimeError
  start_pos_rows_not_batch start_pos_row_negative start_pos_not_maximum : RuntimeError
  horizon_exceeds_int32 horizon_not_covered : RuntimeError
  of_kv : KvError → RuntimeError

pub data Result (A : Type 0) : Type 0 where
  returned : A → Result A
  thrown : RuntimeError → Result A

module _ {A B : Type 0} where
  infixl 5 ◌>>=◌ ◌>>◌
  abbrev pub ◌>>=◌ : Result A → (A → Result B) → Result B
  returned a >>= k = k a
  thrown e >>= k = thrown e

  abbrev pub ◌>>◌ : Result A → Result B → Result B
  m >> k = m >>= λ _. k

abbrev pub require : Bool → RuntimeError → Result (Unit {0})
require true e = returned tt
require false e = thrown e

-- What holds of a result where there is one
pub data Returning {A : Type 0} (Q : A → Type 0) : Result A → Type 0 where
  gives : {a : A} → Q a → Returning Q (returned a)
  fails : {e : RuntimeError} → Returning Q (thrown e)

pub what_it_gives : {A : Type 0} {Q : A → Type 0} {a : A} → Returning Q (returned a) → Q a
what_it_gives (gives q) = q

module _ {A B : Type 0} {P : A → Type 0} {Q : B → Type 0} where
  pub Returning-bind :
      {m : Result A} {k : A → Result B}
      → Returning P m
      → ((a : A) → P a → Returning Q (k a))
      → Returning Q (m >>= k)
  Returning-bind (gives h) next = next _ h
  Returning-bind fails next = fails

module _ {B : Type 0} {Q : B → Type 0} where
  pub Returning-require :
      (c : Bool) (e : RuntimeError) {k : Result B}
      → (c ≡ true → Returning Q k)
      → Returning Q (require c e >> k)
  Returning-require true e next = next refl
  Returning-require false e next = fails

pub Returning-always :
    {A : Type 0} {Q : A → Type 0} (m : Result A) → ((a : A) → Q a) → Returning Q m
Returning-always (returned a) h = gives (h a)
Returning-always (thrown e) h = fails

pub Returning-weaken :
    {A : Type 0} {P Q : A → Type 0} {m : Result A}
    → Returning P m
    → ((a : A) → P a → Q a)
    → Returning Q m
Returning-weaken (gives h) weaker = gives (weaker _ h)
Returning-weaken fails weaker = fails
