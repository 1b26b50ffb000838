-- ===== src/Kv/Store/Post.antt =====
-- What holds of value and state behind a call that returns, whatever else it may do.
use cohere_megakernel.Common.{
  ℕ, ◌≡◌, refl, subst, Bool, true, false, ◌⊎◌, inl, inr, Bool-cases, ltb,
}
use cohere_megakernel.Common.Int.{ℤ}
use cohere_megakernel.Kv.Global.{Global, KvError, Attempt, done, fails}
use cohere_megakernel.Kv.State.{write_at}
use cohere_megakernel.Kv.Store.{
  Store, Outcome, ok, throws, undefined, M, and_then, require, locked, look, outcome_of, read_page,
  write_page,
}
use cohere_megakernel.Kv.Store.Ensures.{Ensures, returns, raises}

pub data Post {A : Type 0} (Q : A → Store → Type 0) : Outcome A → Type 0 where
  after : {a : A} {s : Store} → Q a s → Post Q (ok a s)
  threw : {e : KvError} {s : Store} → Post Q (throws e s)
  broken : Post Q undefined

held : {A : Type 0} {Q : A → Store → Type 0} {a : A} {s : Store} → Post Q (ok a s) → Q a s
held (after q) = q

pub behind :
    {A : Type 0} {Q : A → Store → Type 0} {r : Outcome A} {a : A} {s : Store}
    → Post Q r
    → r ≡ ok a s
    → Q a s
behind {Q = Q} p e = held (subst (Post Q) e p)

module _ {A : Type 0} {P : A → Store → Type 0} where
  pub Post-bind :
      {B : Type 0} {Q : B → Store → Type 0} {r : Outcome A} {k : A → M B}
      → Post P r
      → ((a : A) (s : Store) → P a s → Post Q (k a s))
      → Post Q (and_then r k)
  Post-bind (after p) next = next _ _ p
  Post-bind threw next = threw
  Post-bind broken next = broken

  pub Post-weaken :
      {Q : A → Store → Type 0} {r : Outcome A}
      → Post P r
      → ((a : A) (s : Store) → P a s → Q a s)
      → Post Q r
  Post-weaken (after p) weaken = after (weaken _ _ p)
  Post-weaken threw weaken = threw
  Post-weaken broken weaken = broken

  -- A call that is known to return or throw
  pub Ensures-Post :
      {Q : A → Store → Type 0} {E : KvError → Store → Type 0} {r : Outcome A}
      → Ensures Q E r
      → Post P r
      → Ensures (λ a s. Q a s × P a s) E r
  Ensures-Post (returns q) (after p) = returns (q, p)
  Ensures-Post (raises e) threw = raises e

pub require-Post :
    {A : Type 0} {Q : A → Store → Type 0} (b : Bool) (e : KvError) (k : M A) (s : Store)
    → (b ≡ true → Post Q (k s))
    → Post Q (and_then (require b e s) λ _. k)
require-Post true e k s next = next refl
require-Post false e k s next = threw

outcome_of-Post :
    {A : Type 0} (r : Attempt A) (s : Store) → Post (λ a t. (t ≡ s) × (r ≡ done a)) (outcome_of r s)
outcome_of-Post (done a) s = after (refl, refl)
outcome_of-Post (fails e) s = threw

pub look-Post :
    {A : Type 0} (f : Global → Attempt A) (s : Store)
    → Post (λ a t. (t ≡ s) × (f s.global ≡ done a)) (look f s)
unfolding look
look-Post f s = outcome_of-Post (f s.global) s

Attempt-cases :
    {A : Type 0} (m : Attempt A) → ((a : A) × (m ≡ done a)) ⊎ ((e : KvError) × (m ≡ fails e))
Attempt-cases (done a) = inl (a, refl)
Attempt-cases (fails e) = inr (e, refl)

-- A call under the lock leaves the handle alone.
pub locked-Post :
    {A : Type 0} (f : Global → Attempt (A × Global)) (s : Store)
    → Post (λ _ t. t.kv ≡ s.kv) (locked f s)
unfolding locked
locked-Post f s = elim (Attempt-cases (f s.global)) [
  | inl (r, e) ↦ rw (locked, e) (after refl)
  | inr (x, e) ↦ rw (locked, e) threw
]

pub read_page-Post :
    (k : ℕ) (s : Store) → Post (λ z t. (t ≡ s) × (z ≡ s.kv.page_table_host.at k)) (read_page k s)
unfolding read_page
read_page-Post k s = elim (Bool-cases (ltb k s.kv.page_table_host.size)) [
  | inl within ↦ rw within (after (refl, refl))
  | inr outside ↦ rw outside broken
]

pub write_page-Post :
    (k : ℕ) (z : ℤ) (s : Store)
    → Post (λ _ t. t.kv.page_table_host ≡ write_at s.kv.page_table_host k z) (write_page k z s)
unfolding write_page
write_page-Post k z s = elim (Bool-cases (ltb k s.kv.page_table_host.size)) [
  | inl within ↦ rw within (after refl)
  | inr outside ↦ rw outside broken
]
