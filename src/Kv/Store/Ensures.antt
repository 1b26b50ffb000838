-- ===== src/Kv/Store/Ensures.antt =====
-- Postconditions of calls, with rules for sequences and loops.
use cohere_megakernel.Common.{
  ℕ, zero, suc, ◌+◌, ◌≤◌, ◌<◌, arith, refl, subst, Bool, true, false, ◌≡◌, if◌then◌else◌,
}
use cohere_megakernel.Kv.Global.{KvError}
use cohere_megakernel.Kv.Store.{
  Store, Outcome, ok, throws, undefined, M, and_then, for_range, for_down, require,
}

-- The call returns with `Q`, or throws with `E`; it does not run into undefined behaviour.
pub data Ensures {A : Type 0} (Q : A → Store → Type 0) (E : KvError → Store → Type 0)
    : Outcome A → Type 0 where
  returns : {a : A} {s : Store} → Q a s → Ensures Q E (ok a s)
  raises : {e : KvError} {s : Store} → E e s → Ensures Q E (throws e s)

module _ {A : Type 0} {Q : A → Store → Type 0} {E : KvError → Store → Type 0} where
  pub bind :
      {B : Type 0} {R : B → Store → Type 0} {r : Outcome A} {k : A → M B}
      → Ensures Q E r
      → ((a : A) (s : Store) → Q a s → Ensures R E (k a s))
      → Ensures R E (and_then r k)
  bind (returns q) next = next _ _ q
  bind (raises e) next = raises e

  pub mono :
      {R : A → Store → Type 0} {r : Outcome A}
      → Ensures Q E r
      → ((a : A) (s : Store) → Q a s → R a s)
      → Ensures R E r
  mono (returns q) weaken = returns (weaken _ _ q)
  mono (raises e) weaken = raises e

  pub weaken_error :
      {F : KvError → Store → Type 0} {r : Outcome A}
      → Ensures Q E r
      → ((e : KvError) (s : Store) → E e s → F e s)
      → Ensures Q F r
  weaken_error (returns q) weaken = returns q
  weaken_error (raises e) weaken = raises (weaken _ _ e)

pub what_returned :
    {A : Type 0} {Q : A → Store → Type 0} {E : KvError → Store → Type 0} {a : A} {s : Store}
    → Ensures Q E (ok a s)
    → Q a s
what_returned (returns q) = q

-- Two postconditions of one call.
pub both :
    {A : Type 0} {Q Q' : A → Store → Type 0} {E E' : KvError → Store → Type 0} (r : Outcome A)
    → Ensures Q E r
    → Ensures Q' E' r
    → Ensures (λ a s. Q a s × Q' a s) (λ e s. E e s × E' e s) r
both (ok a s) (returns q) (returns q') = returns (q, q')
both (throws e s) (raises p) (raises p') = raises (p, p')
both undefined first second = elim first [ ]

-- A call keeps `P`, whether it returns or throws.
abbrev pub Keeps : {A : Type 0} → (Store → Type 0) → M A → Type 0
Keeps P m = (s : Store) → P s → Ensures (λ _ t. P t) (λ _ t. P t) (m s)

-- A call keeps `P` and does not throw.
abbrev pub Runs : {A : Type 0} → (Store → Type 0) → M A → Type 0
Runs P m = (s : Store) → P s → Ensures (λ _ t. P t) (λ _ _. ⊥) (m s)

pub Runs-Keeps : {A : Type 0} {P : Store → Type 0} (m : M A) → Runs P m → Keeps P m
Runs-Keeps m run s p = weaken_error (run s p) λ _ _ bot. absurd bot

pub Runs-bind :
    {A B : Type 0} {P : Store → Type 0} (m : M A) (k : A → M B)
    → Runs P m
    → ((a : A) → Runs P (k a))
    → Runs P (λ s. and_then (m s) k)
Runs-bind m k first next s p = bind (first s p) λ a t. next a t

-- The loop rule: `P i` holds before round `i`, and each round leads on or throws with `E`.
pub for_range-Ensures :
    {A : Type 0} (P : ℕ → A → Store → Type 0) (E : KvError → Store → Type 0) (body : ℕ → A → M A)
    (n i : ℕ)
    → ((j : ℕ) (a : A) (s : Store)
        → i ≤ j
        → j < i + n
        → P j a s
        → Ensures (P (suc j)) E (body j a s))
    → (a : A) (s : Store) → P i a s
    → Ensures (P (i + n)) E (for_range n i a body s)
unfolding for_range
for_range-Ensures P E body zero i step a s p = returns (subst (λ k. P k a s) (omega arith) p)
for_range-Ensures P E body (suc n) i step a s p =
    bind (step i a s (omega arith) (omega arith) p) λ b t q.
      subst (λ k. Ensures (P k) E (for_range n (suc i) b body t)) (omega arith)
        (for_range-Ensures P E body n (suc i)
          (λ j c u lo hi. step j c u (omega arith) (omega arith)) b t q)

pub for_range-Keeps :
    {A : Type 0} (P : Store → Type 0) (body : ℕ → A → M A) (n i : ℕ)
    → ((j : ℕ) (a : A) → i ≤ j → j < i + n → Keeps P (body j a))
    → (a : A) → Keeps P (for_range n i a body)
for_range-Keeps P body n i step a s p =
    for_range-Ensures (λ _ _. P) (λ _. P) body n i (λ j b t lo hi. step j b lo hi t) a s p

-- The same downwards: `P i` holds where the rounds from `i` on are done.
pub for_down-Ensures :
    (P : ℕ → Store → Type 0) (E : KvError → Store → Type 0) (body : ℕ → M (Unit {0})) (n : ℕ)
    → ((j : ℕ) (s : Store) → j < n → P (suc j) s → Ensures (λ _ t. P j t) E (body j s))
    → (s : Store) → P n s
    → Ensures (λ _ t. P 0 t) E (for_down n body s)
unfolding for_down
for_down-Ensures P E body zero step s p = returns p
for_down-Ensures P E body (suc n) step s p =
    bind (step n s (omega arith) p)
      λ _ t q. for_down-Ensures P E body n (λ j u l. step j u (omega arith)) t q

pub for_range-Runs :
    {A : Type 0} (P : Store → Type 0) (body : ℕ → A → M A) (n i : ℕ)
    → ((j : ℕ) (a : A) → i ≤ j → j < i + n → Runs P (body j a))
    → (a : A) → Runs P (for_range n i a body)
for_range-Runs P body n i step a s p =
    for_range-Ensures (λ _ _. P) (λ _ _. ⊥) body n i (λ j b t lo hi. step j b lo hi t) a s p

pub for_down-Keeps :
    (P : Store → Type 0) (body : ℕ → M (Unit {0})) (n : ℕ)
    → ((j : ℕ) → j < n → Keeps P (body j))
    → Keeps P (for_down n body)
unfolding for_down
for_down-Keeps P body zero step s p = returns p
for_down-Keeps P body (suc n) step s p =
    bind (step n (omega arith) s p)
      λ _ t q. for_down-Keeps P body n (λ j l. step j (omega arith)) t q

-- Two calls in a row.
pub Keeps-bind :
    {A B : Type 0} {P : Store → Type 0} (m : M A) (k : A → M B)
    → Keeps P m
    → ((a : A) → Keeps P (k a))
    → Keeps P (λ s. and_then (m s) k)
Keeps-bind m k first next s p = bind (first s p) (λ a t. next a t)

pub Keeps-if :
    {A : Type 0} {P : Store → Type 0} (b : Bool) (m k : M A)
    → (b ≡ true → Keeps P m)
    → (b ≡ false → Keeps P k)
    → Keeps P (if b then m else k)
Keeps-if true m k yes_ no_ = yes_ refl
Keeps-if false m k yes_ no_ = no_ refl

pub Runs-if :
    {A : Type 0} {P : Store → Type 0} (b : Bool) (m k : M A)
    → (b ≡ true → Runs P m)
    → (b ≡ false → Runs P k)
    → Runs P (if b then m else k)
Runs-if true m k yes_ no_ = yes_ refl
Runs-if false m k yes_ no_ = no_ refl

pub require-Keeps : {P : Store → Type 0} (b : Bool) (e : KvError) → Keeps P (require b e)
require-Keeps true e s p = returns p
require-Keeps false e s p = raises p

pub require-then :
    {A : Type 0} {P : Store → Type 0} (b : Bool) (e : KvError) (k : M A)
    → (b ≡ true → Keeps P k)
    → Keeps P (λ s. and_then (require b e s) (λ _. k))
require-then true e k next s p = next refl s p
require-then false e k next s p = raises p
