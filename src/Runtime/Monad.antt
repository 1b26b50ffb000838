-- ===== src/Runtime/Monad.antt =====
-- Stateful code of src/decode/runtime.cu over a state `S`: it returns, or throws with the state as it
-- stands by then.
use cohere_megakernel.Common.{Bool, true, false}
use cohere_megakernel.Runtime.Failure.{RuntimeError, Result, returned, thrown}

pub data Outcome (S A : Type 0) : Type 0 where
  ok : A → S → Outcome S A
  throws : RuntimeError → S → Outcome S A

module _ {S : Type 0} where
  abbrev pub pure : {A : Type 0} → A → S → Outcome S A
  pure a s = ok a s

  abbrev pub and_then : {A B : Type 0} → Outcome S A → (A → S → Outcome S B) → Outcome S B
  and_then (ok a s) k = k a s
  and_then (throws e s) k = throws e s

  infixl 5 ◌>>=◌ ◌>>◌
  abbrev pub ◌>>=◌ : {A B : Type 0} → (S → Outcome S A) → (A → S → Outcome S B) → S → Outcome S B
  ◌>>=◌ m k s = and_then (m s) k

  abbrev pub ◌>>◌ : {A B : Type 0} → (S → Outcome S A) → (S → Outcome S B) → S → Outcome S B
  m >> k = m >>= λ _. k

  abbrev pub check : Bool → RuntimeError → S → Outcome S (Unit {0})
  check true e s = ok tt s
  check false e s = throws e s

  -- A part that reads and writes no state.
  abbrev pub lift : {A : Type 0} → Result A → S → Outcome S A
  lift (returned a) s = ok a s
  lift (thrown e) s = throws e s

  abbrev pub modify : (S → S) → S → Outcome S (Unit {0})
  modify f s = ok tt (f s)

  -- What holds of the value and the state behind a call, and of the error and the state.
  pub data Ends {A : Type 0} (Q : A → S → Type 0) (E : RuntimeError → S → Type 0)
      : Outcome S A → Type 0 where
    returns : {a : A} {s : S} → Q a s → Ends Q E (ok a s)
    raises : {e : RuntimeError} {s : S} → E e s → Ends Q E (throws e s)

  module _ {A B : Type 0} {Q : A → S → Type 0} {E : RuntimeError → S → Type 0} where
    pub Ends-bind :
        {R : B → S → Type 0} {r : Outcome S A} {k : A → S → Outcome S B}
        → Ends Q E r
        → ((a : A) (s : S) → Q a s → Ends R E (k a s))
        → Ends R E (and_then r k)
    Ends-bind (returns q) next = next _ _ q
    Ends-bind (raises e) next = raises e
