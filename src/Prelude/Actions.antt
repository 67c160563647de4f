-- ===== src/Prelude/Actions.antt =====
-- How a call of the source ends: with a value, with an `Err`, or with a panic (an `unwrap` of
-- nothing). The state comes back in every case, since what was written stays written.
use mathlib.Core.Option.{Option, none, some}

pub data Outcome (E A : Type 0) : Type 0 where
  ok : A → Outcome E A
  err : E → Outcome E A
  panic : Outcome E A

-- A fallible operation over a mutable state `S`.
abbrev pub Action : Type 0 → Type 0 → Type 0 → Type 0
Action S E A = S → Outcome E A × S

module _ {S E A : Type 0} where
  abbrev pub pure : A → Action S E A
  pure a s = (ok a, s)

  abbrev pub raise : E → Action S E A
  raise e s = (err e, s)

  -- `option.unwrap()`.
  abbrev pub unwrap : Option A → Action S E A
  unwrap none s = (panic, s)
  unwrap (some a) s = (ok a, s)

infixl 5 ◌>>=◌ ◌>>◌
abbrev pub ◌>>=◌ : {S E A B : Type 0} → Action S E A → (A → Action S E B) → Action S E B
◌>>=◌ m f s =
    let (r, s') = m s in elim r [ ok a ↦ f a s' | err e ↦ (err e, s') | panic ↦ (panic, s') ]

abbrev pub ◌>>◌ : {S E A B : Type 0} → Action S E A → Action S E B → Action S E B
m >> k = m >>= λ _. k

-- `result.map_err(f)`.
abbrev pub map_err : {E F A : Type 0} → (E → F) → Outcome E A → Outcome F A
map_err f (ok a) = ok a
map_err f (err e) = err (f e)
map_err f panic = panic

-- A call of a service that stands outside the program: it changes the service's state, and answers
-- with a `Result`; it cannot panic.
pub data Reply (E A : Type 0) : Type 0 where
  done : A → Reply E A
  failed : E → Reply E A

abbrev pub Call : Type 0 → Type 0 → Type 0 → Type 0
Call S E A = S → Reply E A × S

abbrev pub of_reply : {E F A : Type 0} → (E → F) → Reply E A → Outcome F A
of_reply f (done a) = ok a
of_reply f (failed e) = err (f e)

abbrev pub answer : {E A : Type 0} → Reply E A → Outcome E A
answer (done a) = ok a
answer (failed e) = err e

-- Where a call returns, the postcondition holds of its value and its last state. It does not panic;
-- of a call that fails nothing is said.
abbrev pub Ends : {S E A : Type 0} → (A → S → Type 0) → Outcome E A × S → Type 0
Ends P (ok a, s) = P a s
Ends P (err _, s) = Unit {0}
Ends P (panic, s) = ⊥

bind_from :
    {S E A B : Type 0} (P : A → S → Type 0) (Q : B → S → Type 0) (f : A → Action S E B)
    (r : Outcome E A × S)
    → Ends P r
    → ((a : A) (s : S) → P a s → Ends Q (f a s))
    → Ends {E = E} Q (elim r.0 [ ok a ↦ f a r.1 | err e ↦ (err e, r.1) | panic ↦ (panic, r.1) ])
bind_from P Q f (ok a, s) h k = k a s h
bind_from P Q f (err e, s) h k = tt
bind_from P Q f (panic, s) h k = h

-- The rule for `m >>= f`.
pub Ends-bind :
    {S E A B : Type 0} (P : A → S → Type 0) (Q : B → S → Type 0) (m : Action S E A)
    (f : A → Action S E B) (s : S)
    → Ends P (m s)
    → ((a : A) (t : S) → P a t → Ends Q (f a t))
    → Ends Q ((m >>= f) s)
Ends-bind P Q m f s = bind_from P Q f (m s)

pub Ends-mono :
    {S E A : Type 0} (P Q : A → S → Type 0) (r : Outcome E A × S)
    → ((a : A) (s : S) → P a s → Q a s)
    → Ends P r
    → Ends Q r
Ends-mono P Q (ok a, s) k h = k a s h
Ends-mono P Q (err _, s) k h = tt
Ends-mono P Q (panic, s) k h = h
