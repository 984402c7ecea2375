-- ===== src/Base/Actions.antt =====
-- Operations on a state that may end in a fault.
use mathlib.Core.Option.{Option, none, some}
use mmo_backend.Base.Faults.{Fault, Result, ok, fault}

abbrev pub Action : Type 0 → Type 0 → Type 0
Action S A = S → Result (A × S)

module _ {S A : Type 0} where
  abbrev pub pure : A → Action S A
  pure a s = ok (a, s)

  abbrev pub fail : Fault → Action S A
  fail e s = fault e

  abbrev pub gets : (S → A) → Action S A
  gets f s = ok (f s, s)

  abbrev pub need : Option A → Fault → Action S A
  need none e s = fault e
  need (some a) e s = ok (a, s)

abbrev pub modify : {S : Type 0} → (S → S) → Action S (Unit {0})
modify f s = ok (tt, f s)

infixl 5 ◌>>=◌ ◌>>◌
abbrev pub ◌>>=◌ : {S A B : Type 0} → Action S A → (A → Action S B) → Action S B
◌>>=◌ m f s = elim (m s) [ ok (a, s') ↦ f a s' | fault e ↦ fault e ]

abbrev pub ◌>>◌ : {S B : Type 0} → Action S (Unit {0}) → Action S B → Action S B
m >> k = m >>= λ _. k
