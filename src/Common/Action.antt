-- ===== src/Common/Action.antt =====
-- Code that changes a state `S` and may return early with an error `E` or panic.
use mathlib.Core.Path.{◌≡◌, refl}
use mathlib.Core.Logic.{◌⊎◌, inl, inr}
use mathlib.Core.Option.{Option, none, some}

-- Rust's `Result<A, E>`, as a value.
pub data Result (E A : Type 0) : Type 0 where
  ok : A → Result E A
  err : E → Result E A

pub data Outcome (E A : Type 0) : Type 0 where
  ret : A → Outcome E A
  fail : E → Outcome E A
  panic : Outcome E A

abbrev pub Action : Type 0 → Type 0 → Type 0 → Type 0
Action E S A = S → Outcome E A × S

infixl 5 ◌>>=◌ ◌>>◌
abbrev pub ◌>>=◌ : {E S A B : Type 0} → Action E S A → (A → Action E S B) → Action E S B
◌>>=◌ m f s = elim (m s).0 [
  | ret a ↦ f a (m s).1
  | fail e ↦ (fail e, (m s).1)
  | panic ↦ (panic, (m s).1)
]

abbrev pub ◌>>◌ : {E S B : Type 0} → Action E S (Unit {0}) → Action E S B → Action E S B
m >> k = m >>= λ _. k

abbrev pub pure : {E S A : Type 0} → A → Action E S A
pure a s = (ret a, s)

abbrev pub throw : {E S A : Type 0} → E → Action E S A
throw e s = (fail e, s)

-- `Option::ok_or(e)?`.
abbrev pub ok_or : {E S A : Type 0} → Option A → E → Action E S A
ok_or none e s = (fail e, s)
ok_or (some a) e s = (ret a, s)

-- Reads the state.
abbrev pub gets : {E S A : Type 0} → (S → A) → Action E S A
gets f s = (ret (f s), s)

abbrev pub modify : {E S : Type 0} → (S → S) → Action E S (Unit {0})
modify f s = (ret tt, f s)

-- Calls the library: `note` puts the call into the state.
abbrev pub ask : {E S A : Type 0} → (S → Result E A) → (S → S) → Action E S A
ask answer note s = elim (answer s) [ ok a ↦ (ret a, note s) | err e ↦ (fail e, note s) ]

abbrev pub IsPanic : {E A : Type 0} → Outcome E A → Type 0
IsPanic (ret a) = ⊥
IsPanic (fail e) = ⊥
IsPanic panic = Unit {0}

pub Result-cases :
    {E A : Type 0} (r : Result E A) → ((a : A) × (r ≡ ok a)) ⊎ ((e : E) × (r ≡ err e))
Result-cases (ok a) = inl (a, refl)
Result-cases (err e) = inr (e, refl)

pub Outcome-cases :
    {E A : Type 0} (r : Outcome E A)
    → ((a : A) × (r ≡ ret a)) ⊎ (((e : E) × (r ≡ fail e)) ⊎ (r ≡ panic))
Outcome-cases (ret a) = inl (a, refl)
Outcome-cases (fail e) = inr (inl (e, refl))
Outcome-cases panic = inr (inr refl)
