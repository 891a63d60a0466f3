-- ===== src/WebRtc/Outcomes.antt =====
-- What is known of the error that code fails with, and of the value and the state that it returns with.
use just_webrtc.Common.{◌≡◌, ap, subst, ◌∙◌, sym, inl, inr, arith}
use just_webrtc.Common.Action.{
  Result, ok, err, ret, fail, panic, Action, ◌>>=◌, pure, modify, ask, Outcome-cases, Result-cases,
}

module _ {E S : Type 0} where
  -- Whatever it fails with is as `Q` says.
  unfoldable pub FailsWith : {A : Type 0} → Action E S A → (E → Type 0) → Type 0
  FailsWith m Q = (s : S) (e : E) → (m s).0 ≡ fail e → Q e

  -- From this state, it returns only as `Q` says.
  unfoldable pub ReturnsAt : {A : Type 0} → S → Action E S A → (A → S → Type 0) → Type 0
  ReturnsAt {A} s m Q = (a : A) → (m s).0 ≡ ret a → Q a (m s).1

  unfoldable pub Returns : {A : Type 0} → Action E S A → (A → S → Type 0) → Type 0
  unfolding ReturnsAt
  Returns m Q = (s : S) → ReturnsAt s m Q

  bind_value :
      {A B : Type 0} (m : Action E S A) (f : A → Action E S B) (s : S) (a : A)
      → (m s).0 ≡ ret a
      → (m >>= f) s ≡ f a (m s).1
  bind_value m f s a e = ground arith

  bind_error :
      {A B : Type 0} (m : Action E S A) (f : A → Action E S B) (s : S) (e : E)
      → (m s).0 ≡ fail e
      → (m >>= f) s ≡ (fail e, (m s).1)
  bind_error m f s e failed = ground arith

  bind_panic :
      {A B : Type 0} (m : Action E S A) (f : A → Action E S B) (s : S)
      → (m s).0 ≡ panic
      → (m >>= f) s ≡ (panic, (m s).1)
  bind_panic m f s e = ground arith

  pub FailsWith-bind :
      {A B : Type 0} (Q : E → Type 0) (m : Action E S A) (f : A → Action E S B)
      → FailsWith m Q
      → ((a : A) → FailsWith (f a) Q)
      → FailsWith (m >>= f) Q
  unfolding FailsWith
  FailsWith-bind Q m f first then s e failed = elim (Outcome-cases (m s).0) [
    | inl (a, r) ↦ then a (m s).1 e (ap (λ o. o.0) (sym (bind_value m f s a r)) ∙ failed)
    | inr (inl (e', r)) ↦
        first s e (r ∙ ground (arith, ap (λ o. o.0) (bind_error m f s e' r), failed))
    | inr (inr r) ↦ ground (arith, ap (λ o. o.0) (bind_panic m f s r), failed)
  ]

  pub FailsWith-modify : (Q : E → Type 0) (f : S → S) → FailsWith (modify {E = E} {S = S} f) Q
  unfolding FailsWith
  FailsWith-modify Q f s e failed = ground arith

  pub FailsWith-ask :
      {A : Type 0} (Q : E → Type 0) (answer : S → Result E A) (note : S → S)
      → ((s : S) (e : E) → answer s ≡ err e → Q e)
      → FailsWith (ask answer note) Q
  unfolding FailsWith
  FailsWith-ask Q answer note known s e failed = elim (Result-cases (answer s)) [
    | inl (a, r) ↦ ground (arith, r, failed)
    | inr (e', r) ↦ known s e (ground (arith, r, failed))
  ]

  pub FailsWith-weaken :
      {A : Type 0} (Q R : E → Type 0) (m : Action E S A)
      → ((e : E) → Q e → R e)
      → FailsWith m Q
      → FailsWith m R
  unfolding FailsWith
  FailsWith-weaken Q R m weaker known s e failed = weaker e (known s e failed)

  pub Returns-bind :
      {A B : Type 0} (P : A → S → Type 0) (Q : B → S → Type 0) (m : Action E S A)
      (f : A → Action E S B)
      → Returns m P
      → ((a : A) (s : S) → P a s → ReturnsAt s (f a) Q)
      → Returns (m >>= f) Q
  unfolding Returns ReturnsAt
  Returns-bind P Q m f first then s b returned = elim (Outcome-cases (m s).0) [
    | inl (a, r) ↦
        subst (λ o. Q b o.1) (sym (bind_value m f s a r))
          (then a (m s).1 (first s a r) b (ap (λ o. o.0) (sym (bind_value m f s a r)) ∙ returned))
    | inr (inl (e', r)) ↦ ground (arith, ap (λ o. o.0) (bind_error m f s e' r), returned)
    | inr (inr r) ↦ ground (arith, ap (λ o. o.0) (bind_panic m f s r), returned)
  ]

  pub Returns-ReturnsAt :
      {A : Type 0} (Q : A → S → Type 0) (m : Action E S A) → Returns m Q → (s : S) → ReturnsAt s m Q
  unfolding Returns
  Returns-ReturnsAt Q m known s = known s

  pub Returns-any : {A : Type 0} (m : Action E S A) → Returns m (λ _ _. Unit {0})
  unfolding Returns ReturnsAt
  Returns-any m s a e = tt

  -- A call that returns was answered so.
  pub Returns-ask :
      {A : Type 0} (answer : S → Result E A) (note : S → S)
      → Returns (ask answer note) (λ a t. (s : S) × (answer s ≡ ok a) × (t ≡ note s))
  unfolding Returns ReturnsAt
  Returns-ask answer note s a e = elim (Result-cases (answer s)) [
    | inl (a', r) ↦ (s, ground (arith, r, e), ground (arith, r))
    | inr (why, r) ↦ ground (arith, r, e)
  ]

module _ (E S : Type 0) where
  pub FailsWith-pure : {A : Type 0} (Q : E → Type 0) (a : A) → FailsWith (pure {E = E} {S = S} a) Q
  unfolding FailsWith
  FailsWith-pure Q a s e failed = ground arith

  pub Returns-pure :
      {A : Type 0} (Q : A → S → Type 0) (a : A) (s : S)
      → Q a s
      → ReturnsAt s (pure {E = E} {S = S} a) Q
  unfolding ReturnsAt
  Returns-pure Q a s q b e = subst (λ o. Q o s) (ground (arith, e)) q
