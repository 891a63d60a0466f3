-- ===== src/WebRtc/Calls.antt =====
-- Code that calls a library: the calls made so far are part of its state, and what the library
-- answers is a function of them.
use just_webrtc.Common.{◌≡◌, refl, sym, ap, ◌∙◌, inl, inr, ◌⊎◌, List, [], ◌++◌, arith}
use mathlib.Core.List.{append-nil, append_assoc}
use just_webrtc.Common.Action.{
  Result, ok, err, Outcome, ret, fail, Action, ◌>>=◌, pure, modify, ask, Result-cases,
}

ask_ok :
    {E S A : Type 0} (answer : S → Result E A) (note : S → S) (s : S) (a : A)
    → answer s ≡ ok a
    → ask answer note s ≡ (ret a, note s)
ask_ok answer note s a e = ground arith

ask_err :
    {E S A : Type 0} (answer : S → Result E A) (note : S → S) (s : S) (e : E)
    → answer s ≡ err e
    → ask answer note s ≡ (fail e, note s)
ask_err answer note s e failed = ground arith

module _ {S I : Type 0} (view : S → List I) where
  -- How a call may end: with a value after all that was planned, or with an error.
  unfoldable pub Ends : {E A : Type 0} → Outcome E A → (A → Type 0) → List I → Type 0
  Ends {E} {A} out P rest =
      ((a : A) × (out ≡ ret a) × P a × (rest ≡ [])) ⊎ ((e : E) × (out ≡ fail e))

  -- The action adds a beginning of the plan to what is seen of the state: all of it when it returns,
  -- and then its value is as `P` says. It does not panic.
  unfoldable pub Follows : {E A : Type 0} → Action E S A → List I → (A → Type 0) → Type 0
  unfolding Ends
  Follows m plan P =
      (s : S)
      → (done : List I) × (rest : List I) × (done ++ rest ≡ plan)
        × (view (m s).1 ≡ view s ++ done)
        × Ends (m s).0 P rest

  bind_value :
      {E A B : Type 0} (m : Action E S A) (f : A → Action E S B) (s : S) (a : A)
      → (m s).0 ≡ ret a
      → (m >>= f) s ≡ f a (m s).1
  bind_value m f s a e = ground arith

  bind_error :
      {E A B : Type 0} (m : Action E S A) (f : A → Action E S B) (s : S) (e : E)
      → (m s).0 ≡ fail e
      → (m >>= f) s ≡ (fail e, (m s).1)
  bind_error m f s e failed = ground arith

  pub Follows-bind :
      {E A B : Type 0} (P : A → Type 0) (Q : B → Type 0) (m : Action E S A) (f : A → Action E S B)
      (plan more : List I)
      → Follows m plan P
      → ((a : A) → P a → Follows (f a) more Q)
      → Follows (m >>= f) (plan ++ more) Q
  unfolding Follows Ends
  Follows-bind P Q m f plan more first then s =
      let (done, rest, whole, seen, ends) = first s in
      elim ends [
        | inl (a, e, p, none_left) ↦
            let (done', rest', whole', seen', ends') = then a p (m s).1 in
            let all : done ≡ plan =
              sym (append-nil done) ∙ ap (◌++◌ done) (sym none_left) ∙ whole in
            rw (bind_value m f s a e) (
              done ++ done',
              rest',
              append_assoc done done' rest' ∙ rw (whole', all),
              seen' ∙ rw seen (append_assoc (view s) done done'),
              ends',
            )
        | inr (e, failed) ↦ rw (bind_error m f s e failed) (
          done,
          rest ++ more,
          sym (append_assoc done rest more) ∙ ap (λ l. l ++ more) whole,
          seen,
          inr (e, refl),
        )
      ]

  pub Follows-pure :
      (E : Type 0) {A : Type 0} (P : A → Type 0) (a : A) → P a → Follows (pure {E = E} a) [] P
  unfolding Follows Ends
  Follows-pure E P a p s = ([], [], refl, sym (append-nil (view s)), inl (a, refl, p, refl))

  -- One call of the library, of which at most one thing is seen.
  pub Follows-one :
      {E A : Type 0} (P : A → Type 0) (m : Action E S A) (plan : List I)
      → ((s : S) → (view (m s).1 ≡ view s ++ plan) × Ends (m s).0 P [])
      → Follows m plan P
  unfolding Follows
  Follows-one P m plan one s = let (seen, ends) = one s in (plan, [], append-nil plan, seen, ends)

  pub Follows-ask :
      {E A : Type 0} (P : A → Type 0) (answer : S → Result E A) (note : S → S) (plan : List I)
      → ((s : S) → view (note s) ≡ view s ++ plan)
      → ((s : S) (a : A) → answer s ≡ ok a → P a)
      → Follows (ask answer note) plan P
  unfolding Follows Ends
  Follows-ask P answer note plan seen holds s = elim (Result-cases (answer s)) [
    | inl (a, e) ↦
        rw (ask_ok answer note s a e)
          (plan, [], append-nil plan, seen s, inl (a, refl, holds s a e, refl))
    | inr (e, failed) ↦
        rw (ask_err answer note s e failed) (plan, [], append-nil plan, seen s, inr (e, refl))
  ]

  pub Follows-modify :
      (E : Type 0) (note : S → S) (plan : List I)
      → ((s : S) → view (note s) ≡ view s ++ plan)
      → Follows (modify {E = E} note) plan (λ _. Unit {0})
  unfolding Follows Ends
  Follows-modify E note plan seen s = (plan, [], append-nil plan, seen s, inl (tt, refl, tt, refl))

  pub Follows-weaken :
      {E A : Type 0} (P : A → Type 0) (m : Action E S A) (plan : List I)
      → Follows m plan P
      → Follows m plan (λ _. Unit {0})
  unfolding Follows Ends
  Follows-weaken P m plan follows s =
      let (done, rest, whole, seen, ends) = follows s in
      (
        done,
        rest,
        whole,
        seen,
        elim ends [ inl (a, e, _, all) ↦ inl (a, e, tt, all) | inr failed ↦ inr failed ],
      )
