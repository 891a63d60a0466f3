-- ===== src/Known.antt =====
-- What a sequence of peer changes says of a peer, whoever reads it.
use just_webrtc.Common.{
  ℕ, ◌≡◌, refl, ◌⊎◌, inl, inr, Bool-cases, Bool, true, false, ◌==◌, if◌then◌else◌, List, [], ◌∷◌,
  ◌++◌,
}
use just_webrtc.Proto.{PeerChange, peer_change_add, peer_change_remove}

-- Whether a peer is known after a change, and after a sequence of them.
abbrev pub known_by : ℕ → PeerChange → Bool → Bool
known_by x c known =
    if c.id == x
    then (elim c.change [ peer_change_add ↦ true | peer_change_remove ↦ false ])
    else known

unfoldable pub known_after : ℕ → List PeerChange → Bool → Bool
known_after x [] known = known
known_after x (c ∷ cs) known = known_after x cs (known_by x c known)

pub known_after-append :
    (x : ℕ) (cs ds : List PeerChange) (known : Bool)
    → known_after x (cs ++ ds) known ≡ known_after x ds (known_after x cs known)
unfolding known_after
known_after-append x [] ds known = refl
known_after-append x (c ∷ cs) ds known = known_after-append x cs ds (known_by x c known)

-- Either the changes do not concern the peer, or what they say of it does not depend on the start.
pub known_after-cases :
    (x : ℕ) (cs : List PeerChange)
    → ((known : Bool) → known_after x cs known ≡ known)
      ⊎ ((known known' : Bool) → known_after x cs known ≡ known_after x cs known')
unfolding known_after
known_after-cases x [] = inl (λ known. refl)
known_after-cases x (c ∷ cs) = elim (known_after-cases x cs) [
  | inr settled ↦ inr (λ known known'. settled _ _)
  | inl silent ↦ elim (Bool-cases (c.id == x)) [
    | inl hit ↦ inr (λ known known'. rw hit)
    | inr miss ↦ inl (λ known. rw miss (silent known))
  ]
]
