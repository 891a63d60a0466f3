-- ===== src/Common/Map.antt =====
-- `HashMap<u64, V>`, as an association list. The order of the list stands for the order in which
-- the map is iterated, which nothing may rely on.
use just_webrtc.Common.Tests.{Bool-cases, ◌==◌, if◌then◌else◌}
use just_webrtc.Common.Lists.{contains, AllDistinct, All}
use Prim.Native.Nat.{ℕ}
use mathlib.Core.Path.{◌≡◌, refl, subst}
use mathlib.Core.Logic.{inl, inr}
use mathlib.Core.Bool.{Bool, true, false, not, ◌&&◌, ◌||◌}
use mathlib.Core.List.{List, [], ◌∷◌}
use mathlib.Core.Option.{Option, none, some}
use native.Mathlib.Omega.{arith}

module _ {V : Type 0} where
  unfoldable pub lookup : ℕ → List (ℕ × V) → Option V
  lookup key [] = none
  lookup key ((id, value) ∷ rest) = if id == key then some value else lookup key rest

  unfoldable pub contains_key : ℕ → List (ℕ × V) → Bool
  contains_key key [] = false
  contains_key key ((id, _) ∷ rest) = id == key || contains_key key rest

  unfoldable pub insert : ℕ → V → List (ℕ × V) → List (ℕ × V)
  insert key new [] = (key, new) ∷ []
  insert key new ((id, old) ∷ rest) =
      if id == key then (key, new) ∷ rest else (id, old) ∷ insert key new rest

  unfoldable pub remove : ℕ → List (ℕ × V) → List (ℕ × V)
  remove key [] = []
  remove key ((id, value) ∷ rest) =
      if id == key then remove key rest else (id, value) ∷ remove key rest

  unfoldable pub keys : List (ℕ × V) → List ℕ
  keys [] = []
  keys ((id, _) ∷ rest) = id ∷ keys rest

  pub lookup-insert :
      (key id : ℕ) (new : V) (entries : List (ℕ × V))
      → lookup id (insert key new entries) ≡ (if key == id then some new else lookup id entries)
  unfolding insert lookup
  lookup-insert key id new [] = refl
  lookup-insert key id new ((_, old) ∷ rest) = ground (arith, lookup-insert key id new rest)

  pub lookup-remove :
      (k j : ℕ) (m : List (ℕ × V)) → lookup j (remove k m) ≡ (if k == j then none else lookup j m)
  unfolding lookup remove
  lookup-remove k j [] = ground arith
  lookup-remove k j ((i, w) ∷ m) = ground (arith, lookup-remove k j m)

  pub contains_key-lookup :
      (k : ℕ) (m : List (ℕ × V))
      → contains_key k m ≡ (elim (lookup k m) [ none ↦ false | some v ↦ true ])
  unfolding contains_key lookup
  contains_key-lookup k [] = refl
  contains_key-lookup k ((i, w) ∷ m) = ground (arith, contains_key-lookup k m)

  pub contains_key-insert :
      (k j : ℕ) (v : V) (m : List (ℕ × V))
      → contains_key j (insert k v m) ≡ (k == j || contains_key j m)
  unfolding contains_key insert
  contains_key-insert k j v [] = refl
  contains_key-insert k j v ((i, w) ∷ m) = ground (arith, contains_key-insert k j v m)

  pub contains_key-remove :
      (k j : ℕ) (m : List (ℕ × V))
      → contains_key j (remove k m) ≡ (not (k == j) && contains_key j m)
  unfolding contains_key remove
  contains_key-remove k j [] = ground arith
  contains_key-remove k j ((i, w) ∷ m) = ground (arith, contains_key-remove k j m)

  pub contains-keys : (k : ℕ) (m : List (ℕ × V)) → contains k (keys m) ≡ contains_key k m
  unfolding contains keys contains_key
  contains-keys k [] = refl
  contains-keys k ((i, w) ∷ m) = ground (arith, contains-keys k m)

  pub AllDistinct-insert :
      (k : ℕ) (v : V) (m : List (ℕ × V)) → AllDistinct (keys m) → AllDistinct (keys (insert k v m))
  unfolding insert keys
  AllDistinct-insert k v [] h = (unfold contains in refl, tt)
  AllDistinct-insert k v ((i, w) ∷ m) h = ground (
    arith,
    AllDistinct-insert k v m h.1,
    contains-keys i m,
    contains-keys i (insert k v m),
    contains_key-insert k i v m,
  )

  pub AllDistinct-remove :
      (k : ℕ) (m : List (ℕ × V)) → AllDistinct (keys m) → AllDistinct (keys (remove k m))
  unfolding remove keys
  AllDistinct-remove k [] h = tt
  AllDistinct-remove k ((i, w) ∷ m) h = ground (
    arith,
    AllDistinct-remove k m h.1,
    contains-keys i m,
    contains-keys i (remove k m),
    contains_key-remove k i m,
  )

  pub remove-insert : (k : ℕ) (v : V) (m : List (ℕ × V)) → remove k (insert k v m) ≡ remove k m
  unfolding remove insert
  remove-insert k v [] = ground arith
  remove-insert k v ((i, w) ∷ m) = ground (arith, remove-insert k v m)

  module _ {ℓ} (P : ℕ × V → Type ℓ) where
    pub All-lookup : (k : ℕ) (m : List (ℕ × V)) {v : V} → All P m → lookup k m ≡ some v → P (k, v)
    unfolding lookup
    All-lookup k [] h e = cc
    All-lookup k ((i, w) ∷ m) h e = elim (Bool-cases (i == k)) [
      | inl hit ↦ subst P (ground arith) h.0
      | inr miss ↦ All-lookup k m h.1 (rw miss at e)
    ]

    pub All-insert : (k : ℕ) (v : V) (m : List (ℕ × V)) → P (k, v) → All P m → All P (insert k v m)
    unfolding insert
    All-insert k v [] p h = (p, tt)
    All-insert k v ((i, w) ∷ m) p h = elim (Bool-cases (i == k)) [
      | inl hit ↦ rw hit (p, h.1)
      | inr miss ↦ rw miss (h.0, All-insert k v m p h.1)
    ]

    pub All-remove : (k : ℕ) (m : List (ℕ × V)) → All P m → All P (remove k m)
    unfolding remove
    All-remove k [] h = tt
    All-remove k ((i, w) ∷ m) h = elim (Bool-cases (i == k)) [
      | inl hit ↦ rw hit (All-remove k m h.1)
      | inr miss ↦ rw miss (h.0, All-remove k m h.1)
    ]
