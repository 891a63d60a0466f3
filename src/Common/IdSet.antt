-- ===== src/Common/IdSet.antt =====
-- `BTreeSet<u64>`, as a list in increasing order.
use Prim.Native.Nat.{ℕ}
use mathlib.Core.Path.{◌≡◌, refl}
use mathlib.Core.Bool.{not, ◌&&◌, ◌||◌}
use mathlib.Core.List.{List, [], ◌∷◌}
use native.Mathlib.Omega.{arith}
use just_webrtc.Common.Tests.{ltb, ◌==◌, if◌then◌else◌}
use just_webrtc.Common.Lists.{contains}

unfoldable pub insert : ℕ → List ℕ → List ℕ
insert x [] = x ∷ []
insert x (y ∷ ys) = if x == y then y ∷ ys else if ltb x y then x ∷ y ∷ ys else y ∷ insert x ys

unfoldable pub remove : ℕ → List ℕ → List ℕ
remove x [] = []
remove x (y ∷ ys) = if y == x then remove x ys else y ∷ remove x ys

-- `into_iter().collect()`.
unfoldable pub collect : List ℕ → List ℕ
collect [] = []
collect (x ∷ xs) = insert x (collect xs)

pub contains-insert : (x y : ℕ) (ys : List ℕ) → contains x (insert y ys) ≡ (y == x || contains x ys)
unfolding contains insert
contains-insert x y [] = refl
contains-insert x y (z ∷ zs) = ground (arith, contains-insert x y zs)

pub contains-remove :
    (x y : ℕ) (ys : List ℕ) → contains x (remove y ys) ≡ (not (y == x) && contains x ys)
unfolding contains remove
contains-remove x y [] = ground arith
contains-remove x y (z ∷ zs) = ground (arith, contains-remove x y zs)

pub contains-collect : (x : ℕ) (xs : List ℕ) → contains x (collect xs) ≡ contains x xs
unfolding contains collect
contains-collect x [] = refl
contains-collect x (y ∷ ys) =
    ground (arith, contains-insert x y (collect ys), contains-collect x ys)
