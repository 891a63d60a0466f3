-- ===== src/Common/Decimal.antt =====
-- A number in decimal, as `format!("{index}")` writes it.
use Prim.Native.Nat.{ℕ, zero, suc, ◌%◌, ◌/◌}
use Prim.Native.String.{String, [], ◌∷◌, ◌++◌, char_at}
use mathlib.Core.Path.{◌≡◌, refl}
use just_webrtc.Common.Tests.{ltb, if◌then◌else◌}

unfoldable digit : ℕ → String
digit n = char_at "0123456789" n ∷ []

-- One digit for each unit of fuel; a number has no more digits than it is large, but for zero.
unfoldable digits : ℕ → ℕ → String
unfolding digit
digits zero n = ""
digits (suc fuel) n =
    let rest = digits fuel (n / 10) in if ltb n 10 then digit n else rest ++ digit (n % 10)

unfoldable show : ℕ → String
unfolding digits
show n = digits (suc n) n

-- `format!("{label_prefix}{index}")`.
unfoldable pub numbered : String → ℕ → String
unfolding show
numbered label_prefix index = label_prefix ++ show index

show_some : (show 0 ≡ "0") × (show 10 ≡ "10") × (show 6553 ≡ "6553")
unfolding show
show_some = (refl, refl, refl)
