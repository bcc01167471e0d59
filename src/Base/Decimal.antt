-- ===== src/Base/Decimal.antt =====
-- Numbers in decimal, as texts of character codes.
use Prim.Native.Nat.{ℕ, zero, suc, ◌+◌, ◌/◌, ◌%◌}
use mathlib.Core.List.{List, [], ◌∷◌, ◌++◌}
use na62_farm.Base.Tests.{ltb, if◌then◌else◌}

-- The digits of a number; there are fewer than the fuel, one more than the number.
unfoldable pub digits : ℕ → ℕ → List ℕ
digits zero n = []
digits (suc f) n =
    let more = digits f (n / 10) ++ (48 + n % 10) ∷ [] in if ltb n 10 then (48 + n) ∷ [] else more

unfoldable pub to_string : ℕ → List ℕ
to_string n = digits (suc n) n
