-- ===== src/Base/Decimal.antt =====
-- `std::to_string` of integers as texts.
use mathlib.Core.Path.{◌≡◌, refl, ◌∙◌}
use mathlib.Core.Logic.{inl, inr}
use mathlib.Core.List.{[], ◌∷◌, ◌++◌}
use Prim.Native.Nat.{ℕ, zero, suc, ◌+◌, ◌-◌, ◌*◌, ◌/◌, ◌%◌, ◌≤◌}
use native.Mathlib.Omega.{arith}
use fusilli.Base.Tests.{ltb, Bool-cases, if◌then◌else◌}
use fusilli.Base.Int.{ℤ, pos, negsuc}
use fusilli.Base.Texts.{Text}

-- A number has no more digits than its value, so `n` rounds are enough.
unfoldable pub decimal_digits : ℕ → ℕ → Text
decimal_digits zero n = (48 + n) ∷ []
decimal_digits (suc fuel) n =
    let shorter = decimal_digits fuel (n / 10) in
    if ltb n 10 then (48 + n) ∷ [] else shorter ++ (48 + n % 10) ∷ []

unfoldable pub decimal : ℕ → Text
unfolding decimal_digits
decimal n = decimal_digits n n

abbrev minus : ℕ
minus = 45

unfoldable pub decimal_ℤ : ℤ → Text
unfolding decimal
decimal_ℤ (pos n) = decimal n
decimal_ℤ (negsuc n) = minus ∷ decimal (suc n)

-- The value that digits have after those read before, whose value is the first argument.
unfoldable pub read_decimal : ℕ → Text → ℕ
read_decimal value [] = value
read_decimal value (c ∷ cs) = read_decimal (value * 10 + (c - 48)) cs

read_decimal-append :
    (value : ℕ) (cs : Text) (c : ℕ)
    → read_decimal value (cs ++ c ∷ []) ≡ read_decimal value cs * 10 + (c - 48)
unfolding read_decimal
read_decimal-append value [] c = refl
read_decimal-append value (d ∷ cs) c = read_decimal-append (value * 10 + (d - 48)) cs c

read_decimal-decimal_digits : (fuel n : ℕ) → n ≤ fuel → read_decimal 0 (decimal_digits fuel n) ≡ n
unfolding read_decimal decimal_digits
read_decimal-decimal_digits zero n h = omega arith
read_decimal-decimal_digits (suc fuel) n h = elim (Bool-cases (ltb n 10)) [
  | inl small ↦ rw small (omega arith)
  | inr large ↦
      let shorter = read_decimal-decimal_digits fuel (n / 10) (ground arith) in
      rw large (
        read_decimal-append 0 (decimal_digits fuel (n / 10)) (48 + n % 10)
        ∙ rw shorter (omega arith))
]

-- The digits of a number, which are enough, have its value.
pub read_decimal-decimal : (n : ℕ) → read_decimal 0 (decimal n) ≡ n
unfolding decimal
read_decimal-decimal n = read_decimal-decimal_digits n n (omega arith)
