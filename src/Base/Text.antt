-- ===== src/Base/Text.antt =====
-- `Display` of integers, as `format!` and `to_string` print them.
use Prim.Native.Nat.{ℕ, zero, suc, ◌/◌, ◌%◌, ◌<◌}
use Prim.Native.String.{String, ◌++◌}
use mathlib.Core.Path.{◌≡◌}
use mathlib.Core.Logic.{inl, inr}
use native.Mathlib.Omega.{arith}
use speed_test.Base.Tests.{◌==◌, ltb, if◌then◌else◌, Bool-cases}
use speed_test.Base.Keys.{ℤ, pos, negsuc}

-- The decimal digit of a number below ten.
unfoldable pub digit : ℕ → String
digit n =
    if n == 0
    then "0"
    else if n == 1
    then "1"
    else if n == 2
    then "2"
    else if n == 3
    then "3"
    else if n == 4
    then "4"
    else if n == 5
    then "5"
    else if n == 6
    then "6"
    else if n == 7
    then "7"
    else if n == 8
    then "8"
    else "9"

digits : ℕ → ℕ → String
digits zero n = ""
digits (suc fuel) n =
    let rest = digits fuel (n / 10) in if ltb n 10 then digit n else rest ++ digit (n % 10)

-- `n + 1` rounds are enough, since `n / 10 < n` from 1 on.
unfoldable pub show_nat : ℕ → String
unfolding digit digits
show_nat n = digits (suc n) n

-- More fuel than the number needs changes nothing.
digits_fuel : (f g n : ℕ) → n < f → n < g → digits f n ≡ digits g n
unfolding digits
digits_fuel zero g n p q = absurd (omega arith)
digits_fuel (suc f) zero n p q = absurd (omega arith)
digits_fuel (suc f) (suc g) n p q = elim (Bool-cases (ltb n 10)) [
  | inl small ↦ rw small
  | inr large ↦ rw (large, digits_fuel f g (n / 10) (ground arith) (ground arith))
]

-- The printed number, without fuel.
pub show_nat_lem :
    (n : ℕ) → show_nat n ≡ (if ltb n 10 then digit n else show_nat (n / 10) ++ digit (n % 10))
unfolding show_nat digits
show_nat_lem n = elim (Bool-cases (ltb n 10)) [
  | inl small ↦ rw small
  | inr large ↦ rw (large, digits_fuel n (suc (n / 10)) (n / 10) (ground arith) (omega arith))
]

unfoldable pub show_int : ℤ → String
unfolding show_nat
show_int (pos n) = show_nat n
show_int (negsuc n) = "-" ++ show_nat (suc n)
