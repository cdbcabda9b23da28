-- ===== src/Prelude/Decimal.antt =====
-- `format!("{n}")` of a number. The fuel bounds the number of digits.
use Prim.Native.Nat.{ℕ, zero, suc, ◌/◌, ◌%◌}
use Prim.Native.String
use Prim.Native.String.{String}
use kuintessence.Prelude.Tests.{ltb, if◌then◌else◌, ◌==◌}

digit : ℕ → String
digit d =
    if d == 0
    then "0"
    else if d == 1
    then "1"
    else if d == 2
    then "2"
    else if d == 3
    then "3"
    else if d == 4
    then "4"
    else if d == 5
    then "5"
    else if d == 6
    then "6"
    else if d == 7
    then "7"
    else if d == 8
    then "8"
    else "9"

decimal : ℕ → ℕ → String
unfolding digit
decimal zero n = ""
decimal (suc fuel) n =
    let high = decimal fuel (n / 10) in
    if ltb n 10 then digit n else String.◌++◌ high (digit (n % 10))

unfoldable pub to_string : ℕ → String
unfolding decimal
to_string n = decimal (suc n) n
