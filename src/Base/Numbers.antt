-- ===== src/Base/Numbers.antt =====
-- Numbers as texts.
use Prim.Native.Nat.{ℕ, zero, suc, ◌+◌, ◌/◌, ◌%◌}
use Prim.Native.String.{String, ◌++◌, slice}
use fluxip.Base.Tests.{ltb, if◌then◌else◌}

-- A number in decimal digits, as a template text shows it: one round for each digit.
digits : ℕ → ℕ → String
digits zero n = ""
digits (suc fuel) n =
    let front = digits fuel (n / 10) in
    (if ltb n 10 then "" else front) ++ slice "0123456789" (n % 10) (n % 10 + 1)

unfoldable pub decimal : ℕ → String
unfolding digits
decimal n = digits (suc n) n
