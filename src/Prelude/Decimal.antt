-- ===== src/Prelude/Decimal.antt =====
-- `%d` of `fmt` and `strconv.Itoa`, for numbers that are not negative: twenty digits are enough for
-- 64 bits.
use Prim.Native.Nat.{ℕ, zero, suc, ◌+◌, ◌/◌, ◌%◌}
use mathlib.Core.List.{[], ◌∷◌, ◌++◌}
use mysql_mcp_server.Prelude.Tests.{ltb, if◌then◌else◌}
use mysql_mcp_server.Prelude.Text.{Bytes}

unfoldable pub decimal_on : ℕ → ℕ → Bytes
decimal_on zero n = []
decimal_on (suc fuel) n =
    let front = decimal_on fuel (n / 10) in
    if ltb n 10 then (b'0' + n) ∷ [] else front ++ ((b'0' + n % 10) ∷ [])

unfoldable pub decimal : ℕ → Bytes
unfolding decimal_on
decimal n = decimal_on 20 n
