-- ===== src/Atoi.antt =====
-- atoi of lib/stdlib.c, on the memory of Strings. An `int` is the number of its 32 bits, and its
-- arithmetic wraps. The loops end at a character, so they take fuel.
use os_project.Common.{
  ℕ, zero, suc, ◌+◌, ◌-◌, ◌*◌, ◌%◌, ◌^◌, Bool, true, false, not, ◌==◌, if◌then◌else◌, Result, ok,
  err, out_of_fuel, assert, ◌>>=◌, ◌>>◌, u32,
}
use os_project.Strings.{Bytes}
use os_project.Ctype.{isspace, isdigit}
pub mod Value
mod Tests

unfoldable pub space_loop : ℕ → ℕ → Bytes → Result ℕ
space_loop zero s mem = err out_of_fuel
space_loop (suc fuel) s mem = if isspace (mem s) then space_loop fuel (suc s) mem else ok s

unfoldable pub digit_loop : ℕ → ℕ → ℕ → Bytes → Result ℕ
digit_loop zero s value mem = err out_of_fuel
digit_loop (suc fuel) s value mem =
    if isdigit (mem s)
    then digit_loop fuel (suc s) (u32 (value * 10 + 2 ^ 32 - (mem s - 48))) mem
    else ok value

-- The sign: whether it is negative, and where the digits begin.
abbrev pub parse_sign : ℕ → Bytes → Bool × ℕ
parse_sign s mem =
    if mem s == 43 then (false, suc s) else (if mem s == 45 then (true, suc s) else (false, s))

unfoldable pub atoi : ℕ → ℕ → Bytes → Result ℕ
atoi fuel s mem = do
  assert (not (s == 0))
  s' ← space_loop fuel s mem
  let (negative, digits) = parse_sign s' mem
  value ← digit_loop fuel digits 0 mem
  ok (if not negative then u32 (2 ^ 32 - value) else value)
