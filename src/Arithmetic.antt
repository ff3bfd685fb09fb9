-- ===== src/Arithmetic.antt =====
-- lib/arithmetic.c: 64-bit division for a processor that divides 64 by 32 bits. A signed number is
-- its two's complement; a signed operation that overflows wraps.
use os_project.Common.{
  ℕ, ◌+◌, ◌-◌, ◌*◌, ◌/◌, ◌%◌, ◌^◌, Bool, not, ◌||◌, ltb, leb, ◌==◌, same, if◌then◌else◌, Result, ok,
  err, divide_error, ◌>>=◌, u32, u64,
}
pub mod Normalise
pub mod Estimate
pub mod Unsigned
pub mod Signed
pub mod Tests

-- The instruction: the quotient must fit in 32 bits.
unfoldable pub divl : ℕ → ℕ → Result ℕ
divl n d = if d == 0 || leb (2 ^ 32) (n / d) then err divide_error else ok (n / d)

-- One `if` of `nlz`: `n += bits; x <<= bits` when x is at most `limit`.
unfoldable pub shift_up : ℕ → ℕ → ℕ × ℕ → ℕ × ℕ
shift_up limit bits (n, x) = if leb x limit then (n + bits, u32 (x * 2 ^ bits)) else (n, x)

unfoldable pub nlz : ℕ → ℕ
unfolding shift_up
nlz x =
    let (n, top) =
      shift_up 0x3FFFFFFF 2
        (shift_up 0x0FFFFFFF 4 (shift_up 0x00FFFFFF 8 (shift_up 0x0000FFFF 16 (0, x)))) in
    if leb top 0x7FFFFFFF then n + 1 else n

-- The first branch of `udiv64`, with 32-bit divisions that trap on zero as `divl` does.
unfoldable pub udiv64_short : ℕ → ℕ → Result ℕ
unfolding divl
udiv64_short n d =
    let b = 2 ^ 32 in
    let n1 = u32 (n / 2 ^ 32) in
    let d0 = u32 d in
    if d0 == 0
    then err divide_error
    else (do q ← divl (u64 (u64 (b * (n1 % d0)) + u32 n)) d0; ok (u64 (q + u64 (b * (n1 / d0)))))

-- The other branch: the quotient, or one more, from the leading bits, and the correction.
unfoldable pub udiv64_long : ℕ → ℕ → Result ℕ
unfolding divl
udiv64_long n d = if ltb n d then ok 0 else (do
  let s = nlz (u32 (d / 2 ^ 32))
  top ← divl (n / 2) (u32 (u64 (d * 2 ^ s) / 2 ^ 32))
  let q = top / 2 ^ (31 - s)
  let less = u64 (q + (2 ^ 64 - 1))
  ok (if ltb (u64 (n + 2 ^ 64 - u64 (less * d))) d then less else q))

unfoldable pub udiv64 : ℕ → ℕ → Result ℕ
unfolding udiv64_short udiv64_long
udiv64 n d = if d / 2 ^ 32 == 0 then udiv64_short n d else udiv64_long n d

-- The result type is `uint32_t`.
unfoldable pub umod64 : ℕ → ℕ → Result ℕ
unfolding udiv64
umod64 n d = do q ← udiv64 n d; ok (u32 (u64 (n + 2 ^ 64 - u64 (d * q))))

-- `-x` in 64 bits.
abbrev pub negate : ℕ → ℕ
negate x = u64 (2 ^ 64 - x)

-- `x < 0` for an `int64_t`.
abbrev pub is_negative : ℕ → Bool
is_negative x = leb (2 ^ 63) x

abbrev pub magnitude : ℕ → ℕ
magnitude x = if is_negative x then negate x else x

unfoldable pub sdiv64 : ℕ → ℕ → Result ℕ
unfolding udiv64
sdiv64 n d = do
  q_abs ← udiv64 (magnitude n) (magnitude d)
  ok (if same (is_negative n) (is_negative d) then q_abs else negate q_abs)

-- An `int32_t` widened to 64 bits.
abbrev pub widen : ℕ → ℕ
widen x = if leb (2 ^ 31) x then x + (2 ^ 64 - 2 ^ 32) else x

-- The result type is `int32_t`.
unfoldable pub smod64 : ℕ → ℕ → Result ℕ
unfolding sdiv64
smod64 n d = do q ← sdiv64 n d; ok (widen (u32 (u64 (n + 2 ^ 64 - u64 (d * q)))))

-- The names that GCC calls.
abbrev pub divdi3 : ℕ → ℕ → Result ℕ
divdi3 n d = sdiv64 n d

abbrev pub moddi3 : ℕ → ℕ → Result ℕ
moddi3 n d = smod64 n d

abbrev pub udivdi3 : ℕ → ℕ → Result ℕ
udivdi3 n d = udiv64 n d

abbrev pub umoddi3 : ℕ → ℕ → Result ℕ
umoddi3 n d = umod64 n d
