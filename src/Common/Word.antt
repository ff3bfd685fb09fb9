-- ===== src/Common/Word.antt =====
-- 32-bit unsigned arithmetic, as `size_t`, `uintptr_t`, `unsigned` and `unsigned long` have it on
-- the i386, and the macros of lib/round.h.
use Prim.Native.Nat.{ℕ, ◌+◌, ◌-◌, ◌/◌, ◌%◌, ◌^◌}

abbrev pub u32 : ℕ → ℕ
u32 n = n % 2 ^ 32

abbrev pub u64 : ℕ → ℕ
u64 n = n % 2 ^ 64

abbrev pub size_max : ℕ
size_max = 2 ^ 32 - 1

-- DIV_ROUND_UP in `size_t`; the sum wraps.
abbrev pub div_round_up : ℕ → ℕ → ℕ
div_round_up x step = u32 (x + step - 1) / step
