-- ===== src/Arithmetic/Tests.antt =====
-- Runs of lib/arithmetic.c.
use os_project.Common.{◌+◌, ◌-◌, ◌*◌, ◌/◌, ◌%◌, ◌^◌, ◌≡◌, refl, true, false, arith, ok}
use os_project.Arithmetic.{
  nlz, udiv64, umod64, sdiv64, smod64, divl, udiv64_short, udiv64_long, shift_up,
}
use os_project.Arithmetic.Unsigned.{udiv64_lem, umod64_lem}
use os_project.Arithmetic.Signed.{int64, sdiv64_lem, smod64_lem}

nlz_run : nlz 0x00012345 ≡ 15
unfolding nlz shift_up
nlz_run = refl

udiv64_run : udiv64 (2 ^ 63 + 12345) (3 * 2 ^ 33 + 1) ≡ ok ((2 ^ 63 + 12345) / (3 * 2 ^ 33 + 1))
unfolding udiv64 udiv64_long udiv64_short nlz shift_up divl
udiv64_run = refl

sdiv64_run : sdiv64 (int64 true 7) 2 ≡ ok (int64 true 3)
unfolding sdiv64 udiv64 udiv64_long udiv64_short nlz shift_up divl
sdiv64_run = refl

-- The remainder 2 ^ 32 comes out as 0.
umod64_run : umod64 (2 ^ 32) (2 ^ 33) ≡ ok 0
unfolding umod64 udiv64 udiv64_long udiv64_short nlz shift_up divl
umod64_run = refl

udiv64_lem_example :
    udiv64 (2 ^ 63 + 12345) (3 * 2 ^ 33 + 1) ≡ ok ((2 ^ 63 + 12345) / (3 * 2 ^ 33 + 1))
udiv64_lem_example = udiv64_lem (2 ^ 63 + 12345) (3 * 2 ^ 33 + 1) (omega arith) (omega arith)

umod64_lem_example : umod64 (2 ^ 34 + 5) (2 ^ 33 + 1) ≡ ok ((2 ^ 34 + 5) % (2 ^ 33 + 1) % 2 ^ 32)
umod64_lem_example = umod64_lem (2 ^ 34 + 5) (2 ^ 33 + 1) (omega arith) (omega arith)

sdiv64_lem_example : sdiv64 (int64 true 7) 2 ≡ ok (int64 true 3)
sdiv64_lem_example = sdiv64_lem true false 7 2 (omega arith, omega arith) (omega arith)

smod64_lem_example : smod64 (int64 true 7) 2 ≡ ok (2 ^ 64 - 1)
smod64_lem_example = smod64_lem true false 7 2 (omega arith, omega arith) (omega arith)
