-- ===== src/Atoi/Tests.antt =====
-- atoi of lib/stdlib.c on a memory that holds the string " -42k" at 100.
use os_project.Common.{◌-◌, ◌≡◌, refl, ◌==◌, if◌then◌else◌, ok, ◌^◌}
use os_project.Strings.{Bytes}
use os_project.Atoi.{atoi, space_loop, digit_loop}

abbrev mem : Bytes
mem a =
    if a == 100
    then 32
    else (if a == 101
        then 45
        else (if a == 102 then 52 else (if a == 103 then 50 else (if a == 104 then 107 else 0))))

atoi_minus : atoi 10 100 mem ≡ ok (2 ^ 32 - 42)
unfolding atoi space_loop digit_loop
atoi_minus = refl

atoi_plain : atoi 10 102 mem ≡ ok 42
unfolding atoi space_loop digit_loop
atoi_plain = refl
