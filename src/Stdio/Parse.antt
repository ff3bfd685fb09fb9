-- ===== src/Stdio/Parse.antt =====
-- parse_conversion of lib/stdio.c. The arguments of the call are the 32-bit words that va_arg takes
-- from the stack of the i386: one for an `int`, two for a `long long`, the low one first.
use os_project.Common.{
  ℕ, zero, suc, ◌+◌, ◌-◌, ◌*◌, ◌^◌, true, false, ◌==◌, if◌then◌else◌, List, [], ◌∷◌, Option, none,
  some, Result, ok, err, bad_access, out_of_fuel, ◌>>=◌, u32,
}
use os_project.Strings.{Bytes}
use os_project.Ctype.{isdigit}
use os_project.Stdio.{
  Flags, ArgType, char_type, short_type, int_type, intmax_type, long_type, longlong_type,
  ptrdiff_type, size_type, Conversion, is_negative,
}

-- `va_arg (args, int)`: behind the last argument the stack holds something else.
abbrev pub va_arg : List ℕ → Result (ℕ × List ℕ)
va_arg [] = err bad_access
va_arg (word ∷ args) = ok (word, args)

abbrev pub va_arg_long : List ℕ → Result (ℕ × List ℕ)
va_arg_long args = do
  (low, args') ← va_arg args
  (high, args'') ← va_arg args'
  ok (low + high * 2 ^ 32, args'')

abbrev pub no_flags : Flags
no_flags = record {
  minus = false;
  plus = false;
  space = false;
  pound = false;
  zero_pad = false;
  group = false;
}

abbrev pub add_flag : ℕ → Flags → Option Flags
add_flag ch flags =
    if ch == b'-'
    then some (record flags { minus = true })
    else (if ch == b'+'
        then some (record flags { plus = true })
        else (if ch == b' '
            then some (record flags { space = true })
            else (if ch == b'#'
                then some (record flags { pound = true })
                else (if ch == b'0'
                    then some (record flags { zero_pad = true })
                    else (if ch == 39 then some (record flags { group = true }) else none)))))

unfoldable pub flag_loop : ℕ → ℕ → Flags → Bytes → Result (Flags × ℕ)
flag_loop zero format flags mem = err out_of_fuel
flag_loop (suc fuel) format flags mem = elim (add_flag (mem format) flags) [
  | none ↦ ok (flags, format)
  | some flags' ↦ flag_loop fuel (suc format) flags' mem
]

unfoldable pub number_loop : ℕ → ℕ → ℕ → Bytes → Result (ℕ × ℕ)
number_loop zero format value mem = err out_of_fuel
number_loop (suc fuel) format value mem =
    let rest = number_loop fuel (suc format) (u32 (value * 10 + mem format - 48)) mem in
    if isdigit (mem format) then rest else ok (value, format)

-- A `*` takes an argument; otherwise there are digits, or none.
unfoldable pub parse_int : ℕ → ℕ → List ℕ → Bytes → Result (ℕ × ℕ × List ℕ)
unfolding number_loop
parse_int fuel format args mem =
    if mem format == b'*'
    then (do (value, args') ← va_arg args; ok (value, suc format, args'))
    else (do (value, format') ← number_loop fuel format 0 mem; ok (value, format', args))

-- The `int` -1, for no precision.
abbrev pub no_precision : ℕ
no_precision = 2 ^ 32 - 1

unfoldable pub parse_precision : ℕ → ℕ → List ℕ → Bytes → Result (ℕ × ℕ × List ℕ)
unfolding parse_int
parse_precision fuel format args mem =
    if mem format == b'.'
    then (do
      (precision, format', args') ← parse_int fuel (suc format) args mem
      ok (if is_negative precision then no_precision else precision, format', args'))
    else ok (no_precision, format, args)

unfoldable pub parse_type : ℕ → Bytes → ArgType × ℕ
parse_type format mem =
    if mem format == b'h'
    then (if mem (suc format) == b'h' then (char_type, format + 2) else (short_type, suc format))
    else (if mem format == b'j'
        then (intmax_type, suc format)
        else (if mem format == b'l'
            then (if mem (suc format) == b'l'
                then (longlong_type, format + 2)
                else (long_type, suc format))
            else (if mem format == b't'
                then (ptrdiff_type, suc format)
                else (if mem format == b'z' then (size_type, suc format) else (int_type, format)))))

abbrev drop_zero : Flags → Flags
drop_zero flags = record flags { zero_pad = false }

-- The conversion, the place of its letter, and the arguments left.
unfoldable pub parse_conversion : ℕ → ℕ → List ℕ → Bytes → Result (Conversion × ℕ × List ℕ)
unfolding flag_loop parse_int parse_precision parse_type
parse_conversion fuel format args mem = do
  (parsed, format1) ← flag_loop fuel format no_flags mem
  let no_zero = if parsed.minus then drop_zero parsed else parsed
  let flags = if no_zero.plus then record no_zero { space = false } else no_zero
  (number, format2, args2) ← parse_int fuel format1 args mem
  let width = if is_negative number then u32 (2 ^ 32 - number) else number
  let flags' = if is_negative number then record flags { minus = true } else flags
  (precision, format3, args3) ← parse_precision fuel format2 args2 mem
  let flags'' = if is_negative precision then flags' else drop_zero flags'
  let (kind, format4) = parse_type format3 mem
  ok (
    record { flags = flags''; width = width; precision = precision; arg_type = kind },
    format4,
    args3,
  )
