-- ===== src/Stdio.antt =====
-- lib/stdio.c: formatted output. A function that calls `output` returns the characters of these calls,
-- in their order. An `int` is the number of its 32 bits. Stdio.Printf has the conversions of a format,
-- this file the conversion of one argument.
use os_project.Common.{
  ℕ, zero, suc, ◌+◌, ◌-◌, ◌*◌, ◌/◌, ◌%◌, ◌^◌, Bool, true, false, not, ◌&&◌, ◌||◌, ◌==◌,
  if◌then◌else◌, ltb, leb, List, [], ◌∷◌, ◌++◌, length, get_or, Result, ok, err, bad_access,
  out_of_fuel, ◌>>=◌, u32,
}
pub mod Parse
pub mod Printf
pub mod Snprintf
pub mod Dump
pub mod Bases
pub mod Digits
pub mod Integers
pub mod Buffer
pub mod RoundTrip
mod Tests

-- The bits of `flags`.
pub record Flags : Type 0 where
  pub minus : Bool
  pub plus : Bool
  pub space : Bool
  pub pound : Bool
  pub zero_pad : Bool
  pub group : Bool

-- The lengths hh, h, none, j, l, ll, t and z.
pub data ArgType : Type 0 where
  char_type short_type int_type intmax_type long_type longlong_type ptrdiff_type size_type : ArgType

pub record Conversion : Type 0 where
  pub flags : Flags
  pub width : ℕ
  pub precision : ℕ
  pub arg_type : ArgType

pub record IntegerBase : Type 0 where
  pub base : ℕ
  pub digits : List ℕ
  pub x : ℕ
  pub group_size : ℕ

abbrev decimal_digits : List ℕ
decimal_digits = b'0' ∷ b'1' ∷ b'2' ∷ b'3' ∷ b'4' ∷ b'5' ∷ b'6' ∷ b'7' ∷ b'8' ∷ b'9' ∷ []

abbrev pub base_d : IntegerBase
base_d = record { base = 10; digits = decimal_digits; x = 0; group_size = 3 }

abbrev pub base_o : IntegerBase
base_o = record {
  base = 8;
  digits = b'0' ∷ b'1' ∷ b'2' ∷ b'3' ∷ b'4' ∷ b'5' ∷ b'6' ∷ b'7' ∷ [];
  x = 0;
  group_size = 3;
}

abbrev pub base_x : IntegerBase
base_x = record {
  base = 16;
  digits = decimal_digits ++ (b'a' ∷ b'b' ∷ b'c' ∷ b'd' ∷ b'e' ∷ b'f' ∷ []);
  x = b'x';
  group_size = 4;
}

abbrev pub base_X : IntegerBase
base_X = record {
  base = 16;
  digits = decimal_digits ++ (b'A' ∷ b'B' ∷ b'C' ∷ b'D' ∷ b'E' ∷ b'F' ∷ []);
  x = b'X';
  group_size = 4;
}

abbrev pub is_negative : ℕ → Bool
is_negative n = leb (2 ^ 31) n

-- `*cp++ = ch` on `char buf[64]`. The list has the characters up to cp, the last one first.
abbrev pub push : ℕ → List ℕ → Result (List ℕ)
push ch buf = if ltb (length buf) 64 then ok (ch ∷ buf) else err bad_access

abbrev pub put_comma : Bool → ℕ → IntegerBase → List ℕ → Result (List ℕ)
put_comma grouped digit_cnt b buf =
    if grouped && ltb 0 digit_cnt && digit_cnt % b.group_size == 0 then push b',' buf else ok buf

unfoldable pub digit_loop : ℕ → ℕ → ℕ → Bool → IntegerBase → List ℕ → Result (List ℕ)
digit_loop zero value digit_cnt grouped b buf = err out_of_fuel
digit_loop (suc fuel) value digit_cnt grouped b buf =
    let round = (do
      buf' ← put_comma grouped digit_cnt b buf
      buf'' ← push (get_or b.digits (value % b.base) 0) buf'
      digit_loop fuel (value / b.base) (digit_cnt + 1) grouped b buf'') in
    if value == 0 then ok buf else round

unfoldable pub zero_loop : ℕ → ℕ → List ℕ → Result (List ℕ)
zero_loop zero precision buf = err out_of_fuel
zero_loop (suc fuel) precision buf =
    let round = (do buf' ← push b'0' buf; zero_loop fuel precision buf') in
    if ltb (length buf) precision && ltb (length buf) 63 then round else ok buf

-- `cp == buf || cp[-1] != '0'`
abbrev pub no_zero_last : List ℕ → Bool
no_zero_last [] = true
no_zero_last (ch ∷ buf) = not (ch == b'0')

unfoldable pub output_dup : ℕ → ℕ → List ℕ
output_dup ch zero = []
output_dup ch (suc cnt) = ch ∷ output_dup ch cnt

abbrev pub sign_of : Bool → Bool → Flags → ℕ
sign_of is_signed negative flags =
    if not is_signed
    then 0
    else (if flags.plus
        then (if negative then b'-' else b'+')
        else (if flags.space
            then (if negative then b'-' else b' ')
            else (if negative then b'-' else 0)))

-- The width less a number of characters, 0 if it is negative.
abbrev pub pad_count : ℕ → ℕ → ℕ → ℕ → ℕ
pad_count width len x sign =
    let pad_cnt =
      u32 (width + 3 * 2 ^ 32 - len - (if x == 0 then 0 else 2) - (if sign == 0 then 0 else 1)) in
    if is_negative pad_cnt then 0 else pad_cnt

abbrev pub when : Bool → List ℕ → List ℕ
when test text = if test then text else []

-- The digit loop divides a value of 64 bits by 8 at least, and the other loop stops at 63 characters.
unfoldable pub format_integer : ℕ → Bool → Bool → IntegerBase → Conversion → Result (List ℕ)
unfolding digit_loop zero_loop output_dup
format_integer value is_signed negative b c = do
  let sign = sign_of is_signed negative c.flags
  let x = if c.flags.pound && not (value == 0) then b.x else 0
  buf ← digit_loop 64 value 0 c.flags.group b []
  let precision = if is_negative c.precision then 1 else c.precision
  buf' ← zero_loop 64 precision buf
  buf'' ← if c.flags.pound && b.base == 8 && no_zero_last buf' then push b'0' buf' else ok buf'
  let pad_cnt = pad_count c.width (length buf'') x sign
  ok (
      when (not (c.flags.minus || c.flags.zero_pad)) (output_dup b' ' pad_cnt)
      ++ (when (not (sign == 0)) (sign ∷ [])
          ++ (when (not (x == 0)) (b'0' ∷ x ∷ [])
              ++ (when c.flags.zero_pad (output_dup b'0' pad_cnt)
                  ++ (buf'' ++ when c.flags.minus (output_dup b' ' pad_cnt))))))

-- Numbers below 2^31 are `int`s that are not negative; others are less than all of them.
abbrev pub less_int : ℕ → ℕ → Bool
less_int a b = ltb (u32 (a + 2 ^ 31)) (u32 (b + 2 ^ 31))

unfoldable pub characters : ℕ → ℕ → (ℕ → ℕ) → List ℕ
characters i zero string = []
characters i (suc rounds) string = string i ∷ characters (i + 1) rounds string

-- `string` gives the characters at the pointer. A length below 0 makes no round.
unfoldable pub format_string : (ℕ → ℕ) → ℕ → Conversion → List ℕ
unfolding characters output_dup
format_string string len c =
    when (less_int len c.width && not c.flags.minus)
      (output_dup b' ' (u32 (c.width + 2 ^ 32 - len)))
    ++ (characters 0 (if is_negative len then 0 else len) string
        ++ when (less_int len c.width && c.flags.minus)
            (output_dup b' ' (u32 (c.width + 2 ^ 32 - len))))
