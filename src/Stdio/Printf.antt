-- ===== src/Stdio/Printf.antt =====
-- __vprintf of lib/stdio.c and its callers that print to the console. What they print is the list of
-- characters handed to `output`. The format and the strings printed are read from a memory.
use Prim.Native.Char.{code}
use Prim.Native.String.{String}
use os_project.Common.{
  ℕ, zero, suc, ◌+◌, ◌-◌, ◌/◌, ◌%◌, ◌^◌, Bool, true, false, not, ◌==◌, if◌then◌else◌, ltb, leb,
  List, [], ◌∷◌, ◌++◌, get_or, Result, ok, err, out_of_fuel, ◌>>=◌, u64, size_max,
}
use os_project.Strings.{Bytes, strnlen}
use os_project.Stdio.{
  ArgType, char_type, short_type, int_type, intmax_type, long_type, longlong_type, ptrdiff_type,
  size_type, Conversion, IntegerBase, base_d, base_o, base_x, base_X, format_integer, format_string,
}
use os_project.Stdio.Parse.{va_arg, va_arg_long, no_flags, parse_conversion}

-- A string literal, a memory from address 0 on.
abbrev pub codes : String → List ℕ
codes String.[] = []
codes (String.◌∷◌ c s) = code c ∷ codes s

abbrev pub literal : List ℕ → Bytes
literal text i = get_or text i 0

-- A number of `bits` bits as an `intmax_t`.
abbrev pub sign_extend : ℕ → ℕ → ℕ
sign_extend bits value =
    let low = value % 2 ^ bits in if leb (2 ^ (bits - 1)) low then 2 ^ 64 - 2 ^ bits + low else low

unfoldable pub signed_arg : ArgType → List ℕ → Result (ℕ × List ℕ)
signed_arg char_type args = do (word, args') ← va_arg args; ok (sign_extend 8 word, args')
signed_arg short_type args = do (word, args') ← va_arg args; ok (sign_extend 16 word, args')
signed_arg int_type args = do (word, args') ← va_arg args; ok (sign_extend 32 word, args')
signed_arg intmax_type args = va_arg_long args
signed_arg long_type args = do (word, args') ← va_arg args; ok (sign_extend 32 word, args')
signed_arg longlong_type args = va_arg_long args
signed_arg ptrdiff_type args = do (word, args') ← va_arg args; ok (sign_extend 32 word, args')
signed_arg size_type args = do
  (word, args') ← va_arg args
  ok (if ltb (size_max / 2) word then u64 (word + 2 ^ 64 - size_max - 1) else word, args')

unfoldable pub unsigned_arg : ArgType → List ℕ → Result (ℕ × List ℕ)
unsigned_arg char_type args = do (word, args') ← va_arg args; ok (word % 2 ^ 8, args')
unsigned_arg short_type args = do (word, args') ← va_arg args; ok (word % 2 ^ 16, args')
unsigned_arg int_type args = va_arg args
unsigned_arg intmax_type args = va_arg_long args
unsigned_arg long_type args = va_arg args
unsigned_arg longlong_type args = va_arg_long args
unsigned_arg ptrdiff_type args = do
  (word, args') ← va_arg args
  ok (sign_extend 32 word % 2 ^ 32, args')
unsigned_arg size_type args = va_arg args

abbrev pub is_one_of : ℕ → List ℕ → Bool
is_one_of ch [] = false
is_one_of ch (c ∷ cs) = if ch == c then true else is_one_of ch cs

abbrev pub unsigned_base : ℕ → IntegerBase
unsigned_base ch =
    if ch == b'o'
    then base_o
    else (if ch == b'u' then base_d else (if ch == b'x' then base_x else base_X))

-- The `switch` on the letter of a conversion: what it prints, and the arguments left. `printf` is
-- __printf with a literal format.
unfoldable pub convert :
    (List ℕ → List ℕ → Result (List ℕ)) → ℕ → Conversion → List ℕ → Bytes → Result (List ℕ × List ℕ)
unfolding signed_arg unsigned_arg
convert printf letter c args mem =
    if is_one_of letter (codes "di")
    then (do
      (value, args') ← signed_arg c.arg_type args
      let negative = leb (2 ^ 63) value
      text ←
          format_integer (if negative then u64 (2 ^ 64 - value) else value) true negative base_d c
      ok (text, args'))
    else (if is_one_of letter (codes "ouxX")
        then (do
          (value, args') ← unsigned_arg c.arg_type args
          text ← format_integer value false false (unsigned_base letter) c
          ok (text, args'))
        else (if letter == b'c'
            then (do (word, args') ← va_arg args; ok (format_string (λ i. word % 256) 1 c, args'))
            else (if letter == b's'
                then (do
                  (s, args') ← va_arg args
                  let string : Bytes =
                      if s == 0 then literal (codes "(null)") else (λ i. mem (s + i))
                  ok (format_string string (strnlen 0 c.precision string) c, args'))
                else (if letter == b'p'
                    then (do
                      (p, args') ← va_arg args
                      text ←
                          format_integer p false false base_x
                            (record c { flags = record no_flags { pound = true } })
                      ok (text, args'))
                    else (if is_one_of letter (codes "feEgGn")
                        then (do
                          text ← printf (codes "<<no %%%c in kernel>>") (letter ∷ [])
                          ok (text, args))
                        else (do
                          text ← printf (codes "<<no %%%c conversion>>") (letter ∷ [])
                          ok (text, args)))))))

-- What is printed for the format's next characters, where it goes on, and the arguments left.
unfoldable pub print_next :
    (List ℕ → List ℕ → Result (List ℕ)) → ℕ → ℕ → List ℕ → Bytes → Result (List ℕ × ℕ × List ℕ)
unfolding convert
print_next printf fuel format args mem =
    if not (mem format == b'%')
    then ok (mem format ∷ [], suc format, args)
    else (if mem (suc format) == b'%' then ok (b'%' ∷ [], format + 2, args) else (do
      (c, format', args') ← parse_conversion fuel (suc format) args mem
      (text, args'') ← convert printf (mem format') c args' mem
      ok (text, suc format', args'')))

-- Each round is one of the loop, and `fuel` also that of the loops in parse_conversion.
unfoldable pub vprintf : ℕ → ℕ → List ℕ → Bytes → Result (List ℕ)
vprintf zero format args mem = err out_of_fuel
vprintf (suc fuel) format args mem =
    let rest = (do
      (text, format', args') ← print_next (λ f a. vprintf fuel 0 a (literal f)) fuel format args mem
      texts ← vprintf fuel format' args' mem
      ok (text ++ texts)) in
    if mem format == 0 then ok [] else rest
