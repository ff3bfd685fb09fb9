-- ===== src/Stdio/RoundTrip.antt =====
-- An `int` that vsnprintf of lib/stdio.c prints with %d is read back by atoi of lib/stdlib.c.
use mathlib.Core.Path.{subst}
use os_project.Common.{
  ℕ, suc, ◌+◌, ◌-◌, ◌*◌, ◌^◌, ◌≤◌, ◌<◌, ◌≡◌, ◌≢◌, refl, sym, ap, ◌∙◌, Bool, true, false, ◌==◌,
  if◌then◌else◌, leb, List, [], ◌∷◌, ◌++◌, length, Result, ok, arith, Returns, Returns-weaken,
  Returns-ok, u64,
}
use mathlib.Core.List.{append-nil}
use os_project.Strings.{Bytes}
use os_project.Strings.Texts.{IsString}
use os_project.Strings.Copies.{take_all}
use os_project.Ctype.{isdigit}
use os_project.Atoi.{atoi}
use os_project.Atoi.Value.{Are, decimal, none, minus, IsValue, atoi_lem}
use os_project.Stdio.{Flags, Conversion, base_d, format_integer, int_type, output_dup}
use os_project.Stdio.Parse.{
  no_flags, no_precision, parse_conversion, flag_loop, parse_int, parse_precision, parse_type,
}
use os_project.Stdio.Printf.{literal, vprintf, print_next, convert, sign_extend}
use os_project.Stdio.Snprintf.{vsnprintf}
use os_project.Stdio.Bases.{weight, number, digit_count, digit_value, base_d-IsBase}
use os_project.Stdio.Integers.{IsInteger, format_integer_lem, layout}
use os_project.Stdio.Buffer.{IsText, vsnprintf_lem}
use os_project.Stdio.Digits.{base_d-IsPlain}

-- The conversion %d.
abbrev pub plain_d : Conversion
plain_d = record { flags = no_flags; width = 0; precision = no_precision; arg_type = int_type }

abbrev pub magnitude : ℕ → ℕ
magnitude n = if leb (2 ^ 31) n then 2 ^ 32 - n else n

flag_d :
    (fuel format : ℕ) (flags : Flags) (mem : Bytes)
    → mem format ≡ b'd'
    → flag_loop (suc fuel) format flags mem ≡ ok (flags, format)
unfolding flag_loop
flag_d fuel format flags mem at = rw (at, flag_loop) refl

int_d :
    (fuel format : ℕ) (args : List ℕ) (mem : Bytes)
    → mem format ≡ b'd'
    → parse_int (suc fuel) format args mem ≡ ok (0, format, args)
unfolding parse_int
int_d fuel format args mem at = rw (at, parse_int) refl

precision_d :
    (fuel format : ℕ) (args : List ℕ) (mem : Bytes)
    → mem format ≡ b'd'
    → parse_precision (suc fuel) format args mem ≡ ok (no_precision, format, args)
unfolding parse_precision
precision_d fuel format args mem at = rw (at, parse_precision) refl

type_d : (format : ℕ) (mem : Bytes) → mem format ≡ b'd' → parse_type format mem ≡ (int_type, format)
unfolding parse_type
type_d format mem at = rw (at, parse_type) refl

parse_d :
    (fuel format : ℕ) (args : List ℕ) (mem : Bytes)
    → mem format ≡ b'd'
    → parse_conversion (suc fuel) format args mem ≡ ok (plain_d, format, args)
unfolding parse_conversion
parse_d fuel format args mem at = rw (flag_d fuel format no_flags mem at) (
    rw (int_d fuel format args mem at)
      (rw (precision_d fuel format args mem at) (rw (type_d format mem at) refl)))

extended-leb : (n : ℕ) → n < 2 ^ 32 → leb (2 ^ 63) (sign_extend 32 n) ≡ leb (2 ^ 31) n
extended-leb n below = ground (arith, below)

extended-magnitude :
    (n : ℕ)
    → n < 2 ^ 32
    → (if leb (2 ^ 63) (sign_extend 32 n)
        then u64 (2 ^ 64 - sign_extend 32 n)
        else sign_extend 32 n)
      ≡ magnitude n
extended-magnitude n below = ground (arith, below)

convert_d :
    (printf : List ℕ → List ℕ → Result (List ℕ)) (n : ℕ) (mem : Bytes) (text : List ℕ)
    → n < 2 ^ 32
    → format_integer (magnitude n) true (leb (2 ^ 31) n) base_d plain_d ≡ ok text
    → convert printf b'd' plain_d (n ∷ []) mem ≡ ok (text, [])
unfolding convert
convert_d printf n mem text below prints =
    rw (extended-magnitude n below) (rw (extended-leb n below) (rw prints refl))

pub vprintf_d :
    (fuel format n : ℕ) (mem : Bytes) (text : List ℕ)
    → n < 2 ^ 32
    → IsString mem format (b'%' ∷ b'd' ∷ [])
    → format_integer (magnitude n) true (leb (2 ^ 31) n) base_d plain_d ≡ ok text
    → vprintf (suc (suc fuel)) format (n ∷ []) mem ≡ ok (text ++ [])
unfolding vprintf print_next
vprintf_d fuel format n mem text below (at0, ne0, (at1, ne1, nul)) prints = rw at0 (
    rw at1 (
      rw (parse_d fuel (suc format) (n ∷ []) mem at1) (
        rw at1 (
          rw (convert_d (λ f a. vprintf (suc fuel) 0 a (literal f)) n mem text below prints)
            (rw nul refl)))))

digit_number : (c : ℕ) → isdigit c ≡ true → ((c == b',') ≡ false) × (digit_value c ≡ c - 48)
digit_number c digit = (ground (arith, digit), ground (arith, digit))

regroup : (acc d w n : ℕ) → (acc * 10 + d) * w + n ≡ acc * (10 * w) + (d * w + n)
regroup acc d w n = grind arith

decimal-number :
    (s : List ℕ) (acc : ℕ)
    → Are isdigit s
    → decimal acc s ≡ acc * weight 10 (digit_count s) + number 10 s
decimal-number [] acc are = omega arith
decimal-number (c ∷ s) acc (digit, are) =
    let (no_comma, value) = digit_number c digit in
    rw no_comma (
      rw value (
        decimal-number s (acc * 10 + (c - 48)) are
        ∙ regroup acc (c - 48) (weight 10 (digit_count s)) (number 10 s)))

digits-IsString :
    (mem : Bytes) (p : ℕ) (s : List ℕ)
    → IsText mem p s
    → Are isdigit s
    → mem (p + length s) ≡ 0
    → IsString mem p s
digits-IsString mem p [] t are nul = let e : p ≡ p + 0 = omega arith in ap mem e ∙ nul
digits-IsString mem p (c ∷ s) (at, t) (digit, are) nul =
    let e : suc p + length s ≡ p + suc (length s) = omega arith in
    (at, ground (arith, digit), digits-IsString mem (suc p) s t are (ap mem e ∙ nul))

decimal-eq : (body : List ℕ) (n : ℕ) → Are isdigit body → number 10 body ≡ n → decimal 0 body ≡ n
decimal-eq body n are reads = omega (arith, decimal-number body 0 are, reads)

-- A number in memory, read back.
read_positive :
    (mem : Bytes) (p n : ℕ) (body : List ℕ)
    → p ≢ 0
    → n < 2 ^ 32
    → 1 ≤ length body
    → length body ≤ 64
    → Are isdigit body
    → number 10 body ≡ n
    → IsText mem p body
    → mem (p + length body) ≡ 0
    → atoi 65 p mem ≡ ok n
read_positive mem p n [] p0 below some_digit fits are reads t nul =
    absurd (omega (arith, some_digit))
read_positive mem p n (d ∷ ds) p0 below some_digit fits are reads t nul =
    let all : ds ++ [] ≡ ds = append-nil ds in
    let (value, ends, is_value) = Returns-ok (IsValue none (decimal 0 (d ∷ ds))) (atoi 65 p mem) (
      atoi_lem mem p [] none d ds [] 65 p0
        (subst (λ s. IsString mem p (d ∷ s)) (sym all) (digits-IsString mem p (d ∷ ds) t are nul))
        tt are refl (omega arith) (omega (arith, fits))) in
    ends ∙ ap ok (omega (arith, is_value, decimal-eq (d ∷ ds) n are reads, below))

read_negative :
    (mem : Bytes) (p n : ℕ) (body : List ℕ)
    → p ≢ 0
    → n < 2 ^ 32
    → 0 < n
    → 1 ≤ length body
    → length body ≤ 64
    → Are isdigit body
    → number 10 body ≡ 2 ^ 32 - n
    → IsText mem p (b'-' ∷ body)
    → mem (p + length (b'-' ∷ body)) ≡ 0
    → atoi 65 p mem ≡ ok n
read_negative mem p n [] p0 below above some_digit fits are reads t nul =
    absurd (omega (arith, some_digit))
read_negative mem p n (d ∷ ds) p0 below above some_digit fits are reads (at, t) nul =
    let all : ds ++ [] ≡ ds = append-nil ds in
    let e : suc p + length (d ∷ ds) ≡ p + suc (length (d ∷ ds)) = omega arith in
    let (value, ends, is_value) = Returns-ok (IsValue minus (decimal 0 (d ∷ ds))) (atoi 65 p mem) (
      atoi_lem mem p [] minus d ds [] 65 p0
        (
          at,
          (λ z. omega (arith, z)),
          subst (λ s. IsString mem (suc p) (d ∷ s)) (sym all)
              (digits-IsString mem (suc p) (d ∷ ds) t are (ap mem e ∙ nul)),
        )
        tt are refl (omega arith) (omega (arith, fits))) in
    ends ∙ ap ok (omega (arith, is_value, decimal-eq (d ∷ ds) (2 ^ 32 - n) are reads, below, above))

no_pad : (n : ℕ) → 0 - n ≡ 0
no_pad n = omega arith

-- A minus sign or none, and the digits.
text_shape :
    (n : ℕ) (negative : Bool) (text : List ℕ)
    (k : IsInteger (magnitude n) true negative base_d plain_d text)
    → text ≡ (if negative then (b'-' ∷ k.body) else k.body)
unfolding output_dup
text_shape n true text k =
    k.laid_out
    ∙ ap (λ (w : ℕ). layout no_flags w 0 b'-' k.body) (no_pad (length k.body + 1))
    ∙ ap (λ s. b'-' ∷ s) (append-nil k.body)
text_shape n false text k =
    k.laid_out
    ∙ ap (λ (w : ℕ). layout no_flags w 0 0 k.body) (no_pad (length k.body + 0))
    ∙ append-nil k.body

magnitude_negative : (n : ℕ) → leb (2 ^ 31) n ≡ true → magnitude n ≡ 2 ^ 32 - n
magnitude_negative n sign = rw sign refl

magnitude_positive : (n : ℕ) → leb (2 ^ 31) n ≡ false → magnitude n ≡ n
magnitude_positive n sign = rw sign refl

-- The text of %d, in memory with a NUL behind it, is read back.
read_text :
    (mem : Bytes) (p n : ℕ) (negative : Bool) (text : List ℕ)
    → p ≢ 0
    → n < 2 ^ 32
    → leb (2 ^ 31) n ≡ negative
    → IsInteger (magnitude n) true negative base_d plain_d text
    → IsText mem p text
    → mem (p + length text) ≡ 0
    → atoi 65 p mem ≡ ok n
read_text mem p n true text p0 below sign k t nul =
    let shape : text ≡ b'-' ∷ k.body = text_shape n true text k in
    read_negative mem p n k.body p0 below (ground (arith, sign)) (omega (arith, k.precise)) k.fits
      (k.plain base_d-IsPlain) (k.reads ∙ magnitude_negative n sign) (subst (IsText mem p) shape t)
      (subst (λ s. mem (p + length s) ≡ 0) shape nul)
read_text mem p n false text p0 below sign k t nul =
    let shape : text ≡ k.body = text_shape n false text k in
    read_positive mem p n k.body p0 below (omega (arith, k.precise)) k.fits (k.plain base_d-IsPlain)
      (k.reads ∙ magnitude_positive n sign) (subst (IsText mem p) shape t)
      (subst (λ s. mem (p + length s) ≡ 0) shape nul)

pub magnitude-lt : (n : ℕ) → n < 2 ^ 32 → magnitude n < 2 ^ 64
magnitude-lt n below = ground (arith, below)

length-le :
    (n : ℕ) (negative : Bool) (text : List ℕ)
    → IsInteger (magnitude n) true negative base_d plain_d text
    → length text ≤ 65
length-le n true text k = omega (arith, ap length (text_shape n true text k), k.fits)
length-le n false text k = omega (arith, ap length (text_shape n false text k), k.fits)

-- vsnprintf prints an `int` with the format %d to a buffer of 66 bytes or more, and atoi of the buffer
-- returns that `int`, whether it is negative or not.
pub atoi-vsnprintf :
    (n format buffer buf_size fuel : ℕ) (mem : Bytes)
    → n < 2 ^ 32
    → buffer ≢ 0
    → IsString mem format (b'%' ∷ b'd' ∷ [])
    → 66 ≤ buf_size
    → buf_size ≤ 2 ^ 31
    → Returns
        (λ r. atoi 65 buffer r.1 ≡ ok n)
        (vsnprintf (suc (suc fuel)) buffer buf_size format (n ∷ []) mem)
atoi-vsnprintf n format buffer buf_size fuel mem below buffer0 is_format room small =
    let (text, prints, k) =
      Returns-ok (IsInteger (magnitude n) true (leb (2 ^ 31) n) base_d plain_d)
        (format_integer (magnitude n) true (leb (2 ^ 31) n) base_d plain_d)
        (format_integer_lem (magnitude n) true (leb (2 ^ 31) n) base_d plain_d base_d-IsBase
          (magnitude-lt n below) (omega arith)) in
    let fits = length-le n (leb (2 ^ 31) n) text k in
    let printed =
      vprintf_d fuel format n mem text below is_format prints ∙ ap ok (append-nil text) in
    let whole = take_all (buf_size - 1) text (omega (arith, room, fits)) in
    Returns-weaken _ _ (vsnprintf (suc (suc fuel)) buffer buf_size format (n ∷ []) mem)
      (λ r w.
        read_text r.1 buffer n (leb (2 ^ 31) n) text buffer0 below refl k
          (subst (IsText r.1 buffer) whole w.1)
          (subst (λ s. r.1 (buffer + length s) ≡ 0) whole w.2))
      (vsnprintf_lem (suc (suc fuel)) buffer buf_size format (n ∷ []) mem text printed
        (omega (arith, room)) small (omega (arith, fits)))
