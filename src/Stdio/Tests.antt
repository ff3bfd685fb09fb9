-- ===== src/Stdio/Tests.antt =====
-- lib/stdio.c at formats whose output is known.
use os_project.Common.{
  ℕ, ◌≡◌, ◌<◌, ◌≤◌, ◌⊎◌, arith, Returns, ◌==◌, if◌then◌else◌, refl, true, [], ◌∷◌, ◌++◌, ok, ◌-◌,
  ◌*◌, ◌^◌,
}
use os_project.Strings.{strnlen}
use os_project.Strings.{Bytes}
use os_project.Strings.Texts.{IsString}
use os_project.Atoi.{atoi}
use os_project.Stdio.Snprintf.{vsnprintf}
use os_project.Stdio.Buffer.{IsText, vsnprintf_lem}
use os_project.Stdio.RoundTrip.{atoi-vsnprintf}
use os_project.Stdio.{Conversion, int_type, format_integer, format_string}
use os_project.Stdio.Parse.{no_flags, no_precision, parse_conversion}
use os_project.Stdio.Printf.{codes, vprintf, print_next}
use os_project.Stdio.Dump.{printf, hex_dump, dump_line, print_human_readable_size}

widths :
    printf (codes "%5d|%-5d|%05d|%+d") (42 ∷ (2 ^ 32 - 42) ∷ 42 ∷ 7 ∷ [])
    ≡ ok (codes "   42|-42  |00042|+7")
unfolding vprintf print_next parse_conversion format_integer format_string
widths = refl

bases :
    printf (codes "%#x %o %X%%%c") (0xbeef ∷ 8 ∷ 0xbeef ∷ b'!' ∷ []) ≡ ok (codes "0xbeef 10 BEEF%!")
unfolding vprintf print_next parse_conversion format_integer format_string
bases = refl

no_float : printf (codes "%f%k") [] ≡ ok (codes "<<no %f in kernel>><<no %k conversion>>")
unfolding vprintf print_next parse_conversion format_integer format_string
no_float = refl

groups : printf (codes "%'d %.3d") (1234567 ∷ 5 ∷ []) ≡ ok (codes "1,234,567 005")
unfolding vprintf print_next parse_conversion format_integer format_string
groups = refl

megabytes : print_human_readable_size (3 * 2 ^ 20) ≡ ok (codes "3 MB")
unfolding print_human_readable_size vprintf print_next parse_conversion format_integer format_string
    strnlen
megabytes = refl

-- Three bytes from offset 6 on.
dump :
    hex_dump 6 100 3 true (λ a. if a == 100 then 65 else a)
    ≡ ok (
        codes "00000000                    41 65-66                      |      Aef       |"
        ++ (10 ∷ []))
unfolding hex_dump dump_line vprintf print_next parse_conversion format_integer format_string
dump = refl

abbrev wide : Conversion
wide = record {
  flags = record no_flags { zero_pad = true };
  width = 8;
  precision = no_precision;
  arg_type = int_type;
}

-- The format %d at 100.
abbrev mem : Bytes
mem a = if a == 100 then b'%' else (if a == 101 then b'd' else 0)

fortytwo : vprintf 9 100 (42 ∷ []) mem ≡ ok (codes "42")
unfolding vprintf print_next parse_conversion format_integer
fortytwo = refl

-- Two bytes of room for two characters.
vsnprintf_lem_example :
    Returns
      (λ r.
        (r.0 ≡ 2)
        × IsText r.1 200 (codes "4")
        × (r.1 201 ≡ 0)
        × ((a : ℕ) → (a < 200) ⊎ (202 ≤ a) → r.1 a ≡ mem a))
      (vsnprintf 9 200 2 100 (42 ∷ []) mem)
vsnprintf_lem_example =
    vsnprintf_lem 9 200 2 100 (42 ∷ []) mem (codes "42") fortytwo (omega arith) (omega arith)
      (omega arith)

percent_d : IsString mem 100 (b'%' ∷ b'd' ∷ [])
percent_d = (refl, (λ e. omega (arith, e)), (refl, (λ e. omega (arith, e)), refl))

atoi-vsnprintf_example :
    Returns
      (λ r. atoi 65 200 r.1 ≡ ok (2 ^ 32 - 42))
      (vsnprintf 9 200 66 100 ((2 ^ 32 - 42) ∷ []) mem)
atoi-vsnprintf_example =
    atoi-vsnprintf (2 ^ 32 - 42) 100 200 66 7 mem (omega arith) (λ e. omega (arith, e)) percent_d
      (omega arith) (omega arith)
