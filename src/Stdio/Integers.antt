-- ===== src/Stdio/Integers.antt =====
-- What format_integer of lib/stdio.c prints.
use os_project.Common.{
  ℕ, zero, suc, ◌+◌, ◌-◌, ◌*◌, ◌^◌, ◌≤◌, ◌<◌, ◌≡◌, refl, ap, ◌∙◌, Bool, not, ◌&&◌, ◌||◌, ◌==◌,
  if◌then◌else◌, Bool-cases, true, false, leb, ◌≢◌, ℕ_discrete, inl, inr, List, [], ◌∷◌, ◌++◌,
  length, length-append, arith, Returns, Returns-bind, min,
}
use os_project.Ctype.{isdigit}
use os_project.Atoi.Value.{Are}
use os_project.Stdio.{
  Flags, IntegerBase, Conversion, digit_loop, zero_loop, output_dup, when, sign_of, pad_count,
  is_negative, format_integer, no_zero_last,
}
use os_project.Stdio.Bases.{number, IsBase}
use os_project.Stdio.Digits.{
  Collected, digit_loop_lem, zero_loop_lem, Padded, IsPlain, push_lem, zero-number,
}

length-output_dup : (ch cnt : ℕ) → length (output_dup ch cnt) ≡ cnt
unfolding output_dup
length-output_dup ch zero = refl
length-output_dup ch (suc cnt) = ap suc (length-output_dup ch cnt)

-- The characters that a sign and a prefix take.
abbrev pub extra : ℕ → ℕ → ℕ
extra x sign = (if x == 0 then 0 else 2) + (if sign == 0 then 0 else 1)

pub pad_count_lem :
    (width len x sign : ℕ)
    → width < 2 ^ 31
    → len ≤ 64
    → pad_count width len x sign ≡ width - (len + extra x sign)
pad_count_lem width len x sign small fits = ground (arith, small, fits)

-- Blanks, sign, prefix, zeros, digits, blanks.
abbrev pub layout : Flags → ℕ → ℕ → ℕ → List ℕ → List ℕ
layout flags pad x sign body =
    when (not (flags.minus || flags.zero_pad)) (output_dup b' ' pad)
    ++ (when (not (sign == 0)) (sign ∷ [])
        ++ (when (not (x == 0)) (b'0' ∷ x ∷ [])
            ++ (when flags.zero_pad (output_dup b'0' pad)
                ++ (body ++ when flags.minus (output_dup b' ' pad)))))

layout-le :
    (flags : Flags) (pad x sign : ℕ) (body : List ℕ)
    → pad + (length body + extra x sign) ≤ length (layout flags pad x sign body)
layout-le flags pad x sign body =
    simp (length-append) (ground (arith, length-output_dup b' ' pad, length-output_dup b'0' pad))

-- The least number of digits, for which the buffer has room up to 63.
abbrev pub least : Conversion → ℕ
least c = min (if is_negative c.precision then 1 else c.precision) 63

-- The digits with the zeros that the precision asks for, and with one for octal numbers with # if
-- there is no such zero.
abbrev pub with_zeros : IntegerBase → Conversion → List ℕ → List ℕ
with_zeros b c digits =
    when (c.flags.pound && b.base == 8 && leb (least c) (length digits)) (b'0' ∷ [])
    ++ (output_dup b'0' (least c - length digits) ++ digits)

-- The text of an integer conversion.
pub record IsInteger (value : ℕ) (is_signed negative : Bool) (b : IntegerBase) (c : Conversion)
    (text : List ℕ) : Type 0 where
  pub digits : List ℕ
  pub none : value ≡ 0 → digits ≡ []
  pub leading : (rest : List ℕ) → digits ≢ b'0' ∷ rest
  pub body : List ℕ
  pub padded : body ≡ with_zeros b c digits
  pub reads : number b.base body ≡ value
  pub precise : least c ≤ length body
  pub fits : length body ≤ 64
  pub plain : IsPlain b c.flags.group → Are isdigit body
  pub laid_out :
      let sign = sign_of is_signed negative c.flags in
      let x = if c.flags.pound && not (value == 0) then b.x else 0 in
      text ≡ layout c.flags (c.width - (length body + extra x sign)) x sign body
  pub wide : c.width ≤ length text

times_one : (n : ℕ) → n * 1 + 0 ≡ n
times_one n = omega arith

no_zero-leading :
    (digits : List ℕ) → no_zero_last digits ≡ true → (rest : List ℕ) → digits ≢ b'0' ∷ rest
no_zero-leading digits h rest e = let no : false ≡ true = rw e at h in cc

-- Zeros are in front exactly if some were added.
no_zero-zeros :
    (n : ℕ) (digits : List ℕ)
    → no_zero_last digits ≡ true
    → no_zero_last (output_dup b'0' n ++ digits) ≡ (n == 0)
unfolding output_dup
no_zero-zeros zero digits h = h
no_zero-zeros (suc n) digits h = ground arith

with_octal :
    (b : IntegerBase) (c : Conversion) (digits buf : List ℕ) (test : Bool)
    → buf ≡ output_dup b'0' (least c - length digits) ++ digits
    → (c.flags.pound && b.base == 8 && leb (least c) (length digits)) ≡ test
    → (when test (b'0' ∷ []) ++ buf) ≡ with_zeros b c digits
with_octal b c digits buf test zeros e = rw (e, zeros) refl

printed :
    (value : ℕ) (is_signed negative : Bool) (b : IntegerBase) (c : Conversion)
    (digits body : List ℕ)
    → (value ≡ 0 → digits ≡ [])
    → no_zero_last digits ≡ true
    → body ≡ with_zeros b c digits
    → number b.base body ≡ value
    → least c ≤ length body
    → length body ≤ 64
    → (IsPlain b c.flags.group → Are isdigit body)
    → c.width < 2 ^ 31
    → let sign = sign_of is_signed negative c.flags in
      let x : ℕ = if c.flags.pound && not (value == 0) then b.x else 0 in
      IsInteger value is_signed negative b c
        (layout c.flags (pad_count c.width (length body) x sign) x sign body)
printed value is_signed negative b c digits body none leading padded reads precise fits plain
      small =
    let sign = sign_of is_signed negative c.flags in
    let x : ℕ = if c.flags.pound && not (value == 0) then b.x else 0 in
    let pad = pad_count_lem c.width (length body) x sign small fits in
    record {
      digits = digits;
      none = none;
      leading = no_zero-leading digits leading;
      body = body;
      padded = padded;
      reads = reads;
      precise = precise;
      fits = fits;
      plain = plain;
      laid_out = ap (λ n. layout c.flags n x sign body) pad;
      wide =
          omega
            (arith, pad, layout-le c.flags (pad_count c.width (length body) x sign) x sign body);
    }

pub format_integer_lem :
    (value : ℕ) (is_signed negative : Bool) (b : IntegerBase) (c : Conversion)
    → IsBase b
    → value < 2 ^ 64
    → c.width < 2 ^ 31
    → Returns (IsInteger value is_signed negative b c) (format_integer value is_signed negative b c)
unfolding format_integer
format_integer_lem value is_signed negative b c is_base below small =
    let precision : ℕ = if is_negative c.precision then 1 else c.precision in
    let sign = sign_of is_signed negative c.flags in
    let x : ℕ = if c.flags.pound && not (value == 0) then b.x else 0 in
    Returns-bind (Collected b is_base value 0 c.flags.group []) _
      (digit_loop 64 value 0 c.flags.group b []) _
      (digit_loop_lem b is_base 64 value 0 22 c.flags.group [] refl (omega arith) (omega arith)
        (omega (arith, below)) (omega arith))
      (λ buf k.
        let first : no_zero_last buf ≡ true = elim (ℕ_discrete value 0) [
          | yes none ↦ rw (k.none none) refl
          | no some_value ↦ k.leading (omega (arith, some_value))
        ] in
        Returns-bind (Padded b.base precision buf) _ (zero_loop 64 precision buf) _
          (zero_loop_lem b.base 64 precision buf (omega (arith, k.short)) (omega arith))
          (λ buf' padded.
            let fewest : no_zero_last buf' ≡ leb (least c) (length buf) =
              ap no_zero_last padded.zeros
              ∙ no_zero-zeros (least c - length buf) buf first
              ∙ ground arith in
            elim (Bool-cases (c.flags.pound && b.base == 8 && no_zero_last buf')) [
              | inl octal ↦ rw octal (
                  rw (push_lem b'0' buf' (omega (arith, padded.short))) (
                    printed value is_signed negative b c buf (b'0' ∷ buf') k.none first
                      (with_octal b c buf buf' true padded.zeros (rw fewest at octal))
                      ((zero-number b.base buf').0 ∙ padded.valued ∙ k.valued ∙ times_one value)
                      (omega (arith, padded.reached)) (omega (arith, padded.short))
                      (λ is_plain. (refl, padded.kept (k.kept is_plain tt))) small))
              | inr plain ↦ rw plain (
                  printed value is_signed negative b c buf buf' k.none first
                    (with_octal b c buf buf' false padded.zeros (rw fewest at plain))
                    (padded.valued ∙ k.valued ∙ times_one value) padded.reached
                    (omega (arith, padded.short)) (λ is_plain. padded.kept (k.kept is_plain tt))
                    small)
            ]))
