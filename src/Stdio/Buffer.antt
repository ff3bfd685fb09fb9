-- ===== src/Stdio/Buffer.antt =====
-- vsnprintf of lib/stdio.c and the buffer it prints to.
use mathlib.Core.Path.{subst}
use os_project.Common.{
  ℕ, zero, suc, ◌+◌, ◌-◌, ◌^◌, ◌≤◌, ◌<◌, ◌≡◌, ◌⊎◌, refl, ◌∙◌, true, false, ltb, inl, inr, List, [],
  ◌∷◌, length, ok, arith, Returns, u32,
}
use os_project.Links.Lists.{same-true}
use os_project.Strings.{Bytes, write}
use os_project.Strings.Blocks.{write_other}
use os_project.Strings.Copies.{take}
use os_project.Stdio.{less_int}
use os_project.Stdio.Printf.{vprintf}
use os_project.Stdio.Snprintf.{VsnprintfAux, output_all, vsnprintf}

-- Memory has the characters at p.
abbrev pub IsText : Bytes → ℕ → List ℕ → Type 0
IsText mem p [] = Unit
IsText mem p (ch ∷ text) = (mem p ≡ ch) × IsText mem (suc p) text

less_int_lem : (a b : ℕ) → a < 2 ^ 31 → b < 2 ^ 31 → less_int a b ≡ ltb a b
less_int_lem a b p q = ground (arith, p, q)

-- The text goes to p as far as there is room, and nothing else changes.
pub record Written (room : ℕ) (text : List ℕ) (aux aux' : VsnprintfAux) : Type 0 where
  pub counted : aux'.len ≡ aux.len + length text
  pub moved : aux'.p ≡ aux.p + length (take room text)
  pub shown : IsText aux'.memory aux.p (take room text)
  pub before : (a : ℕ) → a < aux.p → aux'.memory a ≡ aux.memory a
  pub behind : (a : ℕ) → aux.p + room ≤ a → aux'.memory a ≡ aux.memory a

output_all_lem :
    (text : List ℕ) (room : ℕ) (aux : VsnprintfAux)
    → room ≡ aux.max_len - aux.len
    → aux.max_len < 2 ^ 31
    → aux.len + length text < 2 ^ 31
    → Written room text aux (output_all text aux)
unfolding output_all
output_all_lem [] zero aux free small short = record {
  counted = omega arith;
  moved = omega arith;
  shown = tt;
  before = λ a h. refl;
  behind = λ a h. refl;
}
output_all_lem [] (suc room) aux free small short = record {
  counted = omega arith;
  moved = omega arith;
  shown = tt;
  before = λ a h. refl;
  behind = λ a h. refl;
}
output_all_lem (ch ∷ text) zero aux free small short =
    let full : ltb aux.len aux.max_len ≡ false = ground (arith, free) in
    let next : u32 (aux.len + 1) ≡ aux.len + 1 = omega (arith, short) in
    let w =
      output_all_lem text zero (record aux { len = aux.len + 1 }) (omega (arith, free)) small
        (omega (arith, short)) in
    rw (less_int_lem aux.len aux.max_len (omega (arith, short)) small) (
      rw full (
        rw next (record {
          counted = omega (arith, w.counted);
          moved = w.moved;
          shown = w.shown;
          before = w.before;
          behind = w.behind;
        })))
output_all_lem (ch ∷ text) (suc room) aux free small short =
    let more : ltb aux.len aux.max_len ≡ true = ground (arith, free) in
    let next : u32 (aux.len + 1) ≡ aux.len + 1 = omega (arith, short) in
    let w =
      output_all_lem text room
        (record aux { len = aux.len + 1; p = aux.p + 1; memory = write aux.memory aux.p ch })
        (omega (arith, free)) small (omega (arith, short)) in
    rw (less_int_lem aux.len aux.max_len (omega (arith, short)) small) (
      rw more (
        rw next (
          let step : aux.p + 1 ≡ suc aux.p = omega arith in
          record {
            counted = omega (arith, w.counted);
            moved = omega (arith, w.moved);
            shown = (
              w.before aux.p (omega arith) ∙ rw (same-true aux.p) refl,
              subst
                  (λ n.
                    IsText
                      (output_all text (record aux {
                        len = aux.len + 1;
                        p = aux.p + 1;
                        memory = write aux.memory aux.p ch;
                      })).memory
                      n (take room text))
                  step w.shown,
            );
            before = λ a h.
                w.before a (omega (arith, h))
                ∙ write_other aux.memory aux.p ch a (λ e. omega (arith, h, e));
            behind = λ a h.
                w.behind a (omega (arith, h))
                ∙ write_other aux.memory aux.p ch a (λ e. omega (arith, h, e));
          })))

IsText-write :
    (mem : Bytes) (at byte p : ℕ) (text : List ℕ)
    → p + length text ≤ at
    → IsText mem p text
    → IsText (write mem at byte) p text
IsText-write mem at byte p [] h t = tt
IsText-write mem at byte p (ch ∷ text) h (here, t) = (
  write_other mem at byte p (λ e. omega (arith, e, h)) ∙ here,
  IsText-write mem at byte (suc p) text (omega (arith, h)) t,
)

length-take-le : (n : ℕ) (text : List ℕ) → length (take n text) ≤ n
length-take-le zero text = omega arith
length-take-le (suc n) [] = omega arith
length-take-le (suc n) (ch ∷ text) = omega (arith, length-take-le n text)

-- When the format prints a text, vsnprintf to a buffer of at least one byte returns the number of all
-- its characters. It leaves in the buffer as many of them as fit before a NUL, then the NUL, and changes no
-- byte outside the buffer.
pub vsnprintf_lem :
    (fuel buffer buf_size format : ℕ) (args : List ℕ) (mem : Bytes) (text : List ℕ)
    → vprintf fuel format args mem ≡ ok text
    → 0 < buf_size
    → buf_size ≤ 2 ^ 31
    → length text < 2 ^ 31
    → Returns
        (λ r.
          (r.0 ≡ length text)
          × IsText r.1 buffer (take (buf_size - 1) text)
          × (r.1 (buffer + length (take (buf_size - 1) text)) ≡ 0)
          × ((a : ℕ) → (a < buffer) ⊎ (buffer + buf_size ≤ a) → r.1 a ≡ mem a))
        (vsnprintf fuel buffer buf_size format args mem)
unfolding vsnprintf
vsnprintf_lem fuel buffer buf_size format args mem text prints some_room small short =
    let room : ltb 0 buf_size ≡ true = ground (arith, some_room) in
    let start : VsnprintfAux = record {
      p = buffer;
      len = 0;
      max_len = buf_size - 1;
      memory = mem;
    } in
    let w =
      output_all_lem text (buf_size - 1) start (omega arith) (omega (arith, small))
        (omega (arith, short)) in
    let fits = length-take-le (buf_size - 1) text in
    let aux = output_all text start in
    rw prints (
      rw room (
        w.counted ∙ plain (length text),
        IsText-write aux.memory aux.p 0 buffer (take (buf_size - 1) text) (omega (arith, w.moved))
            w.shown,
        rw (← w.moved) (rw (same-true aux.p) refl),
        λ a far.
            write_other aux.memory aux.p 0 a (λ e. elim far [
              | inl before ↦ let no : ⊥ = omega (arith, before, e, w.moved) in elim no [ ]
              | inr behind ↦
                  let no : ⊥ = omega (arith, behind, e, w.moved, fits, some_room) in elim no [ ]
            ])
            ∙ elim far [
              | inl before ↦ w.before a before
              | inr behind ↦ w.behind a (omega (arith, behind))
            ],
      ))
  where
    plain : (n : ℕ) → 0 + n ≡ n
    plain n = omega arith
