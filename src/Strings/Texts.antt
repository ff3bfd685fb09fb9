-- ===== src/Strings/Texts.antt =====
-- Strings of lib/string.c in memory: their length and their order.
use os_project.Common.{
  ℕ, zero, suc, ◌+◌, ◌≤◌, ◌<◌, ◌≡◌, ◌≢◌, refl, ap, ◌∙◌, true, false, ◌==◌, if◌then◌else◌, ltb, ok,
  arith, List, [], ◌∷◌, length, ℕ_discrete, dec_lt,
}
use os_project.Links.Lists.{ne-false}
use os_project.Hash.Elements.{equal-true}
use os_project.Strings.{Bytes, minus_one, strlen, strlen_loop, strcmp, strcmp_loop}

-- Memory has the characters s at p, and a NUL behind them.
abbrev pub IsString : Bytes → ℕ → List ℕ → Type 0
IsString mem p [] = mem p ≡ 0
IsString mem p (c ∷ s) = (mem p ≡ c) × (c ≢ 0) × IsString mem (suc p) s

strlen_loop_lem :
    (mem : Bytes) (p : ℕ) (s : List ℕ) (fuel : ℕ)
    → IsString mem p s
    → length s < fuel
    → strlen_loop fuel p mem ≡ ok (p + length s)
unfolding strlen_loop
strlen_loop_lem mem p s zero t enough = let no : ⊥ = omega arith in elim no [ ]
strlen_loop_lem mem p [] (suc fuel) t enough = rw t (ap ok (omega arith))
strlen_loop_lem mem p (c ∷ s) (suc fuel) (at, c0, t) enough = rw at (
    rw (ne-false c 0 c0) (strlen_loop_lem mem (suc p) s fuel t (omega arith) ∙ ap ok (omega arith)))

-- strlen of a string of less than 2 to the 32 characters, at an address that is not NULL, comes to an
-- end and returns the number of its characters; one round more than there are is enough.
pub strlen_lem :
    (mem : Bytes) (p : ℕ) (s : List ℕ) (fuel : ℕ)
    → p ≢ 0
    → IsString mem p s
    → length s < fuel
    → length s < 0x1_0000_0000
    → strlen fuel p mem ≡ ok (length s)
unfolding strlen
strlen_lem mem p s fuel p0 t enough short =
    rw (ne-false p 0 p0) (rw (strlen_loop_lem mem p s fuel t enough) (ap ok (omega (arith, short))))

-- The lexicographic order of two strings: the `int` that is less than, equal to or greater than 0.
abbrev pub order : List ℕ → List ℕ → ℕ
order [] [] = 0
order [] (d ∷ ds) = minus_one
order (c ∷ cs) [] = 1
order (c ∷ cs) (d ∷ ds) = if c == d then order cs ds else (if ltb c d then minus_one else 1)

ltb-true : (a b : ℕ) → a < b → ltb a b ≡ true
ltb-true a b less = ground (arith, less)

ltb-false : (a b : ℕ) → b ≤ a → ltb a b ≡ false
ltb-false a b more = ground (arith, more)

strcmp_loop_lem :
    (mem : Bytes) (a : ℕ) (s : List ℕ) (b : ℕ) (t : List ℕ) (fuel : ℕ)
    → IsString mem a s
    → IsString mem b t
    → length s < fuel
    → strcmp_loop fuel a b mem ≡ ok (order s t)
unfolding strcmp_loop
strcmp_loop_lem mem a s b t zero p q enough = let no : ⊥ = omega arith in elim no [ ]
strcmp_loop_lem mem a [] b [] (suc fuel) p q enough = rw p (rw q refl)
strcmp_loop_lem mem a [] b (d ∷ ds) (suc fuel) p (at_b, d0, q) enough =
    rw p (rw at_b (rw (ltb-true 0 d (omega (arith, d0))) refl))
strcmp_loop_lem mem a (c ∷ cs) b [] (suc fuel) (at_a, c0, p) q enough = rw at_a (
    rw q (
      rw (ne-false c 0 c0)
        (rw (ltb-false c 0 (omega arith)) (rw (ltb-true 0 c (omega (arith, c0))) refl))))
strcmp_loop_lem mem a (c ∷ cs) b (d ∷ ds) (suc fuel) (at_a, c0, p) (at_b, d0, q) enough = rw at_a (
    rw at_b (
      rw (ne-false c 0 c0) (elim (ℕ_discrete c d) [
        | yes same ↦
            rw (equal-true c d same)
              (strcmp_loop_lem mem (suc a) cs (suc b) ds fuel p q (omega (arith, enough)))
        | no other ↦ rw (ne-false c d other) (elim (dec_lt c d) [
          | yes less ↦ rw (ltb-true c d less) refl
          | no more ↦
              rw (ltb-false c d (omega (arith, more)))
                (rw (ltb-true d c (omega (arith, more, other))) refl)
        ])
      ])))

-- strcmp of two strings comes to an end and returns their lexicographic order, by the numbers of the
-- characters; one round more than the first string has characters is enough.
pub strcmp_lem :
    (mem : Bytes) (a : ℕ) (s : List ℕ) (b : ℕ) (t : List ℕ) (fuel : ℕ)
    → a ≢ 0
    → b ≢ 0
    → IsString mem a s
    → IsString mem b t
    → length s < fuel
    → strcmp fuel a b mem ≡ ok (order s t)
unfolding strcmp
strcmp_lem mem a s b t fuel a0 b0 p q enough =
    rw (ne-false a 0 a0) (rw (ne-false b 0 b0) (strcmp_loop_lem mem a s b t fuel p q enough))
