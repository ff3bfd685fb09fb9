-- ===== src/Strings/Copies.antt =====
-- strlcpy of lib/string.c copies as much of a string as there is room for.
use mathlib.Core.Path.{subst}
use os_project.Common.{
  ℕ, zero, suc, ◌+◌, ◌-◌, ◌≤◌, ◌<◌, ◌≡◌, ◌≢◌, refl, sym, ap, ◌∙◌, true, ltb, arith, Bool-cases, inl,
  inr, ◌⊎◌, List, [], ◌∷◌, length, Returns, Returns-bind, ltb→lt,
}
use os_project.Links.Lists.{ne-false, same-true}
use os_project.Strings.{Bytes, write, lesser, memcpy, strlcpy}
use os_project.Strings.Blocks.{Copied, memcpy_lem, write_other}
use os_project.Strings.Texts.{IsString, strlen_lem}

abbrev pub take : ℕ → List ℕ → List ℕ
take zero xs = []
take (suc n) [] = []
take (suc n) (x ∷ xs) = x ∷ take n xs

pub take_all : (n : ℕ) (xs : List ℕ) → length xs ≤ n → take n xs ≡ xs
take_all zero [] all = refl
take_all (suc n) [] all = refl
take_all zero (x ∷ xs) all = let no : ⊥ = omega arith in elim no [ ]
take_all (suc n) (x ∷ xs) all = ap (λ us. x ∷ us) (take_all n xs (omega arith))

shifted : (mem : Bytes) (p i : ℕ) → mem (suc p + i) ≡ mem (p + suc i)
shifted mem p i = let e : suc p + i ≡ p + suc i = omega arith in ap mem e

-- A copy of the first n characters with a NUL behind them.
pub copied-IsString :
    (mem mem' : Bytes) (src dst : ℕ) (s : List ℕ) (n : ℕ)
    → IsString mem src s
    → n ≤ length s
    → ((i : ℕ) → i < n → mem' (dst + i) ≡ mem (src + i))
    → mem' (dst + n) ≡ 0
    → IsString mem' dst (take n s)
copied-IsString mem mem' src dst s zero t short same nul =
    let e : dst ≡ dst + 0 = omega arith in ap mem' e ∙ nul
copied-IsString mem mem' src dst [] (suc n) t short same nul =
    let no : ⊥ = omega arith in elim no [ ]
copied-IsString mem mem' src dst (c ∷ s) (suc n) (at, c0, t) short same nul = (
  let e : dst ≡ dst + 0 = omega arith in
      let e' : src + 0 ≡ src = omega arith in ap mem' e ∙ same 0 (omega arith) ∙ ap mem e' ∙ at,
  c0,
  copied-IsString mem mem' (suc src) (suc dst) s n t (omega (arith, short))
      (λ i below.
        shifted mem' dst i ∙ same (suc i) (omega (arith, below)) ∙ sym (shifted mem src i))
      (shifted mem' dst n ∙ nul),
)

lesser_lem : (a b : ℕ) → (lesser a b ≤ a) × (lesser a b ≤ b)
lesser_lem a b = (ground arith, ground arith)

take-lesser : (s : List ℕ) (n : ℕ) → take (lesser (length s) n) s ≡ take n s
take-lesser s n = elim (Bool-cases (ltb (length s) n)) [
  | inl fits ↦ rw fits (
      take_all (length s) s (omega arith)
      ∙ sym (take_all n s (omega (arith, ltb→lt (length s) n fits))))
  | inr cut ↦ rw cut refl
]

-- strlcpy of a string into other memory of at least one byte returns the length of the string. It leaves
-- there a string of the first characters, as many as fit before a NUL, and changes no byte outside.
pub strlcpy_lem :
    (mem : Bytes) (dst src : ℕ) (s : List ℕ) (size fuel : ℕ)
    → dst ≢ 0
    → src ≢ 0
    → IsString mem src s
    → 0 < size
    → (dst + size ≤ src) ⊎ (src + length s < dst)
    → length s < fuel
    → length s < 0x1_0000_0000
    → Returns
        (λ r.
          (r.0 ≡ length s)
          × IsString r.1 dst (take (size - 1) s)
          × ((a : ℕ) → (a < dst) ⊎ (dst + size ≤ a) → r.1 a ≡ mem a))
        (strlcpy fuel dst src size mem)
unfolding strlcpy
strlcpy_lem mem dst src s size fuel dst0 src0 t room apart enough short =
    let n = lesser (length s) (size - 1) in
    let (n_length, n_size) = lesser_lem (length s) (size - 1) in
    let some_room : ltb 0 size ≡ true = ground (arith, room) in
    rw (ne-false dst 0 dst0) (
      rw (ne-false src 0 src0) (
        rw (strlen_lem mem src s fuel src0 t enough short) (
          rw some_room (
            Returns-bind (λ r. Copied mem dst src n r.1 × (r.0 ≡ dst)) _ (memcpy dst src n mem) _
              (memcpy_lem dst src n mem dst0 src0 (elim apart [
                | inl before ↦ inl (omega (arith, before, n_size))
                | inr behind ↦ inr (omega (arith, behind, n_length))
              ]))
              (λ r c. (
                refl,
                subst (IsString (write r.1 (dst + n) 0) dst) (take-lesser s (size - 1)) (
                    copied-IsString mem (write r.1 (dst + n) 0) src dst s n t n_length
                      (λ i below.
                        write_other r.1 (dst + n) 0 (dst + i) (λ e. omega (arith, below, e))
                        ∙ c.0.inside i below)
                      (rw (same-true (dst + n)) refl)),
                λ a far.
                    write_other r.1 (dst + n) 0 a (λ e. elim far [
                      | inl before ↦ let no : ⊥ = omega (arith, before, e) in elim no [ ]
                      | inr behind ↦
                          let no : ⊥ = omega (arith, behind, e, n_size, room) in elim no [ ]
                    ])
                    ∙ c.0.outside a (elim far [
                      | inl before ↦ inl before
                      | inr behind ↦ inr (omega (arith, behind, n_size))
                    ]),
              ))))))
