-- ===== src/Strings/Tokens.antt =====
-- strtok_r of lib/string.c cuts a string into tokens.
use os_project.Common.{
  ℕ, zero, suc, ◌+◌, ◌%◌, ◌<◌, ◌≡◌, ◌≢◌, refl, ap, ◌∙◌, Bool, true, false, not, ◌==◌, if◌then◌else◌,
  ok, arith, Bool-cases, inl, inr, List, [], ◌∷◌, length,
}
use os_project.Links.Lists.{ne-false}
use os_project.Hash.Bytes.{AreBytes}
use os_project.Strings.{Bytes, strchr, strchr_loop, skip_loop, token_loop}
use os_project.Strings.Texts.{IsString}

pub plus_zero : (n : ℕ) → n ≡ n + 0
plus_zero n = omega arith

pub plus_suc : (m n : ℕ) → suc m + n ≡ m + suc n
plus_suc m n = omega arith

-- Where strchr finds a character in a string at p, or NULL.
abbrev place : ℕ → List ℕ → ℕ → ℕ
place c [] p = if 0 == c then p else 0
place c (d ∷ ds) p = if d == c then p else place c ds (suc p)

strchr_loop_lem :
    (mem : Bytes) (p : ℕ) (s : List ℕ) (fuel c : ℕ)
    → IsString mem p s
    → length s < fuel
    → strchr_loop fuel p c mem ≡ ok (place c s p)
unfolding strchr_loop
strchr_loop_lem mem p s zero c t enough = let no : ⊥ = omega arith in elim no [ ]
strchr_loop_lem mem p [] (suc fuel) c t enough =
    rw t (elim (Bool-cases (0 == c)) [ inl here ↦ rw here refl | inr other ↦ rw other refl ])
strchr_loop_lem mem p (d ∷ ds) (suc fuel) c (at, d0, t) enough = rw at (
    rw (ne-false d 0 d0) (elim (Bool-cases (d == c)) [
      | inl here ↦ rw here refl
      | inr other ↦ rw other (strchr_loop_lem mem (suc p) ds fuel c t (omega arith))
    ]))

-- The character is one of the string's, or the NUL.
abbrev pub is_in : ℕ → List ℕ → Bool
is_in c [] = 0 == c
is_in c (d ∷ ds) = if d == c then true else is_in c ds

place-is_in : (c : ℕ) (s : List ℕ) (p : ℕ) → p ≢ 0 → (place c s p == 0) ≡ not (is_in c s)
place-is_in c [] p p0 = elim (Bool-cases (0 == c)) [
  | inl here ↦ rw here (ne-false p 0 p0)
  | inr other ↦ rw other refl
]
place-is_in c (d ∷ ds) p p0 = elim (Bool-cases (d == c)) [
  | inl here ↦ rw here (ne-false p 0 p0)
  | inr other ↦ rw other (place-is_in c ds (suc p) (λ e. omega (arith, e)))
]

strchr_lem :
    (mem : Bytes) (p : ℕ) (s : List ℕ) (fuel c : ℕ)
    → p ≢ 0
    → IsString mem p s
    → length s < fuel
    → c < 256
    → strchr fuel p c mem ≡ ok (place c s p)
unfolding strchr
strchr_lem mem p s fuel c p0 t enough byte =
    let e : c % 256 ≡ c = omega (arith, byte) in
    rw (ne-false p 0 p0) (rw e (strchr_loop_lem mem p s fuel c t enough))

-- The characters up to the first that is not a delimiter, and those from there on.
abbrev pub leading : List ℕ → List ℕ → ℕ
leading set [] = 0
leading set (c ∷ s) = if is_in c set then suc (leading set s) else 0

abbrev pub behind_leading : List ℕ → List ℕ → List ℕ
behind_leading set [] = []
behind_leading set (c ∷ s) = if is_in c set then behind_leading set s else (c ∷ s)

-- The characters up to the first delimiter.
abbrev pub token_of : List ℕ → List ℕ → List ℕ
token_of set [] = []
token_of set (c ∷ s) = if is_in c set then [] else (c ∷ token_of set s)

abbrev pub behind_token : List ℕ → List ℕ → List ℕ
behind_token set [] = []
behind_token set (c ∷ s) = if is_in c set then (c ∷ s) else behind_token set s

-- All but the first.
abbrev pub tail : List ℕ → List ℕ
tail [] = []
tail (c ∷ s) = s

abbrev pub is_empty : List ℕ → Bool
is_empty [] = true
is_empty (c ∷ s) = false

module _ (mem : Bytes) (delimiters : ℕ) (set : List ℕ) (fuel : ℕ) (d0 : delimiters ≢ 0)
    (d : IsString mem delimiters set) (long : length set < fuel) where
  is_in-nul : (s : List ℕ) → is_in 0 s ≡ true
  is_in-nul [] = refl
  is_in-nul (c ∷ s) = elim (Bool-cases (c == 0)) [
    | inl here ↦ rw here refl
    | inr other ↦ rw other (is_in-nul s)
  ]

  pub skip_loop_lem :
      (p : ℕ) (s : List ℕ) (rounds : ℕ)
      → IsString mem p s
      → AreBytes s
      → length s < rounds
      → skip_loop fuel rounds p delimiters mem
        ≡ ok (is_empty (behind_leading set s), p + leading set s)
  unfolding skip_loop
  skip_loop_lem p s zero t bytes enough = let no : ⊥ = omega arith in elim no [ ]
  skip_loop_lem p [] (suc rounds) t bytes enough = rw t (
      rw (strchr_lem mem delimiters set fuel 0 d0 d long (omega arith)) (
        rw (place-is_in 0 set delimiters d0)
          (rw (is_in-nul set) (ap (λ n. ok (true, n)) (plus_zero p)))))
  skip_loop_lem p (c ∷ s) (suc rounds) (at, c0, t) (byte, bytes) enough = rw at (
      rw (strchr_lem mem delimiters set fuel c d0 d long byte) (
        rw (place-is_in c set delimiters d0) (elim (Bool-cases (is_in c set)) [
          | inl yes_in ↦ rw yes_in (
              rw (ne-false c 0 c0) (
                skip_loop_lem (suc p) s rounds t bytes (omega arith)
                ∙ ap (λ n. ok (is_empty (behind_leading set s), n)) (plus_suc p (leading set s))))
          | inr not_in ↦ rw not_in (ap (λ n. ok (false, n)) (plus_zero p))
        ])))

  pub token_loop_lem :
      (p : ℕ) (s : List ℕ) (rounds : ℕ)
      → IsString mem p s
      → AreBytes s
      → length s < rounds
      → token_loop fuel rounds p delimiters mem ≡ ok (p + length (token_of set s))
  unfolding token_loop
  token_loop_lem p s zero t bytes enough = let no : ⊥ = omega arith in elim no [ ]
  token_loop_lem p [] (suc rounds) t bytes enough = rw t (
      rw (strchr_lem mem delimiters set fuel 0 d0 d long (omega arith))
        (rw (place-is_in 0 set delimiters d0) (rw (is_in-nul set) (ap ok (plus_zero p)))))
  token_loop_lem p (c ∷ s) (suc rounds) (at, c0, t) (byte, bytes) enough = rw at (
      rw (strchr_lem mem delimiters set fuel c d0 d long byte) (
        rw (place-is_in c set delimiters d0) (elim (Bool-cases (is_in c set)) [
          | inl yes_in ↦ rw yes_in (ap ok (plus_zero p))
          | inr not_in ↦ rw not_in (
              token_loop_lem (suc p) s rounds t bytes (omega arith)
              ∙ ap ok (plus_suc p (length (token_of set s))))
        ])))
