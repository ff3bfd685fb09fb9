-- ===== src/Strings/Cut.antt =====
-- What a call of strtok_r of lib/string.c returns and leaves for the next one.
use mathlib.Core.Path.{subst}
use os_project.Common.{
  ℕ, suc, ◌+◌, ◌≤◌, ◌<◌, ◌≡◌, ◌≢◌, refl, sym, ap, ◌∙◌, Bool, true, false, ◌==◌, if◌then◌else◌, ok,
  ◌>>=◌, arith, Bool-cases, inl, inr, List, [], ◌∷◌, length, Returns,
}
use os_project.Links.Lists.{ne-false, same-true}
use os_project.Hash.Bytes.{AreBytes}
use os_project.Strings.{Bytes, write, token_loop, strtok_r, Token}
use os_project.Strings.Blocks.{write_other}
use os_project.Strings.Texts.{IsString}
use os_project.Strings.Copies.{take, copied-IsString}
use os_project.Strings.Tokens.{
  is_in, leading, behind_leading, token_of, behind_token, tail, is_empty, skip_loop_lem,
  token_loop_lem, plus_zero, plus_suc,
}

write_before :
    (mem : Bytes) (at byte p : ℕ) (s : List ℕ)
    → at < p
    → IsString mem p s
    → IsString (write mem at byte) p s
write_before mem at byte p [] below t = write_other mem at byte p (λ e. omega (arith, e, below)) ∙ t
write_before mem at byte p (c ∷ s) below (here, c0, t) = (
  write_other mem at byte p (λ e. omega (arith, e, below)) ∙ here,
  c0,
  write_before mem at byte (suc p) s (omega (arith, below)) t,
)

module _ (set : List ℕ) where
  IsString-behind_leading :
      (mem : Bytes) (p : ℕ) (s : List ℕ)
      → IsString mem p s
      → AreBytes s
      → IsString mem (p + leading set s) (behind_leading set s) × AreBytes (behind_leading set s)
  IsString-behind_leading mem p [] t bytes = (ap mem (sym (plus_zero p)) ∙ t, tt)
  IsString-behind_leading mem p (c ∷ s) (here, c0, t) (byte, bytes) =
      elim (Bool-cases (is_in c set)) [
        | inl yes_in ↦ rw yes_in (
            let r = IsString-behind_leading mem (suc p) s t bytes in
            (
              subst (λ n. IsString mem n (behind_leading set s)) (plus_suc p (leading set s)) r.0,
              r.1,
            ))
        | inr not_in ↦
            rw not_in
              (subst (λ n. IsString mem n (c ∷ s)) (plus_zero p) (here, c0, t), (byte, bytes))
      ]

  IsString-behind_token :
      (mem : Bytes) (p : ℕ) (s : List ℕ)
      → IsString mem p s
      → IsString mem (p + length (token_of set s)) (behind_token set s)
  IsString-behind_token mem p [] t = ap mem (sym (plus_zero p)) ∙ t
  IsString-behind_token mem p (c ∷ s) (here, c0, t) = elim (Bool-cases (is_in c set)) [
    | inl yes_in ↦ rw yes_in (subst (λ n. IsString mem n (c ∷ s)) (plus_zero p) (here, c0, t))
    | inr not_in ↦ rw not_in (
        subst (λ n. IsString mem n (behind_token set s)) (plus_suc p (length (token_of set s)))
          (IsString-behind_token mem (suc p) s t))
  ]

  take-token_of : (s : List ℕ) → take (length (token_of set s)) s ≡ token_of set s
  take-token_of [] = refl
  take-token_of (c ∷ s) = elim (Bool-cases (is_in c set)) [
    | inl yes_in ↦ rw yes_in refl
    | inr not_in ↦ rw not_in (ap (λ us. c ∷ us) (take-token_of s))
  ]

  token_of-le : (s : List ℕ) → length (token_of set s) ≤ length s
  token_of-le [] = omega arith
  token_of-le (c ∷ s) = elim (Bool-cases (is_in c set)) [
    | inl yes_in ↦ rw yes_in (omega arith)
    | inr not_in ↦ rw not_in (omega (arith, token_of-le s))
  ]

  behind_leading-le : (s : List ℕ) → length (behind_leading set s) ≤ length s
  behind_leading-le [] = omega arith
  behind_leading-le (c ∷ s) = elim (Bool-cases (is_in c set)) [
    | inl yes_in ↦ rw yes_in (omega (arith, behind_leading-le s))
    | inr not_in ↦ rw not_in (omega arith)
  ]

  -- A token at q is what is left of the rest: a string of its own, and behind it the string of what is
  -- to be cut by the next call.
  abbrev pub IsCut : Bytes → ℕ → List ℕ → Token → Type 0
  IsCut mem q [] r = (r.token ≡ 0) × (r.memory ≡ mem) × IsString r.memory r.save []
  IsCut mem q (c ∷ rest) r =
      (r.token ≡ q)
      × IsString r.memory q (token_of set (c ∷ rest))
      × IsString r.memory r.save (tail (behind_token set (c ∷ rest)))

  all_token : (s : List ℕ) → behind_token set s ≡ [] → token_of set s ≡ s
  all_token [] e = refl
  all_token (c ∷ s) e = split (is_in c set) (all_token s) e
    where
      split :
          (b : Bool)
          → (behind_token set s ≡ [] → token_of set s ≡ s)
          → (if b then (c ∷ s) else behind_token set s) ≡ []
          → (if b then [] else (c ∷ token_of set s)) ≡ c ∷ s
      split true rec e' =
          let no : length (c ∷ s) ≡ 0 = ap length e' in
          let bad : ⊥ = omega (arith, no) in elim bad [ ]
      split false rec e' = ap (λ us. c ∷ us) (rec e')

  cut_lem :
      (mem : Bytes) (q c : ℕ) (rest : List ℕ)
      → IsString mem q (c ∷ rest)
      → (behind : List ℕ) → behind_token set (c ∷ rest) ≡ behind
      → IsString mem (q + length (token_of set (c ∷ rest))) behind
      → Returns (IsCut mem q (c ∷ rest)) (
          let end = q + length (token_of set (c ∷ rest)) in
          if mem end == 0
          then ok (record { token = q; save = end; memory = mem })
          else (ok (record { token = q; save = end + 1; memory = write mem end 0 })))
  cut_lem mem q c rest t [] e nul = rw nul (
    refl,
    subst (IsString mem q) (sym (all_token (c ∷ rest) e)) t,
    subst (λ us. IsString mem (q + length (token_of set (c ∷ rest))) (tail us)) (sym e) nul,
  )
  cut_lem mem q c rest t (d ∷ after) e (at, d0, t') =
      let end = q + length (token_of set (c ∷ rest)) in
      let next : suc end ≡ end + 1 = omega arith in
      let kept : IsString (write mem end 0) (suc end) after =
        write_before mem end 0 (suc end) after (omega arith) t' in
      rw at (
        rw (ne-false d 0 d0) (
          refl,
          subst (IsString (write mem end 0) q) (take-token_of (c ∷ rest)) (
              copied-IsString mem (write mem end 0) q q (c ∷ rest)
                (length (token_of set (c ∷ rest))) t (token_of-le (c ∷ rest))
                (λ i below. write_other mem end 0 (q + i) (λ e'. omega (arith, below, e')))
                (rw (same-true end) refl)),
          subst (λ us. IsString (write mem end 0) (end + 1) (tail us)) (sym e)
              (subst (λ n. IsString (write mem end 0) n after) next kept),
        ))

-- A call of strtok_r on a string of bytes, with the delimiters in a string of their own, skips the leading
-- delimiters. It returns NULL when nothing is left, and otherwise the address of the first character
-- that is no delimiter, where it leaves the characters up to the next delimiter as a string, and
-- *save_ptr at the string of all that stands behind that delimiter, or at an empty string if there is
-- no such delimiter. With fuel above both lengths the call ends.
pub strtok_r_lem :
    (mem : Bytes) (p delimiters save : ℕ) (s set : List ℕ) (fuel : ℕ)
    → p ≢ 0
    → delimiters ≢ 0
    → IsString mem p s
    → AreBytes s
    → IsString mem delimiters set
    → length s < fuel
    → length set < fuel
    → Returns
        (IsCut set mem (p + leading set s) (behind_leading set s))
        (strtok_r fuel p delimiters save mem)
unfolding strtok_r
strtok_r_lem mem p delimiters save s set fuel p0 d0 t bytes d enough long =
    let (behind, are) = IsString-behind_leading set mem p s t bytes in
    rw (ne-false delimiters 0 d0) (
      rw (ne-false p 0 p0) (
        rw (ne-false p 0 p0) (
          rw (skip_loop_lem mem delimiters set fuel d0 d long p s fuel t bytes enough)
            (after (behind_leading set s) behind are (behind_leading-le set s)))))
  where
    after :
        (r : List ℕ)
        → IsString mem (p + leading set s) r
        → AreBytes r
        → length r ≤ length s
        → Returns (IsCut set mem (p + leading set s) r) (
            if is_empty r
            then ok (record { token = 0; save = p + leading set s; memory = mem })
            else (do
              end ← token_loop fuel fuel (p + leading set s) delimiters mem
              if mem end == 0
                  then ok (record { token = p + leading set s; save = end; memory = mem })
                  else (ok (record {
                    token = p + leading set s;
                    save = end + 1;
                    memory = write mem end 0;
                  }))))
    after [] at are short = (refl, refl, at)
    after (c ∷ rest) at are short =
        rw
          (token_loop_lem mem delimiters set fuel d0 d long (p + leading set s) (c ∷ rest) fuel at
            are (omega (arith, short, enough)))
          (cut_lem set mem (p + leading set s) c rest at (behind_token set (c ∷ rest)) refl
            (IsString-behind_token set mem (p + leading set s) (c ∷ rest) at))
