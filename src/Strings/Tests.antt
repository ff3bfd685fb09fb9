-- ===== src/Strings/Tests.antt =====
-- lib/string.c on a memory that holds the string "ab,c" at 100 and "," at 200.
use os_project.Common.{
  ℕ, suc, ◌≡◌, ◌≢◌, refl, ◌==◌, if◌then◌else◌, ok, arith, List, [], ◌∷◌, Returns,
}
use os_project.Hash.Bytes.{AreBytes}
use os_project.Strings.{
  Bytes, memmove, strlen, strtok_r, strstr, strcspn, strrchr, strchr, strchr_loop, strlen_loop,
  strstr_loop, memcmp, compare_loop,
}
use os_project.Strings.Blocks.{Copied, memmove_lem}
use os_project.Strings.Texts.{IsString}
use os_project.Strings.Cut.{IsCut, strtok_r_lem}

abbrev text : List ℕ
text = 97 ∷ 98 ∷ 44 ∷ 99 ∷ []

abbrev commas : List ℕ
commas = 44 ∷ []

abbrev mem : Bytes
mem a =
    if a == 100
    then 97
    else (if a == 101
        then 98
        else (if a == 102 then 44 else (if a == 103 then 99 else (if a == 200 then 44 else 0))))

positive : (n : ℕ) → suc n ≢ 0
positive n e = omega (arith, e)

text-IsString : IsString mem 100 text
text-IsString =
    (refl, positive 96, (refl, positive 97, (refl, positive 43, (refl, positive 98, refl))))

commas-IsString : IsString mem 200 commas
commas-IsString = (refl, positive 43, refl)

text-AreBytes : AreBytes text
text-AreBytes = (omega arith, (omega arith, (omega arith, (omega arith, tt))))

strrchr_text : strrchr 10 100 98 mem ≡ ok 101
unfolding strrchr
strrchr_text = refl

strcspn_text : strcspn 10 100 200 mem ≡ ok 2
unfolding strcspn strchr strchr_loop
strcspn_text = refl

strstr_text : strstr 10 100 200 mem ≡ ok 102
unfolding strstr strlen strlen_loop strstr_loop memcmp compare_loop
strstr_text = refl

-- The blocks overlap, and the destination is behind the source.
memmove_lem_example : Returns (λ r. Copied mem 101 100 4 r.1 × (r.0 ≡ 101)) (memmove 101 100 4 mem)
memmove_lem_example = memmove_lem 101 100 4 mem (positive 100) (positive 99)

strtok_r_lem_example : Returns (IsCut commas mem 100 text) (strtok_r 10 100 200 0 mem)
strtok_r_lem_example =
    strtok_r_lem mem 100 200 0 text commas 10 (positive 99) (positive 199) text-IsString
      text-AreBytes commas-IsString (omega arith) (omega arith)
