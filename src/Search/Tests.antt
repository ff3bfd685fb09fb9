-- ===== src/Search/Tests.antt =====
-- Runs of the binary search of lib/stdlib.c.
use Prim.Native.Nat.{compare, Ordering}
use os_project.Common.{
  ℕ, zero, suc, ◌≤◌, ◌<◌, ◌≡◌, refl, Option, some, none, List, [], ◌∷◌, arith, ok,
}
use os_project.Search.{binary_search, bsearch, search_loop}
use os_project.Search.Found.{Finds, binary_search_lem, at}

abbrev three_numbers : List ℕ
three_numbers = 10 ∷ 50 ∷ 90 ∷ []

binary_search_run : binary_search compare 90 three_numbers 3 ≡ ok (some 2)
unfolding binary_search search_loop
binary_search_run = refl

binary_search_missing : binary_search compare 60 three_numbers 3 ≡ ok none
unfolding binary_search search_loop
binary_search_missing = refl

bsearch_run : bsearch 50 three_numbers 3 compare ≡ ok (some 1)
unfolding bsearch binary_search search_loop
bsearch_run = refl

below_fifty :
    (i j : ℕ)
    → i ≤ j
    → j < 3
    → at compare 50 three_numbers j ≡ Ordering.gt
    → at compare 50 three_numbers i ≡ Ordering.gt
below_fifty zero j p q h = refl
below_fifty (suc i) zero p q h = absurd (omega arith)
below_fifty (suc i) (suc zero) p q h = absurd (ground (arith, h))
below_fifty (suc i) (suc (suc zero)) p q h = absurd (ground (arith, h))
below_fifty (suc i) (suc (suc (suc j))) p q h = absurd (omega arith)

above_fifty :
    (i j : ℕ)
    → i ≤ j
    → j < 3
    → at compare 50 three_numbers i ≡ Ordering.lt
    → at compare 50 three_numbers j ≡ Ordering.lt
above_fifty zero j p q h = absurd (ground (arith, h))
above_fifty (suc zero) j p q h = absurd (ground (arith, h))
above_fifty (suc (suc i)) zero p q h = absurd (omega arith)
above_fifty (suc (suc i)) (suc zero) p q h = absurd (omega arith)
above_fifty (suc (suc i)) (suc (suc zero)) p q h = refl
above_fifty (suc (suc i)) (suc (suc (suc j))) p q h = absurd (omega arith)

binary_search_lem_example :
    (r : Option ℕ) × (binary_search compare 50 three_numbers 3 ≡ ok r)
    × Finds compare 50 three_numbers 3 r
binary_search_lem_example =
    binary_search_lem compare 50 three_numbers 3
      (record { fits = omega arith; below = below_fifty; above = above_fifty })
