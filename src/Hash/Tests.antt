-- ===== src/Hash/Tests.antt =====
-- Hash tables of lib/kernel/hash.c on a table of three elements, whose keys are their tens.
use os_project.Common.{
  ℕ, zero, suc, ◌+◌, ◌/◌, ◌<◌, ◌≡◌, refl, Bool, true, false, [], ◌∷◌, count, one_if, inl, inr,
  arith, ◌==◌, if◌then◌else◌, ltb, ok, Returns,
}
use mathlib.Core.Path.{subst}
use os_project.Links.Extreme.{among}
use os_project.Hash.{
  Table, find_bucket, hash_insert, hash_replace, rehash, power_loop, is_power_of_2,
  turn_off_least_1bit,
}
use os_project.Hash.Elements.{elements}
use os_project.Hash.Find.{IsKeyed, IsTable, IsFound}
use os_project.Hash.Insert.{hash_insert_lem, added}
use os_project.Hash.Replace.{hash_replace_lem, taken}
use os_project.Hash.Rehash.{Rehashed, rehash_lem}
use os_project.Hash.Iterate.{hash_first, hash_next_lem, visit}

abbrev key : ℕ → ℕ
key a = a / 10

abbrev less : ℕ → ℕ → Bool
less a b = ltb (key a) (key b)

abbrev table : Table
table = record {
  elem_cnt = 3;
  bucket_cnt = 4;
  buckets = λ i. if i == 1 then 50 ∷ 90 ∷ [] else (if i == 2 then 60 ∷ [] else []);
}

less-IsKeyed : IsKeyed key less
less-IsKeyed = record {
  irrefl = λ a. ground arith;
  trans = λ a b c p q. ground (arith, p, q);
  respects = λ a b p. ground (arith, p);
}

table_placed : (i t : ℕ) → i < 4 → 0 < count t (table.buckets i) → find_bucket key table t ≡ ok i
unfolding find_bucket
table_placed zero t below inside = let no : ⊥ = omega (arith, inside) in elim no [ ]
table_placed (suc zero) t below inside = elim (among t 50 (90 ∷ []) inside) [
  | inl same ↦ subst (λ u. find_bucket key table u ≡ ok 1) same refl
  | inr later ↦ elim (among t 90 [] later) [
    | inl same ↦ subst (λ u. find_bucket key table u ≡ ok 1) same refl
    | inr never ↦ let no : ⊥ = omega (arith, never) in elim no [ ]
  ]
]
table_placed (suc (suc zero)) t below inside = elim (among t 60 [] inside) [
  | inl same ↦ subst (λ u. find_bucket key table u ≡ ok 2) same refl
  | inr never ↦ let no : ⊥ = omega (arith, never) in elim no [ ]
]
table_placed (suc (suc (suc zero))) t below inside =
    let no : ⊥ = omega (arith, inside) in elim no [ ]
table_placed (suc (suc (suc (suc i)))) t below inside =
    let no : ⊥ = omega (arith, below) in elim no [ ]

table-IsTable : IsTable key less table
table-IsTable = record {
  layout = record {
    digits = 2;
    power = refl;
    few = omega arith;
    four = omega arith;
    placed = table_placed;
  };
  counted = refl;
  once = λ t. ground arith;
  apart = λ a b i j equal. ground (arith, i, j, equal);
}

hash_insert_lem_example :
    Returns
      (λ r.
        IsFound key less (50 ∷ 90 ∷ 60 ∷ []) 75 r.0
        × IsTable key less r.1
        × ((t : ℕ) → count t (elements r.1) ≡ added r.0 75 t + count t (50 ∷ 90 ∷ 60 ∷ [])))
      (hash_insert key less true table 75)
hash_insert_lem_example =
    hash_insert_lem key less true table 75 less-IsKeyed table-IsTable (omega arith)

hash_replace_lem_example :
    Returns
      (λ r.
        IsFound key less (50 ∷ 90 ∷ 60 ∷ []) 55 r.0
        × IsTable key less r.1
        × ((u : ℕ)
            → count u (elements r.1) + taken r.0 u
              ≡ one_if (55 == u) + count u (50 ∷ 90 ∷ 60 ∷ [])))
      (hash_replace key less false table 55)
hash_replace_lem_example =
    hash_replace_lem key less false table 55 less-IsKeyed table-IsTable (omega arith)

rehash_lem_example : Returns (Rehashed key less true table) (rehash key true table)
rehash_lem_example = rehash_lem key less true table table-IsTable.layout (omega arith)

hash_next_lem_example : visit 4 4 table (hash_first table) ≡ ok (50 ∷ 90 ∷ 60 ∷ [])
hash_next_lem_example = hash_next_lem table (omega arith)

power_test : power_loop 32 13 ≡ ok 8
unfolding power_loop is_power_of_2 turn_off_least_1bit
power_test = refl
