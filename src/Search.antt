-- ===== src/Search.antt =====
-- binary_search and bsearch of lib/stdlib.c. An element is an item of a list, not its bytes, and a
-- pointer into the array an index.
use Prim.Native.Nat.{Ordering}
use os_project.Common.{
  ℕ, zero, suc, ◌+◌, ◌-◌, ◌/◌, Option, none, some, List, get_elem?, ltb, if◌then◌else◌, Result, ok,
  err, out_of_fuel, bad_access, ◌>>=◌,
}
pub mod Found
pub mod Tests

-- An access outside the array is undefined.
abbrev pub read {ℓ} : {A : Type ℓ} → Option A → Result A
read none = err bad_access
read (some a) = ok a

-- `compare` gives the sign of the C function's result. Each round of fuel is one of the loop.
unfoldable pub search_loop {ℓ} :
    {A : Type ℓ} → (A → A → Ordering) → A → List A → ℕ → ℕ → ℕ → Result (Option ℕ)
search_loop compare key array zero first last = err out_of_fuel
search_loop compare key array (suc fuel) first last =
    if ltb first last
    then (do
      let range = last - first
      let middle = first + range / 2
      x ← read (get_elem? array middle)
      elim (compare key x) [
        | Ordering.lt ↦ search_loop compare key array fuel first middle
        | Ordering.gt ↦ search_loop compare key array fuel (middle + 1) last
        | Ordering.eq ↦ ok (some middle)
      ])
    else ok none

-- The index of a match, or none for NULL. The range shrinks in every round.
unfoldable pub binary_search {ℓ} :
    {A : Type ℓ} → (A → A → Ordering) → A → List A → ℕ → Result (Option ℕ)
unfolding search_loop
binary_search compare key array cnt = search_loop compare key array (cnt + 1) 0 cnt

abbrev pub compare_thunk {ℓ} : {A : Type ℓ} → A → A → (A → A → Ordering) → Ordering
compare_thunk a b compare = compare a b

unfoldable pub bsearch {ℓ} : {A : Type ℓ} → A → List A → ℕ → (A → A → Ordering) → Result (Option ℕ)
unfolding binary_search
bsearch key array cnt compare = binary_search (λ a b. compare_thunk a b compare) key array cnt
