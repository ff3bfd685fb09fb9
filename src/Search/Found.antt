-- ===== src/Search/Found.antt =====
-- Correctness of the binary search of lib/stdlib.c.
use Prim.Native.Nat.{Ordering}
use os_project.Common.{
  ℕ, zero, suc, ◌+◌, ◌-◌, ◌/◌, ◌≤◌, ◌<◌, ◌≡◌, ◌≢◌, refl, sym, ap, ◌∙◌, Bool, dec_lt, ltb→lt,
  Bool-cases, inl, inr, arith, true, false, ltb, Option, none, some, List, length, get_or,
  get_elem?-eq-get_or, ok,
}
use os_project.Search.{search_loop, binary_search}

-- To split on the result of a comparison and keep the equation.
data Outcome (c : Ordering) : Type 0 where
  less : c ≡ Ordering.lt → Outcome c
  same : c ≡ Ordering.eq → Outcome c
  more : c ≡ Ordering.gt → Outcome c

outcome : (c : Ordering) → Outcome c
outcome Ordering.lt = less refl
outcome Ordering.eq = same refl
outcome Ordering.gt = more refl

abbrev is_equal : Ordering → Bool
is_equal Ordering.lt = false
is_equal Ordering.eq = true
is_equal Ordering.gt = false

false-ne-true : false ≢ true
false-ne-true e = ground (arith, e)

module _ {ℓ} {A : Type ℓ} (compare : A → A → Ordering) (key : A) (array : List A) where
  abbrev pub at : ℕ → Ordering
  at i = compare key (get_or array i key)

  -- Sorted, as far as the key goes: what comes before an element below the key is below it, and
  -- what comes behind an element above the key is above it.
  pub record IsSorted (cnt : ℕ) : Type 0 where
    pub fits : cnt ≤ length array
    pub below : (i j : ℕ) → i ≤ j → j < cnt → at j ≡ Ordering.gt → at i ≡ Ordering.gt
    pub above : (i j : ℕ) → i ≤ j → j < cnt → at i ≡ Ordering.lt → at j ≡ Ordering.lt

  -- A match, or the proof that there is none.
  abbrev pub Finds : ℕ → Option ℕ → Type 0
  Finds cnt (some m) = (m < cnt) × (at m ≡ Ordering.eq)
  Finds cnt none = (i : ℕ) → i < cnt → at i ≢ Ordering.eq

  search_loop_lem :
      (fuel cnt first last : ℕ)
      → IsSorted cnt
      → first ≤ last
      → last ≤ cnt
      → last < first + fuel
      → ((i : ℕ) → i < first → at i ≡ Ordering.gt)
      → ((i : ℕ) → last ≤ i → i < cnt → at i ≡ Ordering.lt)
      → (r : Option ℕ) × (search_loop compare key array fuel first last ≡ ok r) × Finds cnt r
  unfolding search_loop
  search_loop_lem zero cnt first last v order inside enough lows highs = absurd (omega arith)
  search_loop_lem (suc fuel) cnt first last v order inside enough lows highs =
      elim (Bool-cases (ltb first last)) [
        | inl e ↦
            let lt = ltb→lt first last e in
            let m = first + (last - first) / 2 in
            let low : first ≤ m = omega arith in
            let high : m < last = omega arith in
            let there = get_elem?-eq-get_or array m key (omega (arith, v.fits)) in
            elim (outcome (at m)) [
              | less c ↦
                  let (r, run, found) =
                    search_loop_lem fuel cnt first m v low (omega arith) (omega arith) lows
                      (λ i p q. v.above m i p q c) in
                  (r, rw (e, there, c) run, found)
              | same c ↦ (some m, rw (e, there, c) refl, (omega arith, c))
              | more c ↦
                  let (r, run, found) =
                    search_loop_lem fuel cnt (m + 1) last v (omega arith) inside (omega arith)
                      (λ i p. v.below i m (omega arith) (omega arith) c) highs in
                  (r, rw (e, there, c) run, found)
            ]
        | inr e ↦
            let empty : last ≤ first = ground arith in
            (
              none,
              rw e refl,
              λ i h m. elim (dec_lt i first) [
                | yes p ↦ false-ne-true (ap is_equal (sym (lows i p) ∙ m))
                | no p ↦ false-ne-true (ap is_equal (sym (highs i (omega arith) h) ∙ m))
              ],
            )
      ]

  -- binary_search in a sorted array returns the index of a match, or NULL if there is none; its
  -- accesses stay inside the array, and the loop ends.
  pub binary_search_lem :
      (cnt : ℕ)
      → IsSorted cnt
      → (r : Option ℕ) × (binary_search compare key array cnt ≡ ok r) × Finds cnt r
  unfolding binary_search
  binary_search_lem cnt v =
      search_loop_lem (cnt + 1) cnt 0 cnt v (omega arith) (omega arith) (omega arith)
        (λ i p. absurd (omega arith)) (λ i p q. absurd (omega arith))
