-- ===== src/Links/Extreme.antt =====
-- list_max and list_min of lib/kernel/list.c find an element that no other one exceeds.
use mathlib.Core.Path.{subst}
use os_project.Common.{
  ℕ, zero, suc, ◌<◌, ◌≡◌, refl, sym, List, [], ◌∷◌, ◌==◌, arith, count, one_if, length, ok, true,
  false, Bool, Bool-cases, inl, inr, ◌⊎◌, if◌then◌else◌, Returns, ℕ_discrete,
}
use os_project.Links.{Links, Ends}
use os_project.Links.Order.{list_max, max_loop, list_min, min_loop}
use os_project.Links.Chain.{front_or, count_self}
use os_project.Links.Lists.{IsList, ne-false, same-true}
use os_project.Links.Walk.{Walk, IsList-Walk}

-- The first element that none of the list exceeds, in the order `more`.
abbrev pub pick : (ℕ → ℕ → Bool) → ℕ → List ℕ → ℕ
pick more m [] = m
pick more m (y ∷ ys) = pick more (if more y m then y else m) ys

module _ (less : ℕ → ℕ → Bool) where
  max_loop_lem :
      (h : Links) (p : ℕ) (xs : List ℕ) (q fuel m : ℕ)
      → Walk h p xs q
      → length xs < fuel
      → max_loop less fuel q m (front_or xs q) h ≡ ok (pick (λ y n. less n y) m xs)
  unfolding max_loop
  max_loop_lem h p xs q zero m w enough = let no : ⊥ = omega arith in elim no [ ]
  max_loop_lem h p [] q (suc fuel) m w enough = rw (same-true q) refl
  max_loop_lem h p (x ∷ xs) q (suc fuel) m (other, nx, pv, w) enough =
      rw (ne-false x q other)
        (rw nx (max_loop_lem h x xs q fuel (if less m x then x else m) w (omega arith)))

  min_loop_lem :
      (h : Links) (p : ℕ) (xs : List ℕ) (q fuel m : ℕ)
      → Walk h p xs q
      → length xs < fuel
      → min_loop less fuel q m (front_or xs q) h ≡ ok (pick less m xs)
  unfolding min_loop
  min_loop_lem h p xs q zero m w enough = let no : ⊥ = omega arith in elim no [ ]
  min_loop_lem h p [] q (suc fuel) m w enough = rw (same-true q) refl
  min_loop_lem h p (x ∷ xs) q (suc fuel) m (other, nx, pv, w) enough =
      rw (ne-false x q other)
        (rw nx (min_loop_lem h x xs q fuel (if less x m then x else m) w (omega arith)))

-- A strict weak order: what a caller's `less` has to be.
pub record IsStrictWeak (less : ℕ → ℕ → Bool) : Type 0 where
  pub asym : (a b : ℕ) → less a b ≡ true → less b a ≡ false
  pub coarse : (a b c : ℕ) → less a b ≡ false → less b c ≡ false → less a c ≡ false

-- The element m is one of xs, and none of them exceeds it.
abbrev pub Picked : (ℕ → ℕ → Bool) → List ℕ → ℕ → Type 0
Picked more xs m = (0 < count m xs) × ((a : ℕ) → 0 < count a xs → more a m ≡ false)

pub among : (a m : ℕ) (xs : List ℕ) → 0 < count a (m ∷ xs) → (m ≡ a) ⊎ (0 < count a xs)
among a m xs i = elim (ℕ_discrete m a) [
  | yes same ↦ inl same
  | no other ↦
      inr (let none : one_if (m == a) ≡ 0 = rw (ne-false m a other) refl in omega (arith, i, none))
]

module _ (more : ℕ → ℕ → Bool) (o : IsStrictWeak more) where
  irrefl : (a : ℕ) → more a a ≡ false
  irrefl a = elim (Bool-cases (more a a)) [ inl t ↦ o.asym a a t | inr f ↦ f ]

  Picked-one : (m : ℕ) → Picked more (m ∷ []) m
  Picked-one m = (
    count_self m [],
    λ a i. elim (among a m [] i) [
      | inl same ↦ subst (λ u. more u m ≡ false) same (irrefl m)
      | inr none ↦ let no : ⊥ = omega (arith, none) in elim no [ ]
    ],
  )

  Picked-better :
      (m x r : ℕ) (xs : List ℕ)
      → more x m ≡ true
      → Picked more (x ∷ xs) r
      → Picked more (m ∷ (x ∷ xs)) r
  Picked-better m x r xs exceeds (inside, most) = (
    omega (arith, inside),
    λ a i. elim (among a m (x ∷ xs) i) [
      | inl same ↦
          subst (λ u. more u r ≡ false) same
            (o.coarse m x r (o.asym x m exceeds) (most x (count_self x xs)))
      | inr j ↦ most a j
    ],
  )

  Picked-worse :
      (m x r : ℕ) (xs : List ℕ)
      → more x m ≡ false
      → Picked more (m ∷ xs) r
      → Picked more (m ∷ (x ∷ xs)) r
  Picked-worse m x r xs within (inside, most) = (
    omega (arith, inside),
    λ a i. elim (among a m (x ∷ xs) i) [
      | inl same ↦ most a (subst (λ u. 0 < count u (m ∷ xs)) same (count_self m xs))
      | inr j ↦ elim (among a x xs j) [
        | inl same ↦
            subst (λ u. more u r ≡ false) same (o.coarse x m r within (most m (count_self m xs)))
        | inr k ↦ most a (omega (arith, k))
      ]
    ],
  )

  pick-Picked : (m : ℕ) (xs : List ℕ) → Picked more (m ∷ xs) (pick more m xs)
  pick-Picked m [] = Picked-one m
  pick-Picked m (x ∷ xs) = elim (Bool-cases (more x m)) [
    | inl exceeds ↦
        subst (λ b. Picked more (m ∷ (x ∷ xs)) (pick more (if b then x else m) xs)) (sym exceeds)
          (Picked-better m x (pick more x xs) xs exceeds (pick-Picked x xs))
    | inr within ↦
        subst (λ b. Picked more (m ∷ (x ∷ xs)) (pick more (if b then x else m) xs)) (sym within)
          (Picked-worse m x (pick more m xs) xs within (pick-Picked m xs))
  ]

module _ (less : ℕ → ℕ → Bool) (h : Links) (l : Ends) (x : ℕ) (xs : List ℕ) (fuel : ℕ) where
  -- list_max of a list that has an element comes to an end and returns an element of the list that is
  -- not less than any of them, when less is a strict weak order.
  pub list_max-Picked :
      IsList h l (x ∷ xs)
      → IsStrictWeak less
      → length xs < fuel
      → Returns
          (λ m. (0 < count m (x ∷ xs)) × ((a : ℕ) → 0 < count a (x ∷ xs) → less m a ≡ false))
          (list_max less fuel l h)
  unfolding list_max
  list_max-Picked s o enough =
      let (other, nx, pv, w) = IsList-Walk h l (x ∷ xs) s in
      rw s.chain.0 (
        rw (ne-false x l.tail other) (
          rw nx (
            rw (max_loop_lem less h x xs l.tail fuel x w enough) (
              pick-Picked (λ y n. less n y)
                (record { asym = λ a b t. o.asym b a t; coarse = λ a b c u v. o.coarse c b a v u })
                x xs))))

  -- list_min of a list that has an element comes to an end and returns an element of the list that
  -- none of them is less than, when less is a strict weak order.
  pub list_min-Picked :
      IsList h l (x ∷ xs)
      → IsStrictWeak less
      → length xs < fuel
      → Returns
          (λ m. (0 < count m (x ∷ xs)) × ((a : ℕ) → 0 < count a (x ∷ xs) → less a m ≡ false))
          (list_min less fuel l h)
  unfolding list_min
  list_min-Picked s o enough =
      let (other, nx, pv, w) = IsList-Walk h l (x ∷ xs) s in
      rw s.chain.0 (
        rw (ne-false x l.tail other)
          (rw nx (rw (min_loop_lem less h x xs l.tail fuel x w enough) (pick-Picked less o x xs))))
