-- ===== src/Links/Lists.antt =====
-- What the lists of lib/kernel/list.c stand for: the sequence of their elements' addresses.
use os_project.Common.{
  ℕ, ◌+◌, ◌≤◌, ◌<◌, ◌≡◌, ◌≢◌, List, [], ◌∷◌, ◌++◌, arith, count, one_if, count-append, ◌==◌,
  ℕ_discrete, sym, not, true, false,
}
use mathlib.Core.Path.{subst}
use mathlib.Core.List.{append_assoc}
use os_project.Links.{Links, Ends, list_empty, list_init}
use os_project.Links.Chain.{Chain, count_self}

-- The addresses that a list uses, its ends and NULL among them.
abbrev pub addresses : Ends → List ℕ → List ℕ
addresses l xs = 0 ∷ l.head ∷ (xs ++ (l.tail ∷ []))

-- The list l holds the elements xs, in this order. No address is used twice.
pub record IsList (h : Links) (l : Ends) (xs : List ℕ) : Type 0 where
  pub chain : Chain h l.head xs l.tail
  pub once : (t : ℕ) → count t (addresses l xs) ≤ 1
  pub first : h.prev l.head ≡ 0
  pub last : h.next l.tail ≡ 0

-- An address that the list does not use.
abbrev pub Fresh : ℕ → Ends → List ℕ → Type 0
Fresh e l xs = count e (addresses l xs) ≡ 0

-- What both halves of a list use, counted.
pub count-halves :
    (t : ℕ) (l : Ends) (xs ys : List ℕ)
    → count t (addresses l (xs ++ ys))
      ≡ count t (0 ∷ l.head ∷ []) + (count t xs + (count t ys + count t (l.tail ∷ [])))
count-halves t l xs ys =
    omega (arith, count-append t (xs ++ ys) (l.tail ∷ []), count-append t xs ys)

pub Fresh-ne :
    (l : Ends) (xs : List ℕ) (e a : ℕ) → Fresh e l xs → 0 < count a (addresses l xs) → a ≢ e
Fresh-ne l xs e a fresh more same =
    omega (arith, fresh, subst (λ u. 0 < count u (addresses l xs)) same more)

-- What stands before a place of the list is not what stands behind it.
pub halves-ne :
    (l : Ends) (xs ys : List ℕ) (a b : ℕ)
    → ((t : ℕ) → count t (addresses l (xs ++ ys)) ≤ 1)
    → 0 < count a (0 ∷ l.head ∷ xs)
    → 0 < count b (ys ++ (l.tail ∷ []))
    → a ≢ b
halves-ne l xs ys a b once before behind same = omega (
  arith,
  once b,
  count-halves b l xs ys,
  count-append b ys (l.tail ∷ []),
  behind,
  subst (λ u. 0 < count u (0 ∷ l.head ∷ xs)) same before,
)

-- An address counted once more at a place where it was not counted.
pub once_more :
    (e t : ℕ) (others : ℕ → ℕ) → others e ≡ 0 → others t ≤ 1 → one_if (e == t) + others t ≤ 1
once_more e t others none once = elim (ℕ_discrete e t) [
  | yes same ↦ rw (sym same) (rw none (ground arith))
  | no other ↦ ground arith
]

pub Fresh-once :
    (l : Ends) (xs ys : List ℕ) (e t : ℕ)
    → ((u : ℕ) → count u (addresses l (xs ++ ys)) ≤ 1)
    → Fresh e l (xs ++ ys)
    → count t (addresses l (xs ++ (e ∷ ys))) ≤ 1
Fresh-once l xs ys e t once fresh = omega (
  arith,
  once_more e t (λ u. count u (addresses l (xs ++ ys))) fresh (once t),
  count-halves t l xs ys,
  count-halves t l xs (e ∷ ys),
)

-- NULL is no element and no end.
pub not_null :
    (l : Ends) (xs : List ℕ) (a : ℕ)
    → ((u : ℕ) → count u (addresses l xs) ≤ 1)
    → 0 < count a (l.head ∷ (xs ++ (l.tail ∷ [])))
    → a ≢ 0
not_null l xs a once more same =
    omega (arith, once 0, subst (λ u. 0 < count u (l.head ∷ (xs ++ (l.tail ∷ [])))) same more)

-- A list that has an element is not empty.
pub not_empty :
    (h : Links) (l : Ends) (xs : List ℕ) (x : ℕ) (ys : List ℕ)
    → IsList h l (xs ++ (x ∷ ys))
    → not (list_empty l h) ≡ true
not_empty h l [] x ys s =
    let other =
      halves-ne l (x ∷ []) ys x l.tail s.once (omega (arith, count_self x []))
        (omega (arith, count_self l.tail [], count-append l.tail ys (l.tail ∷ []))) in
    ground (arith, s.chain.0)
not_empty h l (w ∷ ws) x ys s =
    let other =
      halves-ne l (w ∷ []) (ws ++ (x ∷ ys)) w l.tail s.once (omega (arith, count_self w []))
        (omega (arith, count_self l.tail [], count-append l.tail (ws ++ (x ∷ ys)) (l.tail ∷ []))) in
    ground (arith, s.chain.0)

pub ne-false : (a b : ℕ) → a ≢ b → (a == b) ≡ false
ne-false a b other = ground arith

pub same-true : (a : ℕ) → (a == a) ≡ true
same-true a = ground arith

pub IsList-shift :
    (h : Links) (l : Ends) (xs : List ℕ) (x : ℕ) (ys : List ℕ)
    → IsList h l (xs ++ (x ∷ ys))
    → IsList h l ((xs ++ (x ∷ [])) ++ ys)
IsList-shift h l xs x ys s = subst (IsList h l) (sym (append_assoc xs (x ∷ []) ys)) s

pub IsList-unshift :
    (h : Links) (l : Ends) (xs : List ℕ) (x : ℕ) (ys : List ℕ)
    → IsList h l ((xs ++ (x ∷ [])) ++ ys)
    → IsList h l (xs ++ (x ∷ ys))
IsList-unshift h l xs x ys s = subst (IsList h l) (append_assoc xs (x ∷ []) ys) s

-- list_init makes the empty list of two different ends that are not NULL.
pub list_init-IsList :
    (l : Ends) (h : Links) → l.head ≢ 0 → l.tail ≢ 0 → l.head ≢ l.tail → IsList (list_init l h) l []
unfolding list_init
list_init-IsList l h head0 tail0 other = record {
  chain = (ground arith, ground arith);
  once = λ t. ground arith;
  first = ground arith;
  last = ground arith;
}
