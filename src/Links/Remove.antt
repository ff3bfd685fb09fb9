-- ===== src/Links/Remove.antt =====
-- list_remove, list_pop_front and list_pop_back of lib/kernel/list.c take an element out of the
-- sequence.
use mathlib.Core.Path.{subst}
use mathlib.Core.List.{append-nil}
use os_project.Common.{
  Result, Returns-bind, ◌>>=◌, ℕ, ◌<◌, ◌≡◌, ◌≢◌, sym, ap, ◌∙◌, List, [], ◌∷◌, ◌++◌, arith, count,
  count-append, Returns, Returns-assert, Returns-weaken, not, ok,
}
use os_project.Links.{
  Links, Ends, list_remove, list_pop_front, list_pop_back, list_front, list_back, is_interior,
  list_empty,
}
use os_project.Links.Chain.{
  Chain, Rest, Chain-cut, Chain-uncons, Chain-join, Chain-last, Rest-frame, Chain-retarget,
  front_or, count-front_or, count_self,
}
use os_project.Links.Lists.{IsList, halves-ne, not_null, not_empty, count-halves}

-- What list_remove changes: the two links over the element.
record Removed (h : Links) (e : ℕ) (after : ℕ) (h' : Links) : Type 0 where
  following : after ≡ h.next e
  next_last : h'.next (h.prev e) ≡ h.next e
  prev_next : h'.prev (h.next e) ≡ h.prev e
  next_else : (a : ℕ) → a ≢ h.prev e → h'.next a ≡ h.next a
  prev_else : (a : ℕ) → a ≢ h.next e → h'.prev a ≡ h.prev a

list_remove_lem :
    (h : Links) (e : ℕ)
    → e ≢ 0
    → h.prev e ≢ 0
    → h.next e ≢ 0
    → h.prev e ≢ e
    → Returns (λ r. Removed h e r.0 r.1) (list_remove e h)
unfolding list_remove
list_remove_lem h e e0 p0 n0 pe =
    Returns-assert (λ r. Removed h e r.0 r.1) (is_interior h e) _ (ground arith)
      (record {
        following = ground arith;
        next_last = ground arith;
        prev_next = ground arith;
        next_else = λ a n. ground arith;
        prev_else = λ a n. ground arith;
      })

module _ (h : Links) (l : Ends) (xs ys : List ℕ) (e : ℕ) (s : IsList h l (xs ++ (e ∷ ys))) where
  behind : Chain h e ys l.tail
  behind = (Chain-cut h l.head xs (e ∷ ys) l.tail s.chain).1

  before : Chain h l.head xs e
  before = (Chain-cut h l.head xs (e ∷ ys) l.tail s.chain).0

  next_e : h.next e ≡ front_or ys l.tail
  next_e = (Chain-uncons h e ys l.tail behind).0

  last_in : 0 < count (h.prev e) (l.head ∷ xs)
  last_in = Chain-last h l.head xs e before

  ne_next : (a : ℕ) → 0 < count a (l.head ∷ xs) → a ≢ h.next e
  ne_next a o same =
      halves-ne l xs (e ∷ ys) a (front_or ys l.tail) s.once (omega (arith, o))
        (omega (arith, count-front_or ys l.tail)) (same ∙ next_e)

  ne_last : (a : ℕ) → 0 < count a (e ∷ (ys ++ (l.tail ∷ []))) → a ≢ h.prev e
  ne_last a o same =
      halves-ne l xs (e ∷ ys) (h.prev e) a s.once (omega (arith, last_in)) o (sym same)

  module _ (h' : Links) (after : ℕ) (r : Removed h e after h') where
    before-Chain : Chain h' l.head xs (front_or ys l.tail)
    before-Chain =
        Chain-retarget h h' l.head xs e (front_or ys l.tail) (r.next_last ∙ next_e)
          (ap h'.prev (sym next_e) ∙ r.prev_next) (λ a o n. r.next_else a n)
          (λ a o. r.prev_else a (ne_next a (omega (arith, o))))
          (λ t. omega (arith, s.once t, count-halves t l xs (e ∷ ys))) before

    behind-Rest : Rest h' ys l.tail
    behind-Rest =
        Rest-frame h h' ys l.tail
          (λ a o. r.next_else a (ne_last a (omega (arith, o, count-append a ys (l.tail ∷ [])))))
          (λ a o n. r.prev_else a (λ same. n (same ∙ next_e)))
          (λ t.
            omega (arith, s.once t, count-halves t l xs (e ∷ ys), count-append t ys (l.tail ∷ [])))
          (Chain-uncons h e ys l.tail behind).1

    Removed-IsList : IsList h' l (xs ++ ys)
    Removed-IsList = record {
      chain = Chain-join h' l.head xs ys l.tail before-Chain behind-Rest;
      once = λ t. omega (arith, s.once t, count-halves t l xs (e ∷ ys), count-halves t l xs ys);
      first = r.prev_else l.head (ne_next l.head (count_self l.head xs)) ∙ s.first;
      last =
          r.next_else l.tail (
            ne_last l.tail
              (omega (arith, count-append l.tail ys (l.tail ∷ []), count_self l.tail [])))
          ∙ s.last;
    }

  e_in : 0 < count e (l.head ∷ ((xs ++ (e ∷ ys)) ++ (l.tail ∷ [])))
  e_in = omega (arith, count-halves e l xs (e ∷ ys), count_self e ys)

  -- list_remove takes an element of a list out of it: it returns the element that followed, or the
  -- tail, and the list holds the other elements in their order.
  pub list_remove-IsList :
      Returns (λ r. (r.0 ≡ front_or ys l.tail) × IsList r.1 l (xs ++ ys)) (list_remove e h)
  list_remove-IsList =
      Returns-weaken (λ r. Removed h e r.0 r.1)
        (λ r. (r.0 ≡ front_or ys l.tail) × IsList r.1 l (xs ++ ys)) (list_remove e h)
        (λ r i. (i.following ∙ next_e, Removed-IsList r.1 r.0 i))
        (list_remove_lem h e (not_null l (xs ++ (e ∷ ys)) e s.once e_in)
          (not_null l (xs ++ (e ∷ ys)) (h.prev e) s.once
            (omega (arith, last_in, count-halves (h.prev e) l xs (e ∷ ys))))
          (λ same.
            not_null l (xs ++ (e ∷ ys)) (front_or ys l.tail) s.once
              (omega (
                arith,
                count-front_or ys l.tail,
                count-append (front_or ys l.tail) ys (l.tail ∷ []),
                count-halves (front_or ys l.tail) l xs (e ∷ ys),
              ))
              (sym next_e ∙ same))
          (λ same. ne_last e (count_self e (ys ++ (l.tail ∷ []))) (sym same)))

pop_lem :
    (h : Links) (l : Ends) (xs ys : List ℕ) (x : ℕ) (end : Result ℕ)
    → IsList h l (xs ++ (x ∷ ys))
    → Returns (λ f. f ≡ x) end
    → Returns {A = ℕ × Links}
        (λ r. (r.0 ≡ x) × IsList r.1 l (xs ++ ys))
        (do f ← end; (after, h') ← list_remove f h; ok (f, h'))
pop_lem h l xs ys x end s found =
    let Popped = λ (r : ℕ × Links). (r.0 ≡ x) × IsList r.1 l (xs ++ ys) in
    let Taken = λ (r : ℕ × Links). (r.0 ≡ front_or ys l.tail) × IsList r.1 l (xs ++ ys) in
    Returns-bind (λ f. f ≡ x) Popped end _ found
      (λ f same.
        Returns-bind Taken Popped (list_remove f h) _
          (subst (λ u. Returns Taken (list_remove u h)) (sym same)
            (list_remove-IsList h l xs ys x s))
          (λ r t. (same, t.1)))

-- list_pop_front of a list that has an element returns the first one, and the list holds the others.
pub list_pop_front-IsList :
    (h : Links) (l : Ends) (x : ℕ) (xs : List ℕ)
    → IsList h l (x ∷ xs)
    → Returns (λ r. (r.0 ≡ x) × IsList r.1 l xs) (list_pop_front l h)
unfolding list_pop_front
list_pop_front-IsList h l x xs s =
    pop_lem h l [] xs x (list_front l h) s
      (Returns-assert (λ f. f ≡ x) (not (list_empty l h)) _ (not_empty h l [] x xs s) s.chain.0)

-- list_pop_back of a list that has an element returns the last one, and the list holds the others.
pub list_pop_back-IsList :
    (h : Links) (l : Ends) (x : ℕ) (xs : List ℕ)
    → IsList h l (xs ++ (x ∷ []))
    → Returns (λ r. (r.0 ≡ x) × IsList r.1 l xs) (list_pop_back l h)
unfolding list_pop_back
list_pop_back-IsList h l x xs s =
    subst (λ us. Returns (λ r. (r.0 ≡ x) × IsList r.1 l us) (list_pop_back l h)) (append-nil xs)
      (pop_lem h l xs [] x (list_back l h) s (
        Returns-assert (λ f. f ≡ x) (not (list_empty l h)) _ (not_empty h l xs x [] s)
          (Chain-cut h l.head xs (x ∷ []) l.tail s.chain).1.1))
