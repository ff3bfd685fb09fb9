-- ===== src/Links/Insert.antt =====
-- list_insert of lib/kernel/list.c, list_push_front and list_push_back with it, inserts into the
-- sequence of the elements.
use os_project.Common.{
  ℕ, ◌<◌, ◌≡◌, ◌≢◌, sym, ◌∙◌, List, [], ◌∷◌, ◌++◌, ◌==◌, arith, count, count-append, Returns,
  Returns-assert, Returns-weaken, not, ◌||◌,
}
use os_project.Links.{Links, Ends, list_insert, is_interior, is_tail}
use os_project.Links.Chain.{
  Chain, Rest, Chain-cut, Chain-cons, Chain-join, Chain-last, Rest-frame, Chain-retarget, front_or,
  count-front_or, count_self,
}
use os_project.Links.Lists.{IsList, Fresh, Fresh-once, not_null, Fresh-ne, halves-ne, count-halves}

-- What list_insert changes: the four links around the new element.
record Inserted (h : Links) (m e : ℕ) (h' : Links) : Type 0 where
  next_e : h'.next e ≡ m
  next_last : h'.next (h.prev m) ≡ e
  prev_m : h'.prev m ≡ e
  prev_e : h'.prev e ≡ h.prev m
  next_else : (a : ℕ) → a ≢ e → a ≢ h.prev m → h'.next a ≡ h.next a
  prev_else : (a : ℕ) → a ≢ e → a ≢ m → h'.prev a ≡ h.prev a

list_insert_lem :
    (h : Links) (m e : ℕ)
    → m ≢ 0
    → h.prev m ≢ 0
    → e ≢ 0
    → e ≢ m
    → e ≢ h.prev m
    → Returns (Inserted h m e) (list_insert m e h)
unfolding list_insert
list_insert_lem h m e m0 p0 e0 em ep =
    Returns-assert (Inserted h m e) (is_interior h m || is_tail h m) _ (ground arith) (
      Returns-assert (Inserted h m e) (not (e == 0)) _ (ground arith) (record {
        next_e = ground arith;
        next_last = ground arith;
        prev_m = ground arith;
        prev_e = ground arith;
        next_else = λ a ae ap. ground arith;
        prev_else = λ a ae am. ground arith;
      }))

module _ (h h' : Links) (l : Ends) (xs ys : List ℕ) (e : ℕ) (s : IsList h l (xs ++ ys))
    (f : Fresh e l (xs ++ ys)) (i : Inserted h (front_or ys l.tail) e h') where
  ne_before : (a : ℕ) → 0 < count a (l.head ∷ xs) → a ≢ e
  ne_before a o = Fresh-ne l (xs ++ ys) e a f (omega (arith, o, count-halves a l xs ys))

  ne_behind : (a : ℕ) → 0 < count a (ys ++ (l.tail ∷ [])) → a ≢ e
  ne_behind a o =
      Fresh-ne l (xs ++ ys) e a f
        (omega (arith, o, count-halves a l xs ys, count-append a ys (l.tail ∷ [])))

  ne_place : (a : ℕ) → 0 < count a (l.head ∷ xs) → a ≢ front_or ys l.tail
  ne_place a o =
      halves-ne l xs ys a (front_or ys l.tail) s.once (omega (arith, o)) (count-front_or ys l.tail)

  before : Chain h l.head xs (front_or ys l.tail)
  before = (Chain-cut h l.head xs ys l.tail s.chain).0

  ne_last : (a : ℕ) → 0 < count a (ys ++ (l.tail ∷ [])) → a ≢ h.prev (front_or ys l.tail)
  ne_last a o same =
      halves-ne l xs ys (h.prev (front_or ys l.tail)) a s.once
        (omega (arith, Chain-last h l.head xs (front_or ys l.tail) before)) o (sym same)

  before-Chain : Chain h' l.head xs e
  before-Chain =
      Chain-retarget h h' l.head xs (front_or ys l.tail) e i.next_last i.prev_e
        (λ a o n. i.next_else a (ne_before a o) n)
        (λ a o. i.prev_else a (ne_before a (omega (arith, o))) (ne_place a (omega (arith, o))))
        (λ t. omega (arith, s.once t, count-halves t l xs ys)) before

  behind-Rest : Rest h' ys l.tail
  behind-Rest =
      Rest-frame h h' ys l.tail
        (λ a o.
          i.next_else a (ne_behind a (omega (arith, o, count-append a ys (l.tail ∷ []))))
            (ne_last a (omega (arith, o, count-append a ys (l.tail ∷ [])))))
        (λ a o n. i.prev_else a (ne_behind a (omega (arith, o, count-append a ys (l.tail ∷ [])))) n)
        (λ t. omega (arith, s.once t, count-halves t l xs ys, count-append t ys (l.tail ∷ [])))
        (Chain-cut h l.head xs ys l.tail s.chain).1

  tail_in : 0 < count l.tail (ys ++ (l.tail ∷ []))
  tail_in = omega (arith, count-append l.tail ys (l.tail ∷ []), count_self l.tail [])

  -- The new element stands where the links were changed.
  Inserted-IsList : IsList h' l (xs ++ (e ∷ ys))
  Inserted-IsList = record {
    chain =
        Chain-join h' l.head xs (e ∷ ys) l.tail before-Chain
          (Chain-cons h' e ys l.tail i.next_e i.prev_m behind-Rest);
    once = λ t. Fresh-once l xs ys e t s.once f;
    first =
        i.prev_else l.head (ne_before l.head (count_self l.head xs))
          (ne_place l.head (count_self l.head xs))
        ∙ s.first;
    last = i.next_else l.tail (ne_behind l.tail tail_in) (ne_last l.tail tail_in) ∙ s.last;
  }

module _ (h : Links) (l : Ends) (xs ys : List ℕ) (e : ℕ) (s : IsList h l (xs ++ ys))
    (f : Fresh e l (xs ++ ys)) where
  place_in : 0 < count (front_or ys l.tail) (l.head ∷ ((xs ++ ys) ++ (l.tail ∷ [])))
  place_in =
      let m = front_or ys l.tail in
      omega
        (arith, count-front_or ys l.tail, count-halves m l xs ys, count-append m ys (l.tail ∷ []))

  last_in : 0 < count (h.prev (front_or ys l.tail)) (l.head ∷ ((xs ++ ys) ++ (l.tail ∷ [])))
  last_in =
      let m = front_or ys l.tail in
      omega (
        arith,
        Chain-last h l.head xs m (Chain-cut h l.head xs ys l.tail s.chain).0,
        count-halves (h.prev m) l xs ys,
      )

  -- list_insert puts a new element before the given one, or before the tail: it returns with the
  -- list's elements before it, then the element, then those from the given one on.
  pub list_insert-IsList :
      Returns (λ h'. IsList h' l (xs ++ (e ∷ ys))) (list_insert (front_or ys l.tail) e h)
  list_insert-IsList =
      let m = front_or ys l.tail in
      Returns-weaken (Inserted h m e) (λ h'. IsList h' l (xs ++ (e ∷ ys))) (list_insert m e h)
        (λ h' i. Inserted-IsList h h' l xs ys e s f i)
        (list_insert_lem h m e (not_null l (xs ++ ys) m s.once place_in)
          (not_null l (xs ++ ys) (h.prev m) s.once last_in)
          (λ same.
            Fresh-ne l (xs ++ ys) e 0 f (count_self 0 (l.head ∷ ((xs ++ ys) ++ (l.tail ∷ []))))
              (sym same))
          (λ same. Fresh-ne l (xs ++ ys) e m f (omega (arith, place_in)) (sym same))
          (λ same. Fresh-ne l (xs ++ ys) e (h.prev m) f (omega (arith, last_in)) (sym same)))
