-- ===== src/Links.antt =====
-- lib/kernel/list.c: doubly linked lists with a head and a tail element. An element is an address,
-- 0 is NULL, and the links of all elements are the state. A list is the addresses of its two ends.
-- A loop over a list takes fuel: one round more than the list has elements is enough.
use os_project.Common.{
  ℕ, zero, suc, ◌+◌, Bool, true, false, not, ◌&&◌, ◌||◌, ◌==◌, if◌then◌else◌, Result, ok, err,
  bad_access, out_of_fuel, assert, ◌>>=◌, ◌>>◌, u32,
}
pub mod Chain
pub mod Lists
pub mod Insert
pub mod Remove
pub mod Walk
pub mod Order
pub mod Exchange
pub mod Reverse
pub mod Ordered
pub mod Extreme
pub mod Unique
pub mod Merge
pub mod Splice
pub mod Sort
pub mod Runs
pub mod Passes
pub mod Sorted
mod Tests

-- The `prev` and `next` members of every `struct list_elem`.
pub record Links : Type 0 where
  pub prev : ℕ → ℕ
  pub next : ℕ → ℕ

-- `struct list`
pub record Ends : Type 0 where
  pub head : ℕ
  pub tail : ℕ

abbrev pub set_prev : Links → ℕ → ℕ → Links
set_prev h e v = record h { prev = λ a. if a == e then v else h.prev a }

abbrev pub set_next : Links → ℕ → ℕ → Links
set_next h e v = record h { next = λ a. if a == e then v else h.next a }

abbrev pub is_head : Links → ℕ → Bool
is_head h e = not (e == 0) && (h.prev e == 0 && not (h.next e == 0))

abbrev pub is_interior : Links → ℕ → Bool
is_interior h e = not (e == 0) && (not (h.prev e == 0) && not (h.next e == 0))

abbrev pub is_tail : Links → ℕ → Bool
is_tail h e = not (e == 0) && (not (h.prev e == 0) && h.next e == 0)

unfoldable pub list_init : Ends → Links → Links
list_init l h =
    set_next (set_prev (set_next (set_prev h l.head 0) l.head l.tail) l.tail l.head) l.tail 0

abbrev pub list_begin : Ends → Links → ℕ
list_begin l h = h.next l.head

abbrev pub list_rbegin : Ends → Links → ℕ
list_rbegin l h = h.prev l.tail

abbrev pub list_end : Ends → ℕ
list_end l = l.tail

abbrev list_rend : Ends → ℕ
list_rend l = l.head

abbrev list_head : Ends → ℕ
list_head l = l.head

abbrev list_tail : Ends → ℕ
list_tail l = l.tail

unfoldable pub list_next : ℕ → Links → Result ℕ
list_next e h = do assert (is_head h e || is_interior h e); ok (h.next e)

unfoldable pub list_prev : ℕ → Links → Result ℕ
list_prev e h = do assert (is_interior h e || is_tail h e); ok (h.prev e)

abbrev pub list_empty : Ends → Links → Bool
list_empty l h = list_begin l h == list_end l

unfoldable pub list_insert : ℕ → ℕ → Links → Result Links
list_insert before elem h = do
  assert (is_interior h before || is_tail h before)
  assert (not (elem == 0))
  let h1 = set_prev h elem (h.prev before)
  let h2 = set_next h1 elem before
  let h3 = set_next h2 (h2.prev before) elem
  ok (set_prev h3 before elem)

unfoldable pub list_splice : ℕ → ℕ → ℕ → Links → Result Links
list_splice before first last h = do
  assert (is_interior h before || is_tail h before)
  if first == last then ok h else (do
    last' ← list_prev last h
    assert (is_interior h first)
    assert (is_interior h last')
    let h1 = set_next h (h.prev first) (h.next last')
    let h2 = set_prev h1 (h1.next last') (h1.prev first)
    let h3 = set_prev h2 first (h2.prev before)
    let h4 = set_next h3 last' before
    let h5 = set_next h4 (h4.prev before) first
    ok (set_prev h5 before last'))

abbrev pub list_push_front : Ends → ℕ → Links → Result Links
list_push_front l elem h = list_insert (list_begin l h) elem h

abbrev pub list_push_back : Ends → ℕ → Links → Result Links
list_push_back l elem h = list_insert (list_end l) elem h

-- The element that followed, and the links.
unfoldable pub list_remove : ℕ → Links → Result (ℕ × Links)
list_remove elem h = do
  assert (is_interior h elem)
  let h1 = set_next h (h.prev elem) (h.next elem)
  let h2 = set_prev h1 (h1.next elem) (h1.prev elem)
  ok (h2.next elem, h2)

abbrev pub list_front : Ends → Links → Result ℕ
list_front l h = do assert (not (list_empty l h)); ok (h.next l.head)

abbrev pub list_back : Ends → Links → Result ℕ
list_back l h = do assert (not (list_empty l h)); ok (h.prev l.tail)

-- The element, and the links.
unfoldable pub list_pop_front : Ends → Links → Result (ℕ × Links)
list_pop_front l h = do front ← list_front l h; (after, h') ← list_remove front h; ok (front, h')

unfoldable pub list_pop_back : Ends → Links → Result (ℕ × Links)
list_pop_back l h = do back ← list_back l h; (after, h') ← list_remove back h; ok (back, h')

unfoldable pub size_loop : ℕ → ℕ → ℕ → ℕ → Links → Result ℕ
size_loop zero end e cnt h = err out_of_fuel
size_loop (suc fuel) end e cnt h =
    if e == end then ok cnt else (do e' ← list_next e h; size_loop fuel end e' (u32 (cnt + 1)) h)

unfoldable pub list_size : ℕ → Ends → Links → Result ℕ
unfolding size_loop
list_size fuel l h = size_loop fuel (list_end l) (list_begin l h) 0 h

-- `e->prev` and `e->next` of the NULL pointer are no memory.
abbrev pub swap_links : ℕ → Links → Result Links
swap_links e h =
    if e == 0 then err bad_access else ok (set_next (set_prev h e (h.next e)) e (h.prev e))

unfoldable pub reverse_loop : ℕ → ℕ → ℕ → Links → Result Links
reverse_loop zero end e h = err out_of_fuel
reverse_loop (suc fuel) end e h =
    if e == end then ok h else (do h' ← swap_links e h; reverse_loop fuel end (h'.prev e) h')

-- The last two swaps: of the ends' links, and of the links back to the ends.
abbrev pub swap_ends : Ends → Links → Links
swap_ends l h = set_prev (set_next h l.head (h.prev l.tail)) l.tail (h.next l.head)

abbrev pub swap_back : ℕ → ℕ → Links → Links
swap_back a b h = set_next (set_prev h a (h.next b)) b (h.prev a)

unfoldable pub list_reverse : ℕ → Ends → Links → Result Links
unfolding reverse_loop
list_reverse fuel l h = if list_empty l h then ok h else (do
  h1 ← reverse_loop fuel (list_end l) (list_begin l h) h
  let h2 = swap_ends l h1
  ok (swap_back (h2.next l.head) (h2.prev l.tail) h2))
