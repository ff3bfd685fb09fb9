-- ===== src/Hash.antt =====
-- lib/kernel/hash.c: hash tables. An element is an address that is not NULL, and a bucket is the
-- sequence of the elements in its list, which is what the functions of lib/kernel/list.c keep.
use os_project.Common.{
  ℕ, zero, suc, ◌+◌, ◌*◌, ◌/◌, Bool, true, false, not, ◌&&◌, ◌==◌, if◌then◌else◌, ltb, List, [],
  ◌∷◌, ◌++◌, Option, none, some, Result, ok, err, bad_access, out_of_fuel, ◌>>=◌, u32,
}
use Prim.Native.Nat.{bit_and, bit_xor}
pub mod Powers
pub mod Elements
pub mod Find
pub mod Moves
pub mod Rehash
pub mod Insert
pub mod Delete
pub mod Replace
pub mod Iterate
pub mod Bytes
pub mod Clear
mod Tests

-- `struct hash`, without the caller's functions, which are arguments here.
pub record Table : Type 0 where
  pub elem_cnt : ℕ
  pub bucket_cnt : ℕ
  pub buckets : ℕ → List ℕ

unfoldable pub turn_off_least_1bit : ℕ → ℕ
turn_off_least_1bit x = bit_and x (u32 (x + 0xffff_ffff))

unfoldable pub is_power_of_2 : ℕ → Bool
is_power_of_2 x = not (x == 0) && turn_off_least_1bit x == 0

-- The bucket count that rehash is to use, from the ideal one on.
unfoldable pub power_loop : ℕ → ℕ → Result ℕ
power_loop zero new_bucket_cnt = err out_of_fuel
power_loop (suc fuel) new_bucket_cnt =
    if is_power_of_2 new_bucket_cnt
    then ok new_bucket_cnt
    else power_loop fuel (turn_off_least_1bit new_bucket_cnt)

abbrev pub put_bucket : Table → ℕ → List ℕ → Table
put_bucket h i bucket = record h { buckets = λ j. if j == i then bucket else h.buckets j }

-- list_remove, in the bucket that has the element.
abbrev pub remove : ℕ → List ℕ → List ℕ
remove e [] = []
remove e (x ∷ xs) = if x == e then xs else (x ∷ remove e xs)

unfoldable pub insert_elem : Table → ℕ → ℕ → Table
insert_elem h bucket e = record (put_bucket h bucket (e ∷ h.buckets bucket)) {
  elem_cnt = u32 (h.elem_cnt + 1);
}

unfoldable pub remove_elem : Table → ℕ → Table
remove_elem h e = record h {
  elem_cnt = u32 (h.elem_cnt + 0xffff_ffff);
  buckets = λ j. remove e (h.buckets j);
}

-- The lists of new buckets are empty.
abbrev pub fresh_buckets : Table → ℕ → Table
fresh_buckets h new_bucket_cnt = record h { bucket_cnt = new_bucket_cnt; buckets = λ i. [] }

abbrev pub best_bucket_cnt : Table → ℕ
best_bucket_cnt h = let cnt = h.elem_cnt / 2 in if ltb cnt 4 then 4 else cnt

-- What hash_insert, hash_replace and hash_delete do with the element that they found.
unfoldable pub insert_unless : Option ℕ → Table → ℕ → ℕ → Table
insert_unless none h bucket new = insert_elem h bucket new
insert_unless (some old) h bucket new = h

unfoldable pub remove_found : Option ℕ → Table → Table
remove_found none h = h
remove_found (some old) h = remove_elem h old

-- The table's `less`.
module _ (less : ℕ → ℕ → Bool) where
  abbrev pub are_equal : ℕ → ℕ → Bool
  are_equal a b = not (less a b) && not (less b a)

  abbrev pub find_elem : List ℕ → ℕ → Option ℕ
  find_elem [] e = none
  find_elem (hi ∷ rest) e = if are_equal hi e then some hi else find_elem rest e

-- The table's `hash`.
module _ (hash : ℕ → ℕ) where
  unfoldable pub find_bucket : Table → ℕ → Result ℕ
  find_bucket h e =
      let bucket_idx = bit_and (hash e) (u32 (h.bucket_cnt + 0xffff_ffff)) in
      if ltb bucket_idx h.bucket_cnt then ok bucket_idx else err bad_access

  unfoldable pub move_elems : List ℕ → Table → Result Table
  move_elems [] h = ok h
  move_elems (elem ∷ rest) h = do
    new_bucket ← find_bucket h elem
    move_elems rest (put_bucket h new_bucket (elem ∷ h.buckets new_bucket))

  unfoldable pub move_buckets : ℕ → ℕ → (ℕ → List ℕ) → Table → Result Table
  move_buckets zero i old_buckets h = ok h
  move_buckets (suc rounds) i old_buckets h = do
    h' ← move_elems (old_buckets i) h
    move_buckets rounds (suc i) old_buckets h'

  -- `room` is whether malloc finds memory for the new buckets.
  unfoldable pub rehash : Bool → Table → Result Table
  rehash room h = do
    new_bucket_cnt ← power_loop 32 (best_bucket_cnt h)
    if new_bucket_cnt == h.bucket_cnt
        then ok h
        else (if not room
            then ok h
            else move_buckets h.bucket_cnt 0 h.buckets (fresh_buckets h new_bucket_cnt))

  unfoldable pub delete_found : Bool → Option ℕ → Table → Result Table
  delete_found room none h = ok h
  delete_found room (some found) h = rehash room (remove_elem h found)

module _ (hash : ℕ → ℕ) (less : ℕ → ℕ → Bool) where
  unfoldable pub hash_find : Table → ℕ → Result (Option ℕ)
  hash_find h e = do bucket ← find_bucket hash h e; ok (find_elem less (h.buckets bucket) e)

  unfoldable pub hash_insert : Bool → Table → ℕ → Result (Option ℕ × Table)
  hash_insert room h new = do
    bucket ← find_bucket hash h new
    let old = find_elem less (h.buckets bucket) new
    h' ← rehash hash room (insert_unless old h bucket new)
    ok (old, h')

  unfoldable pub hash_replace : Bool → Table → ℕ → Result (Option ℕ × Table)
  hash_replace room h new = do
    bucket ← find_bucket hash h new
    let old = find_elem less (h.buckets bucket) new
    h' ← rehash hash room (insert_elem (remove_found old h) bucket new)
    ok (old, h')

  unfoldable pub hash_delete : Bool → Table → ℕ → Result (Option ℕ × Table)
  hash_delete room h e = do
    bucket ← find_bucket hash h e
    let found = find_elem less (h.buckets bucket) e
    h' ← delete_found hash room found h
    ok (found, h')

abbrev pub hash_size : Table → ℕ
hash_size h = h.elem_cnt

abbrev pub hash_empty : Table → Bool
hash_empty h = h.elem_cnt == 0

-- A caller's action on elements changes a state of its own.
module _ {State : Type 0} where
  abbrev pub act_all : (ℕ → State → State) → List ℕ → State → State
  act_all action [] s = s
  act_all action (elem ∷ rest) s = act_all action rest (action elem s)

  unfoldable pub apply_loop : ℕ → ℕ → Table → (ℕ → State → State) → State → State
  apply_loop zero i h action s = s
  apply_loop (suc rounds) i h action s =
      apply_loop rounds (suc i) h action (act_all action (h.buckets i) s)

  unfoldable pub hash_apply : Table → (ℕ → State → State) → State → State
  hash_apply h action s = apply_loop h.bucket_cnt 0 h action s

  -- Every bucket becomes empty, after the destructor, if there is one, was called for its elements.
  unfoldable pub hash_clear : Option (ℕ → State → State) → Table → State → Table × State
  hash_clear none h s = (record h { elem_cnt = 0; buckets = λ i. [] }, s)
  hash_clear (some destructor) h s =
      (record h { elem_cnt = 0; buckets = λ i. [] }, apply_loop h.bucket_cnt 0 h destructor s)

  -- The memory of the buckets is freed at the end.
  unfoldable pub hash_destroy : Option (ℕ → State → State) → Table → State → State
  unfolding hash_clear
  hash_destroy none h s = s
  hash_destroy (some destructor) h s = (hash_clear (some destructor) h s).1

-- `room` is whether malloc finds memory for the buckets.
unfoldable pub hash_init : Bool → Option Table
unfolding hash_clear
hash_init false = none
hash_init true =
    some (hash_clear none (record { elem_cnt = 0; bucket_cnt = 4; buckets = λ i. [] }) tt).0
