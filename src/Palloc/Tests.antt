-- ===== src/Palloc/Tests.antt =====
-- threads/palloc.c on a kernel pool of 40 pages and a user pool of 8, and its theorems there.
use os_project.Common.{
  ℕ, ◌≡◌, ◌↔◌, refl, true, false, arith, ok, err, panic, List, [], ◌∷◌, inl, none,
}
use os_project.Bitmap.{Bitmap, bitmap_error}
use os_project.Bitmap.Bits.{bit_of}
use os_project.Bitmap.Range.{IsRun, all_bits, all_bits-IsRun}
use os_project.Synch.Locks.{IsFree}
use os_project.Palloc.State.{Pool, Mode, Allocator, pal_zero}
use os_project.Palloc.Search.{find_first_fit, find_next_fit, find_best_fit}
use os_project.Palloc.Alloc.{
  get_from_pool, palloc_get_multiple, palloc_free_multiple, buddy_system_free,
}
use os_project.Palloc.Placement.{Full, IsPool, Searched, Searches}
use os_project.Palloc.Policies.{NextRun, cursor_after, find_next_fit_lem}
use os_project.Palloc.BestHole.{BestHole}
use os_project.Palloc.BestFit.{find_best_fit_lem}
use os_project.Palloc.Calls.{Gets, get_from_pool_lem}
use os_project.Palloc.Get.{IsAllocator, Got, palloc_get_multiple_lem, palloc_get_multiple_panic_iff}
use os_project.Palloc.Free.{free-get}
use os_project.Palloc.Buddy.{buddy_system_free-run}
use os_project.Palloc.Init.{IsStorage}

-- Pages 0, 1, 4, 8 and 33 are used: the holes are 2..4, 5..8, 9..33 and 34..40.
abbrev kernel : Pool
kernel = record {
  lock = record { holder = none; semaphore = record { value = 1; waiters = [] } };
  used_map = record { bit_cnt = 40; bits = 0b1_0001_0011 ∷ 0b10 ∷ [] };
  base = 0xc010_2000;
  next_fit_start_idx = 9;
}

abbrev user : Pool
user = record kernel {
  used_map = record { bit_cnt = 8; bits = 0xff ∷ [] };
  base = 0xc020_0000;
  next_fit_start_idx = 0;
}

abbrev sample : Allocator
sample = record {
  kernel_pool = kernel;
  user_pool = user;
  current_palloc_mode = Mode.best_fit;
  mem = λ addr. 7;
}

kernel-IsPool : IsPool kernel
kernel-IsPool = record {
  valid = record { room = omega arith; enough = omega arith; words = grind arith };
  cursor = omega arith;
}

user-IsPool : IsPool user
user-IsPool = record {
  valid = record { room = omega arith; enough = omega arith; words = grind arith };
  cursor = omega arith;
}

unlocked : IsFree kernel.lock
unlocked = record { holder = refl; value = refl; waiters = refl }

sample-IsAllocator : IsAllocator sample
sample-IsAllocator = record {
  kernel = record {
    pool = kernel-IsPool;
    lock = unlocked;
    aligned = refl;
    not_null = omega arith;
    ends = omega arith;
  };
  user = record {
    pool = user-IsPool;
    lock = unlocked;
    aligned = refl;
    not_null = omega arith;
    ends = omega arith;
  };
  apart = omega arith;
}

find_next_fit_lem_example : Searches (find_next_fit kernel 3) (λ r q.
    Searched kernel 3 r q
    × NextRun kernel.used_map 9 3 r
    × (q.next_fit_start_idx ≡ cursor_after kernel 3 r))
find_next_fit_lem_example = find_next_fit_lem kernel 3 kernel-IsPool

find_best_fit_lem_example :
    Searches
      (find_best_fit kernel 6)
      (λ r q. Searched kernel 6 r q × BestHole kernel.used_map 6 r × (q.next_fit_start_idx ≡ 9))
find_best_fit_lem_example = find_best_fit_lem kernel 6 kernel-IsPool (omega arith)

get_from_pool_lem_example :
    Searches (get_from_pool 1 Mode.next_fit kernel 3) (Gets Mode.next_fit kernel 3)
get_from_pool_lem_example =
    get_from_pool_lem 1 Mode.next_fit kernel 3 kernel-IsPool unlocked (omega arith)

palloc_get_multiple_lem_example :
    (pages : ℕ) × (b : Allocator) × (r : ℕ) × (palloc_get_multiple 1 pal_zero 6 sample
      ≡ ok (pages, b))
    × Got false true 6 sample r pages b
    × IsAllocator b
palloc_get_multiple_lem_example =
    palloc_get_multiple_lem 1 pal_zero 6 sample sample-IsAllocator (omega arith) (inl refl)

user_used : IsRun user.used_map 0 8 true
unfolding all_bits bit_of
user_used = all_bits-IsRun user.used_map 0 8 true refl

kernel_hole : IsRun kernel.used_map 5 3 false
unfolding all_bits bit_of
kernel_hole = all_bits-IsRun kernel.used_map 5 3 false refl

kernel_used : IsRun kernel.used_map 0 2 true
unfolding all_bits bit_of
kernel_used = all_bits-IsRun kernel.used_map 0 2 true refl

-- The user pool has no free page.
user-Full : Full user.used_map 1
user-Full i fits run =
    let on = user_used i (omega arith) (omega arith) in
    let off = run i (omega arith) (omega arith) in cc

kernel_room : ¬ (Full kernel.used_map 3)
kernel_room none_fit = none_fit 5 (omega arith) kernel_hole

palloc_get_multiple_panic_iff_example :
    (palloc_get_multiple 1 5 1 sample ≡ err panic) ↔ Full user.used_map 1
palloc_get_multiple_panic_iff_example =
    palloc_get_multiple_panic_iff 1 5 1 sample sample-IsAllocator (omega arith) refl

free-get_example :
    (pages : ℕ) × (b : Allocator) × (c : Allocator) × (palloc_get_multiple 1 0 3 sample
      ≡ ok (pages, b))
    × (palloc_free_multiple 1 pages 3 b ≡ ok c)
    × ((j : ℕ) → bit_of c.kernel_pool.used_map j ≡ bit_of kernel.used_map j)
    × IsAllocator c
free-get_example = free-get 1 0 3 sample sample-IsAllocator (omega arith) kernel_room

not_all_used : ¬ (IsRun kernel.used_map 4 2 true)
not_all_used used =
    let on = used 5 (omega arith) (omega arith) in
    let off = kernel_hole 5 (omega arith) (omega arith) in cc

-- Freeing page 0 frees page 1 as well, though it is another allocation.
buddy_system_free-run_example :
    (q : Pool) × (buddy_system_free 1 kernel 0xc010_2000 ≡ ok q) × (bit_of q.used_map 1 ≡ false)
buddy_system_free-run_example =
    buddy_system_free-run 1 kernel 0 1 sample-IsAllocator.kernel (omega arith) (omega arith)
      (λ i p q. kernel_used i p (omega arith))

abbrev words : List ℕ
words = 5 ∷ 6 ∷ 7 ∷ []

abbrev many : List ℕ
many = 1 ∷ 2 ∷ 3 ∷ 4 ∷ 5 ∷ 6 ∷ 7 ∷ 8 ∷ 9 ∷ 10 ∷ []

many-IsStorage : IsStorage many 300
many-IsStorage = record { long = omega arith; words = grind arith }

-- Where each mode puts three pages.
placements :
    (find_first_fit kernel 3
      ≡ ok (
        5,
        record kernel { used_map = record { bit_cnt = 40; bits = 0b1_1111_0011 ∷ 0b10 ∷ [] } },
      ))
    × (find_next_fit kernel 3
        ≡ ok (
          9,
          record kernel {
            used_map = record { bit_cnt = 40; bits = 0b1111_0001_0011 ∷ 0b10 ∷ [] };
            next_fit_start_idx = 12;
          },
        ))
    × (find_best_fit kernel 6
        ≡ ok (
          34,
          record kernel { used_map = record { bit_cnt = 40; bits = 0b1_0001_0011 ∷ 0xfe ∷ [] } },
        ))
unfolding find_first_fit find_next_fit find_best_fit os_project.Bitmap.bitmap_scan_and_flip
placements = (refl, refl, refl)
