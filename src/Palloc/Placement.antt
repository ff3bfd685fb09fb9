-- ===== src/Palloc/Placement.antt =====
-- What every search for contiguous free pages promises, whatever its policy.
use os_project.Common.{ℕ, ◌+◌, ◌≤◌, ◌≡◌, true, false, Result, ok}
use os_project.Bitmap.{Bitmap, bitmap_error}
use os_project.Bitmap.Bits.{IsValid}
use os_project.Bitmap.Range.{IsRun, IsFill}
use os_project.Palloc.State.{Pool}

-- No run of `cnt` free pages is left.
abbrev pub Full : Bitmap → ℕ → Type 0
Full b cnt = (i : ℕ) → i + cnt ≤ b.bit_cnt → ¬ (IsRun b i cnt false)

-- `r` is the answer to a request for `cnt` pages on the map `b`, and `c` the map afterwards: the
-- pages were free, and now they alone have changed and are used; or there is no room, and nothing
-- has changed.
pub data Placed (b : Bitmap) (cnt r : ℕ) (c : Bitmap) : Type 0 where
  placed :
      r + cnt ≤ b.bit_cnt → IsRun b r cnt false → IsFill b c r (r + cnt) true → Placed b cnt r c
  full : r ≡ bitmap_error → c ≡ b → Full b cnt → Placed b cnt r c

-- The map is well formed and the cursor of next fit lies in it.
pub record IsPool (p : Pool) : Type 0 where
  pub valid : IsValid p.used_map
  pub cursor : p.next_fit_start_idx ≤ p.used_map.bit_cnt

-- What a search does to a pool.
pub record Searched (p : Pool) (cnt r : ℕ) (q : Pool) : Type 0 where
  pub placement : Placed p.used_map cnt r q.used_map
  pub pool : IsPool q
  pub same_lock : q.lock ≡ p.lock
  pub same_base : q.base ≡ p.base
  pub same_size : q.used_map.bit_cnt ≡ p.used_map.bit_cnt

-- The call returns an index and a pool that are related to the pool before by `P`.
abbrev pub Searches : Result (ℕ × Pool) → (ℕ → Pool → Type 0) → Type 0
Searches m P = (r : ℕ) × (q : Pool) × (m ≡ ok (r, q)) × P r q
