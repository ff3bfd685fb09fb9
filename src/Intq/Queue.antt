-- ===== src/Intq/Queue.antt =====
-- The ring buffer of devices/intq.c as a queue of bytes.
use os_project.Common.{
  ℕ, zero, suc, ◌+◌, ◌-◌, ◌%◌, ◌<◌, ◌≡◌, ◌≢◌, refl, sym, ap, ◌∙◌, Bool, true, false, none, List, [],
  ◌∷◌, ◌++◌, length, get_or, set, get_or-set_self, get_or-set_ne, length-set, ◌==◌, ◌↔◌, arith, ok,
}
use os_project.Intq.{
  Intq, bufsize, next, intq_empty, intq_full, returned, as_list, intq_getc, intq_putc,
}

-- The byte at a position that is not reduced to the buffer's size.
abbrev byte_at : List ℕ → ℕ → ℕ
byte_at buf pos = get_or buf (pos % bufsize) 0

-- The bytes from a position on.
abbrev pub stretch : List ℕ → ℕ → ℕ → List ℕ
stretch buf pos zero = []
stretch buf pos (suc n) = byte_at buf pos ∷ stretch buf (pos + 1) n

abbrev pub used : Intq → ℕ
used q = (q.head + bufsize - q.tail) % bufsize

-- The bytes in the queue, the oldest first.
abbrev pub bytes : Intq → List ℕ
bytes q = stretch q.buf q.tail (used q)

pub record IsValid (q : Intq) : Type 0 where
  pub buffer : length q.buf ≡ bufsize
  pub head_in : q.head < bufsize
  pub tail_in : q.tail < bufsize

stretch-last :
    (buf : List ℕ) (pos n : ℕ)
    → stretch buf pos (suc n) ≡ stretch buf pos n ++ (byte_at buf (pos + n) ∷ [])
stretch-last buf pos zero = ap (λ (i : ℕ). byte_at buf i ∷ []) (omega arith)
stretch-last buf pos (suc n) =
    ap (λ (xs : List ℕ). byte_at buf pos ∷ xs)
      (stretch-last buf (pos + 1) n
        ∙ ap (λ (i : ℕ). stretch buf (pos + 1) n ++ (byte_at buf i ∷ [])) (omega arith))

stretch-mod : (buf : List ℕ) (pos n : ℕ) → stretch buf (pos % bufsize) n ≡ stretch buf pos n
stretch-mod buf pos zero = refl
stretch-mod buf pos (suc n) =
    let e : pos % bufsize % bufsize ≡ pos % bufsize = omega arith in
    let f : (pos % bufsize + 1) % bufsize ≡ (pos + 1) % bufsize = omega arith in
    rw (e, sym (stretch-mod buf (pos % bufsize + 1) n), sym (stretch-mod buf (pos + 1) n), f) refl

-- A write behind the stretch does not change it.
stretch-set_behind :
    (buf : List ℕ) (pos n i b : ℕ)
    → i < bufsize
    → ((k : ℕ) → k < n → i ≢ (pos + k) % bufsize)
    → stretch (set buf i b) pos n ≡ stretch buf pos n
stretch-set_behind buf pos zero i b h away = refl
stretch-set_behind buf pos (suc n) i b h away =
    rw
      (
        get_or-set_ne buf i (pos % bufsize) b 0 (λ e. away 0 (omega arith) (omega (arith, e))),
        stretch-set_behind buf (pos + 1) n i b h
            (λ k below e. away (suc k) (omega (arith, below)) (omega (arith, e))),
      )
      refl

-- A new byte behind the stretch extends it.
stretch-set :
    (buf : List ℕ) (pos n b : ℕ)
    → length buf ≡ bufsize
    → n < bufsize
    → stretch (set buf ((pos + n) % bufsize) b) pos (suc n) ≡ stretch buf pos n ++ (b ∷ [])
stretch-set buf pos n b full h =
    let i = (pos + n) % bufsize in
    rw
      (
        stretch-last (set buf i b) pos n,
        stretch-set_behind buf pos n i b (omega arith) (λ k below e. omega (arith, below, e, h)),
        get_or-set_self buf i b 0 (omega (arith, full)),
      )
      refl

-- intq_empty and intq_full test the number of bytes in the queue, which has room for 63.
pub capacity :
    (q : Intq)
    → IsValid q
    → ((intq_empty q ≡ true) ↔ (used q ≡ 0)) × ((intq_full q ≡ true) ↔ (used q ≡ bufsize - 1))
capacity q v = ground (arith, v.head_in, v.tail_in)

-- What putting a byte does when there is room.
pub record Put (q : Intq) (b : ℕ) (q' : Intq) : Type 0 where
  pub contents : bytes q' ≡ bytes q ++ (b ∷ [])
  pub reset : q'.not_empty ≡ none
  pub not_full_kept : q'.not_full ≡ q.not_full
  pub lock_kept : q'.lock ≡ q.lock
  pub valid : IsValid q'

put_bytes :
    (q : Intq) (b : ℕ)
    → IsValid q
    → used q < bufsize - 1
    → stretch (set q.buf q.head b) q.tail ((next q.head + bufsize - q.tail) % bufsize)
      ≡ bytes q ++ (b ∷ [])
put_bytes q b v room =
    let longer : (next q.head + bufsize - q.tail) % bufsize ≡ suc (used q) =
      omega (arith, room, v.head_in, v.tail_in) in
    let place : q.head ≡ (q.tail + used q) % bufsize = omega (arith, v.head_in, v.tail_in) in
    rw longer (
      ap (λ (i : ℕ). stretch (set q.buf i b) q.tail (suc (used q))) place
      ∙ stretch-set q.buf q.tail (used q) b v.buffer (omega (arith, room)))

-- intq_putc in a queue with fewer than 63 bytes returns at once, in a thread or a handler: the byte
-- is at the end of the queue, and the thread that waits for a byte, if any, has been woken. The
-- members for the other condition stay as they are.
pub intq_putc_lem :
    (cur : ℕ) (intr_context : Bool) (b : ℕ) (q : Intq)
    → IsValid q
    → used q < bufsize - 1
    → (q' : Intq) × (intq_putc cur intr_context b q ≡ ok (returned tt (as_list q.not_empty) q'))
      × Put q b q'
unfolding intq_putc
intq_putc_lem cur intr_context b q v room =
    let has_room : (next q.head == q.tail) ≡ false = ground (arith, v.head_in, v.tail_in) in
    let holds : (next q.head == q.tail) ≡ false = has_room in
    (
      record q { buf = set q.buf q.head b; head = next q.head; not_empty = none },
      rw has_room refl,
      record {
        contents = put_bytes q b v room;
        reset = refl;
        not_full_kept = refl;
        lock_kept = refl;
        valid = record {
          buffer = length-set q.buf q.head b ∙ v.buffer;
          head_in = omega arith;
          tail_in = v.tail_in;
        };
      },
    )

-- What getting a byte does when there is one.
pub record Got (q : Intq) (b : ℕ) (q' : Intq) : Type 0 where
  pub contents : bytes q ≡ b ∷ bytes q'
  pub reset : q'.not_full ≡ none
  pub not_empty_kept : q'.not_empty ≡ q.not_empty
  pub lock_kept : q'.lock ≡ q.lock
  pub valid : IsValid q'

pub get_bytes :
    (q : Intq)
    → IsValid q
    → 0 < used q
    → bytes q
      ≡ get_or q.buf q.tail 0
        ∷ stretch q.buf (next q.tail) ((q.head + bufsize - next q.tail) % bufsize)
get_bytes q v some_bytes =
    let shorter : used q ≡ suc ((q.head + bufsize - next q.tail) % bufsize) =
      omega (arith, some_bytes, v.head_in, v.tail_in) in
    let place : q.tail % bufsize ≡ q.tail = omega (arith, v.tail_in) in
    rw (stretch-mod q.buf (q.tail + 1) ((q.head + bufsize - next q.tail) % bufsize)) (
      ap (λ (n : ℕ). stretch q.buf q.tail n) shorter
      ∙ ap
          (λ (i : ℕ).
            get_or q.buf i 0
            ∷ stretch q.buf (q.tail + 1) ((q.head + bufsize - next q.tail) % bufsize))
          place)

-- intq_getc in a queue that is not empty returns at once, in a thread or a handler: it takes the
-- oldest byte, and the thread that waits for room, if any, has been woken. The members for the
-- other condition stay as they are.
pub intq_getc_lem :
    (cur : ℕ) (intr_context : Bool) (q : Intq)
    → IsValid q
    → 0 < used q
    → (b : ℕ) × (q' : Intq) × (intq_getc cur intr_context q
        ≡ ok (returned b (as_list q.not_full) q'))
      × Got q b q'
unfolding intq_getc
intq_getc_lem cur intr_context q v some_bytes =
    let holds : (q.head == q.tail) ≡ false = ground (arith, v.head_in, v.tail_in) in
    let room : (next q.head == next q.tail) ≡ false = ground (arith, v.head_in, v.tail_in) in
    (
      get_or q.buf q.tail 0,
      record q { tail = next q.tail; not_full = none },
      rw (holds, room) refl,
      record {
        contents = get_bytes q v some_bytes;
        reset = refl;
        not_empty_kept = refl;
        lock_kept = refl;
        valid = record { buffer = v.buffer; head_in = v.head_in; tail_in = omega arith };
      },
    )

length-stretch : (buf : List ℕ) (pos n : ℕ) → length (stretch buf pos n) ≡ n
length-stretch buf pos zero = refl
length-stretch buf pos (suc n) = ap suc (length-stretch buf (pos + 1) n)

pub length-bytes : (q : Intq) → length (bytes q) ≡ used q
length-bytes q = length-stretch q.buf q.tail (used q)

pub bytes-none : (q : Intq) → used q ≡ 0 → bytes q ≡ []
bytes-none q empty = ap (λ n. stretch q.buf q.tail n) empty
