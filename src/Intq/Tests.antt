-- ===== src/Intq/Tests.antt =====
-- Runs of devices/intq.c.
use os_project.Common.{ℕ, ◌≡◌, refl, true, false, none, some, List, [], ◌∷◌, replicate, arith, ok}
use os_project.Synch.{lock_init}
use os_project.Synch.Locks.{held, lock_init-IsFree}
use os_project.Intq.{Intq, bufsize, returned, intq_getc, intq_putc}
use os_project.Intq.Queue.{IsValid, Put, Got, intq_putc_lem, intq_getc_lem}
use os_project.Intq.TwoReaders.{TwoReaders, two_readers_lem}

abbrev buffer : List ℕ
buffer = replicate bufsize 7

-- Three bytes, the last two behind the end of the buffer; thread 4 waits for a byte.
abbrev three_bytes : Intq
three_bytes = record {
  lock = lock_init;
  not_full = none;
  not_empty = some 4;
  buf = buffer;
  head = 2;
  tail = 63;
}

abbrev empty_queue : Intq
empty_queue = record three_bytes { head = 63; not_empty = none }

-- Thread 5 waited for a byte.
abbrev woken_queue : Intq
woken_queue = record three_bytes { lock = held 5; not_empty = none }

three_bytes-IsValid : IsValid three_bytes
three_bytes-IsValid = record { buffer = refl; head_in = omega arith; tail_in = omega arith }

empty_queue-IsValid : IsValid empty_queue
empty_queue-IsValid = record { buffer = refl; head_in = omega arith; tail_in = omega arith }

woken_queue-IsValid : IsValid woken_queue
woken_queue-IsValid = record { buffer = refl; head_in = omega arith; tail_in = omega arith }

intq_putc_lem_example :
    (q' : Intq) × (intq_putc 1 true 9 three_bytes ≡ ok (returned tt (4 ∷ []) q'))
    × Put three_bytes 9 q'
intq_putc_lem_example = intq_putc_lem 1 true 9 three_bytes three_bytes-IsValid (omega arith)

intq_getc_lem_example :
    (b : ℕ) × (q' : Intq) × (intq_getc 1 false three_bytes ≡ ok (returned b [] q'))
    × Got three_bytes b q'
intq_getc_lem_example = intq_getc_lem 1 false three_bytes three_bytes-IsValid (omega arith)

two_readers_lem_example : TwoReaders 1 2 3 65 66 empty_queue
two_readers_lem_example =
    two_readers_lem 1 2 3 65 66 empty_queue empty_queue-IsValid refl lock_init-IsFree refl
