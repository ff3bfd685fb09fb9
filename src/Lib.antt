-- ===== src/Lib.antt =====
-- A model of the Pintos kernel in this repository (C, i386), and what is proved of it.
--
-- The parts and how they interact. threads/palloc.c hands out runs of 4 kB pages from two pools; it
-- keeps a bitmap of used pages for each pool (lib/kernel/bitmap.c) and a lock (threads/synch.c), and
-- finds pages by first fit, next fit or best fit.
--
-- Common holds what all parts share: C arrays as lists, Boolean tests, the outcomes of a call
-- (Result: a value, or a Fault such as a failed ASSERT), 32-bit wrap-around and the binary digits of
-- a word.
--
-- Bitmap models lib/kernel/bitmap.c: `Bitmap` is `struct bitmap` with its elements, one function for
-- each C function, loops by recursion on the rounds left. Bitmap.Bits gives the abstract view,
-- `bit_of`, and Bitmap.Single, Bitmap.Range and Bitmap.Scan compare the functions with it. Bitmap.Create
-- has the bitmaps on the heap and Bitmap.Files those in files.
--
-- Synch models semaphores and locks of threads/synch.c: a function that may sleep is one pass up to
-- the point where the thread blocks. Synch.Condition has the condition variables.
--
-- Palloc models threads/palloc.c: Palloc.State is the state (`struct pool`, the mode, memory),
-- Palloc.Search the three searches, Palloc.Alloc getting and freeing, Palloc.Setup the
-- initialisation; Palloc.Placement, Policies, Holes, BestHole, BestFit, Calls, Get, Free, Buddy and
-- Init hold the proofs.
--
-- Arithmetic models lib/arithmetic.c, the 64-bit divisions that the compiler calls: `divl` is the
-- divide instruction with its trap. Arithmetic.Normalise is about nlz, Arithmetic.Estimate about the
-- quotient by the leading digits, Arithmetic.Unsigned and Arithmetic.Signed about the divisions.
--
-- Intq models devices/intq.c, the queue between the drivers' interrupt handlers and threads, on top
-- of the locks of Synch. A call that blocks is one function for each stretch between the points where
-- it blocks: getc_loop up to there, getc_retry_lock when lock_acquire goes on, getc_woken when wait
-- goes on, and the same for putc. Intq.Queue is about the bytes in it, Intq.Waiting about blocking,
-- Intq.TwoReaders about two threads that wait for a byte.
--
-- Thread models the scheduler of threads/thread.c: Thread.State has `Scheduler`, the variables of the
-- file, and Thread the functions. Switching stacks is a change of `current`; `freed` and
-- `yield_on_return` record calls into palloc.c and interrupt.c. Thread.Counts has the invariant,
-- Thread.Switch, Moves, Arrivals, Create and Start what each function does to it, Thread.Fair the
-- round robin, Thread.Steps the states that the calls can reach.
--
-- Search models the binary search of lib/stdlib.c on a list of elements; its fuel is one round more than
-- the elements, since the range shrinks in each. Sort models its heap sort; heapify has one round more
-- than the elements, since its index grows. Sort.Permutes is about the elements, Sort.Heap and Floated
-- about the heap and Sort.Sorted about the order. Random models lib/random.c; Random.Cipher
-- has the cipher RC4 to which Random.Keystream compares it.
--
-- Links models lib/kernel/list.c: `Links` has the prev and next members of every element by address,
-- `Ends` a list's two ends, and Links.Order the functions that take the caller's `less`. Links.Chain
-- is about the links between two elements and Links.Lists has the abstract view, `IsList`: the list
-- holds a sequence of elements. Links.Insert, Remove, Walk, Exchange and Reverse, Ordered, Extreme and
-- Unique compare the functions with that sequence; Links.Merge, Splice, Sort, Runs, Passes and Sorted
-- are about the merge sort. The loops over a list have one round more than it has elements.
--
-- Hash models lib/kernel/hash.c: `Table` is `struct hash`, and a bucket is the sequence of its elements,
-- which is what the list functions work on by the theorems of Links. find_bucket fails if the bucket is
-- outside the array. Hash.Powers is about the choice of the bucket count, Hash.Elements about what the
-- buckets hold together, Hash.Moves and Rehash about rehash, Hash.Find, Insert, Delete, Replace,
-- Iterate and Clear about the operations, Hash.Bytes about the hash functions. The loop for the bucket
-- count has 32 rounds, one for each bit.
--
-- Strings models lib/string.c on `Bytes`, a memory from addresses to bytes. An address is a number that
-- does not wrap, 0 for NULL. The loops that end at a NUL take fuel, which is enough when it is more than
-- the characters of the strings read. Strings.Blocks is about blocks of bytes, Strings.Texts about the
-- length and the order of strings, Strings.Copies about strlcpy, Strings.Tokens and Strings.Cut about
-- strtok_r. Ctype models lib/ctype.h, and Ctype.Classes is about how its classes divide ASCII. Atoi models
-- atoi of lib/stdlib.c on the memory of Strings, with fuel for the white space and for the digits;
-- Atoi.Value is about the number it reads.
--
-- Stdio models lib/stdio.c. A function that calls `output` returns the characters of these calls in order,
-- which is the same since output gives nothing back. Stdio has the conversion of one argument,
-- Stdio.Parse parse_conversion, Stdio.Printf __vprintf, Stdio.Snprintf vsnprintf on the memory of
-- Strings, Stdio.Dump hex_dump and print_human_readable_size. Arguments are the 32-bit words of the
-- i386's stack. The digit loop has 64 rounds, since it divides 64 bits by 8 at least; vprintf has one round for
-- each conversion or character. Stdio.Bases is about the number that digits stand for, Stdio.Digits and
-- Stdio.Integers about format_integer, Stdio.Buffer about vsnprintf, Stdio.RoundTrip about %d and atoi.
--
-- Block models devices/block.c and Partition devices/partition.c: `Blocks` is the list of devices, the
-- roles, and the sectors of the disks; a partition reads and writes through the device that it lies on.
-- Block.Kept, Sectors and Writes are about reading and writing, Partition.Found about found_partition,
-- Partition.Scanned and Entries about tables without extended partitions, Partition.Endless about one with
-- such a partition. The fuel of block_read is more than the number of the device, since a partition lies on a
-- device registered before it; that of partition_scan bounds the depth of its recursion.
--
-- Numbers are natural numbers; `size_t`, pointers and elements are 32 bits wide and their wrap-around
-- is written out (`u32`). Loops of the code that are not counted take fuel: find_best_fit has one
-- round for each bit of the map and one more, and buddy_system_free two more than the bits. Running
-- out of fuel is the outcome `out_of_fuel`.
--
-- Not modelled: what the console shows, the other devices, boot code and assembly, and what a thread
-- does while it sleeps inside palloc (`lock_acquire_now` stops with the outcome `sleeps`).
pub mod Common
pub mod Bitmap
pub mod Synch
pub mod Palloc
pub mod Arithmetic
pub mod Intq
pub mod Thread
pub mod Search
pub mod Sort
pub mod Random
pub mod Links
pub mod Hash
pub mod Strings
pub mod Ctype
pub mod Atoi
pub mod Stdio
pub mod Block
pub mod Partition
