-- ===== src/Strings.antt =====
-- lib/string.c: blocks of bytes and strings in memory. Memory is a function from addresses to bytes, and
-- an address is a number, 0 for NULL; what C leaves undefined when a pointer leaves the address space
-- is not modelled. A loop that ends at a NUL takes fuel.
use os_project.Common.{
  ℕ, zero, suc, ◌+◌, ◌-◌, ◌%◌, Bool, true, false, not, ◌&&◌, ◌||◌, ◌==◌, if◌then◌else◌, ltb, leb,
  Option, none, some, Result, ok, err, out_of_fuel, assert, ◌>>=◌, ◌>>◌, u32,
}
pub mod Blocks
pub mod Texts
pub mod Copies
pub mod Tokens
pub mod Cut
mod Tests

abbrev pub Bytes : Type 0
Bytes = ℕ → ℕ

abbrev pub write : Bytes → ℕ → ℕ → Bytes
write mem at byte a = if a == at then byte else mem a

-- `*dst++ = *src++`, size times.
unfoldable pub copy_up : ℕ → ℕ → ℕ → Bytes → Bytes
copy_up zero dst src mem = mem
copy_up (suc size) dst src mem = copy_up size (suc dst) (suc src) (write mem dst (mem src))

-- `*--dst = *--src`, size times, from behind the blocks on.
unfoldable pub copy_down : ℕ → ℕ → ℕ → Bytes → Bytes
copy_down zero dst src mem = mem
copy_down (suc size) dst src mem =
    copy_down size (dst - 1) (src - 1) (write mem (dst - 1) (mem (src - 1)))

-- The result of the call, and memory.
unfoldable pub memcpy : ℕ → ℕ → ℕ → Bytes → Result (ℕ × Bytes)
memcpy dst src size mem = do
  assert (not (dst == 0) || size == 0)
  assert (not (src == 0) || size == 0)
  ok (dst, copy_up size dst src mem)

unfoldable pub memmove : ℕ → ℕ → ℕ → Bytes → Result (ℕ × Bytes)
memmove dst src size mem = do
  assert (not (dst == 0) || size == 0)
  assert (not (src == 0) || size == 0)
  if ltb dst src
      then ok (dst + size, copy_up size dst src mem)
      else ok (dst, copy_down size (dst + size) (src + size) mem)

-- The `int` -1.
abbrev pub minus_one : ℕ
minus_one = 0xffff_ffff

unfoldable pub compare_loop : ℕ → ℕ → ℕ → Bytes → ℕ
compare_loop zero a b mem = 0
compare_loop (suc size) a b mem =
    if not (mem a == mem b)
    then (if ltb (mem b) (mem a) then 1 else minus_one)
    else compare_loop size (suc a) (suc b) mem

unfoldable pub memcmp : ℕ → ℕ → ℕ → Bytes → Result ℕ
memcmp a b size mem = do
  assert (not (a == 0) || size == 0)
  assert (not (b == 0) || size == 0)
  ok (compare_loop size a b mem)

unfoldable pub strcmp_loop : ℕ → ℕ → ℕ → Bytes → Result ℕ
strcmp_loop zero a b mem = err out_of_fuel
strcmp_loop (suc fuel) a b mem =
    if not (mem a == 0) && mem a == mem b
    then strcmp_loop fuel (suc a) (suc b) mem
    else ok (if ltb (mem a) (mem b) then minus_one else (if ltb (mem b) (mem a) then 1 else 0))

unfoldable pub strcmp : ℕ → ℕ → ℕ → Bytes → Result ℕ
strcmp fuel a b mem = do assert (not (a == 0)); assert (not (b == 0)); strcmp_loop fuel a b mem

unfoldable pub memchr_loop : ℕ → ℕ → ℕ → Bytes → ℕ
memchr_loop zero block ch mem = 0
memchr_loop (suc size) block ch mem =
    if mem block == ch then block else memchr_loop size (suc block) ch mem

unfoldable pub memchr : ℕ → ℕ → ℕ → Bytes → Result ℕ
memchr block ch size mem = do
  assert (not (block == 0) || size == 0)
  ok (memchr_loop size block (ch % 256) mem)

unfoldable pub strchr_loop : ℕ → ℕ → ℕ → Bytes → Result ℕ
strchr_loop zero string c mem = err out_of_fuel
strchr_loop (suc fuel) string c mem =
    if mem string == c
    then ok string
    else (if mem string == 0 then ok 0 else strchr_loop fuel (suc string) c mem)

unfoldable pub strchr : ℕ → ℕ → ℕ → Bytes → Result ℕ
strchr fuel string c mem = do assert (not (string == 0)); strchr_loop fuel string (c % 256) mem

-- `fuel` is that of strchr and `rounds` that of the loop.
unfoldable pub strcspn_loop : ℕ → ℕ → ℕ → ℕ → ℕ → Bytes → Result ℕ
strcspn_loop fuel zero string len stop mem = err out_of_fuel
strcspn_loop fuel (suc rounds) string len stop mem = if mem (string + len) == 0 then ok len else (do
  at ← strchr fuel stop (mem (string + len)) mem
  if not (at == 0) then ok len else strcspn_loop fuel rounds string (u32 (len + 1)) stop mem)

unfoldable pub strcspn : ℕ → ℕ → ℕ → Bytes → Result ℕ
unfolding strcspn_loop
strcspn fuel string stop mem = strcspn_loop fuel fuel string 0 stop mem

unfoldable pub strspn_loop : ℕ → ℕ → ℕ → ℕ → ℕ → Bytes → Result ℕ
strspn_loop fuel zero string len skip mem = err out_of_fuel
strspn_loop fuel (suc rounds) string len skip mem = if mem (string + len) == 0 then ok len else (do
  at ← strchr fuel skip (mem (string + len)) mem
  if at == 0 then ok len else strspn_loop fuel rounds string (u32 (len + 1)) skip mem)

unfoldable pub strspn : ℕ → ℕ → ℕ → Bytes → Result ℕ
unfolding strspn_loop
strspn fuel string skip mem = strspn_loop fuel fuel string 0 skip mem

unfoldable pub strpbrk_loop : ℕ → ℕ → ℕ → ℕ → Bytes → Result ℕ
strpbrk_loop fuel zero string stop mem = err out_of_fuel
strpbrk_loop fuel (suc rounds) string stop mem = if mem string == 0 then ok 0 else (do
  at ← strchr fuel stop (mem string) mem
  if not (at == 0) then ok string else strpbrk_loop fuel rounds (suc string) stop mem)

unfoldable pub strpbrk : ℕ → ℕ → ℕ → Bytes → Result ℕ
unfolding strpbrk_loop
strpbrk fuel string stop mem = strpbrk_loop fuel fuel string stop mem

unfoldable pub strrchr_loop : ℕ → ℕ → ℕ → ℕ → Bytes → Result ℕ
strrchr_loop zero string c p mem = err out_of_fuel
strrchr_loop (suc fuel) string c p mem =
    if mem string == 0
    then ok p
    else strrchr_loop fuel (suc string) c (if mem string == c then string else p) mem

unfoldable pub strrchr : ℕ → ℕ → ℕ → Bytes → Result ℕ
unfolding strrchr_loop
strrchr fuel string c mem = strrchr_loop fuel string (c % 256) 0 mem

unfoldable pub set_loop : ℕ → ℕ → ℕ → Bytes → Bytes
set_loop zero dst value mem = mem
set_loop (suc size) dst value mem = set_loop size (suc dst) value (write mem dst (value % 256))

unfoldable pub memset : ℕ → ℕ → ℕ → Bytes → Result (ℕ × Bytes)
memset dst value size mem = do
  assert (not (dst == 0) || size == 0)
  ok (dst, set_loop size dst value mem)

-- The place of the NUL.
unfoldable pub strlen_loop : ℕ → ℕ → Bytes → Result ℕ
strlen_loop zero p mem = err out_of_fuel
strlen_loop (suc fuel) p mem = if mem p == 0 then ok p else strlen_loop fuel (suc p) mem

unfoldable pub strlen : ℕ → ℕ → Bytes → Result ℕ
strlen fuel string mem = do
  assert (not (string == 0))
  p ← strlen_loop fuel string mem
  ok (u32 (p - string))

-- The loop looks at the character before it compares with maxlen; `rounds` is maxlen - length.
unfoldable pub strnlen_loop : ℕ → ℕ → ℕ → Bytes → ℕ
strnlen_loop zero string len mem = len
strnlen_loop (suc rounds) string len mem =
    let rest = strnlen_loop rounds string (len + 1) mem in
    if mem (string + len) == 0 then len else rest

unfoldable pub strnlen : ℕ → ℕ → Bytes → ℕ
unfolding strnlen_loop
strnlen string maxlen mem = strnlen_loop maxlen string 0 mem

abbrev pub lesser : ℕ → ℕ → ℕ
lesser a b = if ltb a b then a else b

unfoldable pub strlcpy : ℕ → ℕ → ℕ → ℕ → Bytes → Result (ℕ × Bytes)
strlcpy fuel dst src size mem = do
  assert (not (dst == 0))
  assert (not (src == 0))
  src_len ← strlen fuel src mem
  if not (ltb 0 size) then ok (src_len, mem) else (do
    let dst_len = lesser src_len (size - 1)
    (start, mem') ← memcpy dst src dst_len mem
    ok (src_len, write mem' (dst + dst_len) 0))

unfoldable pub strlcat : ℕ → ℕ → ℕ → ℕ → Bytes → Result (ℕ × Bytes)
strlcat fuel dst src size mem = do
  assert (not (dst == 0))
  assert (not (src == 0))
  src_len ← strlen fuel src mem
  dst_len ← strlen fuel dst mem
  if not (ltb 0 size && ltb dst_len size) then ok (u32 (src_len + dst_len), mem) else (do
    let copy_cnt = lesser src_len (size - dst_len - 1)
    (start, mem') ← memcpy (dst + dst_len) src copy_cnt mem
    ok (u32 (src_len + dst_len), write mem' (dst + dst_len + copy_cnt) 0))

unfoldable pub strstr_loop : ℕ → ℕ → ℕ → ℕ → ℕ → Bytes → Result ℕ
strstr_loop zero haystack needle needle_len i mem = ok 0
strstr_loop (suc rounds) haystack needle needle_len i mem = do
  differ ← memcmp (haystack + i) needle needle_len mem
  if differ == 0
      then ok (haystack + i)
      else strstr_loop rounds haystack needle needle_len (suc i) mem

unfoldable pub strstr : ℕ → ℕ → ℕ → Bytes → Result ℕ
strstr fuel haystack needle mem = do
  haystack_len ← strlen fuel haystack mem
  needle_len ← strlen fuel needle mem
  if ltb haystack_len needle_len
      then ok 0
      else (strstr_loop (suc (haystack_len - needle_len)) haystack needle needle_len 0 mem)

-- The first loop of strtok_r: whether it came to the end of the string, and where it is left.
unfoldable pub skip_loop : ℕ → ℕ → ℕ → ℕ → Bytes → Result (Bool × ℕ)
skip_loop fuel zero s delimiters mem = err out_of_fuel
skip_loop fuel (suc rounds) s delimiters mem = do
  at ← strchr fuel delimiters (mem s) mem
  if at == 0
      then ok (false, s)
      else (if mem s == 0 then ok (true, s) else skip_loop fuel rounds (suc s) delimiters mem)

unfoldable pub token_loop : ℕ → ℕ → ℕ → ℕ → Bytes → Result ℕ
token_loop fuel zero s delimiters mem = err out_of_fuel
token_loop fuel (suc rounds) s delimiters mem = do
  at ← strchr fuel delimiters (mem s) mem
  if not (at == 0) then ok s else token_loop fuel rounds (suc s) delimiters mem

-- What a call of strtok_r leaves: its result, *save_ptr, and memory.
pub record Token : Type 0 where
  pub token : ℕ
  pub save : ℕ
  pub memory : Bytes

-- `save` is *save_ptr before the call.
unfoldable pub strtok_r : ℕ → ℕ → ℕ → ℕ → Bytes → Result Token
strtok_r fuel s delimiters save mem = do
  assert (not (delimiters == 0))
  let start = if s == 0 then save else s
  assert (not (start == 0))
  (ended, token) ← skip_loop fuel fuel start delimiters mem
  if ended then ok (record { token = 0; save = token; memory = mem }) else (do
    end ← token_loop fuel fuel token delimiters mem
    if mem end == 0
        then ok (record { token = token; save = end; memory = mem })
        else (ok (record { token = token; save = end + 1; memory = write mem end 0 })))
