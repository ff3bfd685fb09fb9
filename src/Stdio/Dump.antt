-- ===== src/Stdio/Dump.antt =====
-- hex_dump and print_human_readable_size of lib/stdio.c. printf of a literal format is a run of
-- vprintf on a memory that holds it.
use os_project.Common.{
  ℕ, zero, suc, ◌+◌, ◌-◌, ◌*◌, ◌/◌, ◌%◌, ◌^◌, Bool, ◌==◌, if◌then◌else◌, ltb, leb, List, [], ◌∷◌,
  ◌++◌, Result, ok, err, out_of_fuel, ◌>>=◌, u32,
}
use os_project.Strings.{Bytes}
use os_project.Ctype.{isprint}
use os_project.Stdio.Printf.{codes, literal, vprintf}

-- None of the formats has more characters.
abbrev pub printf : List ℕ → List ℕ → Result (List ℕ)
printf format args = vprintf 40 0 args (literal format)

unfoldable pub printf_times : ℕ → List ℕ → Result (List ℕ)
printf_times zero format = ok []
printf_times (suc times) format = do
  text ← printf format []
  texts ← printf_times times format
  ok (text ++ texts)

-- `for (; i < end; i++)` over the bytes, in hexadecimal; `rounds` is end - i.
unfoldable pub byte_loop : ℕ → ℕ → ℕ → Bytes → Result (List ℕ)
byte_loop zero i buf mem = ok []
byte_loop (suc rounds) i buf mem = do
  text ← printf (codes "%02hhx%c") (mem buf ∷ (if i == 7 then b'-' else b' ') ∷ [])
  texts ← byte_loop rounds (i + 1) (buf + 1) mem
  ok (text ++ texts)

unfoldable pub char_loop : ℕ → ℕ → Bytes → Result (List ℕ)
char_loop zero buf mem = ok []
char_loop (suc rounds) buf mem = do
  text ← printf (codes "%c") ((if isprint (mem buf) then mem buf else b'.') ∷ [])
  texts ← char_loop rounds (buf + 1) mem
  ok (text ++ texts)

unfoldable pub dump_ascii : ℕ → ℕ → ℕ → Bytes → Result (List ℕ)
unfolding printf_times char_loop
dump_ascii start end buf mem = do
  gap ← printf_times (16 - end) (codes "   ")
  open_bar ← printf (codes "|") []
  before ← printf_times start (codes " ")
  shown ← char_loop (end - start) buf mem
  behind ← printf_times (16 - end) (codes " ")
  close_bar ← printf (codes "|") []
  ok (gap ++ (open_bar ++ (before ++ (shown ++ (behind ++ close_bar)))))

unfoldable pub dump_line : ℕ → ℕ → ℕ → ℕ → Bool → Bytes → Result (List ℕ)
unfolding printf_times byte_loop dump_ascii
dump_line ofs start end buf ascii mem = do
  place ← printf (codes "%08jx  ") (ofs / 16 * 16 ∷ 0 ∷ [])
  before ← printf_times start (codes "   ")
  bytes ← byte_loop (end - start) start buf mem
  shown ← if ascii then dump_ascii start end buf mem else ok []
  newline ← printf (10 ∷ []) []
  ok (place ++ (before ++ (bytes ++ (shown ++ newline))))

unfoldable pub dump_loop : ℕ → ℕ → ℕ → ℕ → Bool → Bytes → Result (List ℕ)
dump_loop zero ofs buf size ascii mem = err out_of_fuel
dump_loop (suc fuel) ofs buf size ascii mem =
    let start = ofs % 16 in
    let end = if ltb size (16 - start) then start + size else 16 in
    let rest = (do
      text ← dump_line ofs start end buf ascii mem
      texts ←
          dump_loop fuel (u32 (ofs + (end - start))) (buf + (end - start)) (size - (end - start))
            ascii mem
      ok (text ++ texts)) in
    if ltb 0 size then rest else ok []

-- Every line has at least one byte, so `size` bytes are dumped in that many rounds.
unfoldable pub hex_dump : ℕ → ℕ → ℕ → Bool → Bytes → Result (List ℕ)
unfolding dump_loop
hex_dump ofs buf size ascii mem = dump_loop (suc size) ofs buf size ascii mem

unfoldable pub factor_loop : ℕ → List ℕ → List (List ℕ) → ℕ × List ℕ
factor_loop size fp [] = (size, fp)
factor_loop size fp (next ∷ rest) =
    if leb 1024 size then factor_loop (size / 1024) next rest else (size, fp)

-- The argument for %s is the address behind the format, where the factor's name stands.
unfoldable pub print_human_readable_size : ℕ → Result (List ℕ)
unfolding factor_loop
print_human_readable_size size =
    if size == 1
    then printf (codes "1 byte") []
    else (let (number, factor) =
          factor_loop size (codes "bytes")
            (codes "kB" ∷ codes "MB" ∷ codes "GB" ∷ codes "TB" ∷ []) in
        vprintf 40 0 (number % 2 ^ 32 ∷ number / 2 ^ 32 ∷ 8 ∷ [])
          (literal (codes "%llu %s" ++ (0 ∷ factor))))
