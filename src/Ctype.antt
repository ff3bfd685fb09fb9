-- ===== src/Ctype.antt =====
-- lib/ctype.h: the classes of characters. A character is an `int`, as the number of its 32 bits; a
-- negative one is above all characters, so it fails each test as in C.
use os_project.Common.{ℕ, ◌+◌, ◌-◌, Bool, not, ◌&&◌, ◌||◌, ◌==◌, if◌then◌else◌, ltb, leb}
pub mod Classes

abbrev pub islower : ℕ → Bool
islower c = leb 97 c && leb c 122

abbrev pub isupper : ℕ → Bool
isupper c = leb 65 c && leb c 90

abbrev pub isalpha : ℕ → Bool
isalpha c = islower c || isupper c

abbrev pub isdigit : ℕ → Bool
isdigit c = leb 48 c && leb c 57

abbrev pub isalnum : ℕ → Bool
isalnum c = isalpha c || isdigit c

abbrev pub isxdigit : ℕ → Bool
isxdigit c = isdigit c || (leb 97 c && leb c 102) || (leb 65 c && leb c 70)

abbrev pub isspace : ℕ → Bool
isspace c = c == 32 || c == 12 || c == 10 || c == 13 || c == 9 || c == 11

abbrev pub isblank : ℕ → Bool
isblank c = c == 32 || c == 9

abbrev pub isgraph : ℕ → Bool
isgraph c = ltb 32 c && ltb c 127

abbrev pub isprint : ℕ → Bool
isprint c = leb 32 c && ltb c 127

abbrev pub iscntrl : ℕ → Bool
iscntrl c = ltb c 32 || c == 127

abbrev pub isascii : ℕ → Bool
isascii c = ltb c 128

abbrev pub ispunct : ℕ → Bool
ispunct c = isprint c && not (isalnum c) && not (isspace c)

abbrev pub tolower : ℕ → ℕ
tolower c = if isupper c then c - 65 + 97 else c

abbrev pub toupper : ℕ → ℕ
toupper c = if islower c then c - 97 + 65 else c
