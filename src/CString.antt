-- ===== src/CString.antt =====
-- The C strings of the program, as lists of bytes without the final NUL, and the functions of
-- string.h and stdlib.h that src/server.c and src/my_ndbm.c call on them.
pub mod Tokens
pub mod Decimal
pub mod Number
use Prim.Native.Char.{code}
use Prim.Native.String
use datacomm_chat_server.Prelude.{
  ℕ, zero, suc, ◌+◌, ◌-◌, ◌*◌, ◌/◌, ◌%◌, ◌^◌, String, Bool, true, false, ◌&&◌, ◌||◌, Option, none,
  some, List, [], ◌∷◌, ◌++◌, ◌==◌, ltb, leb, if◌then◌else◌, length, ℤ, pos, negsuc,
}

abbrev pub Str : Type 0
Str = List ℕ

-- The bytes of a literal of the source.
abbrev pub codes : String → Str
codes String.[] = []
codes (String.◌∷◌ c s) = code c ∷ codes s

-- The delimiter ETX, written "\3" in the source.
abbrev pub etx : ℕ
etx = 3

-- `strcmp(a, b) == 0`
unfoldable pub streq : Str → Str → Bool
streq [] [] = true
streq [] (y ∷ ys) = false
streq (x ∷ xs) [] = false
streq (x ∷ xs) (y ∷ ys) = x == y && streq xs ys

-- One of the texts is equal to `a`.
unfoldable pub member : Str → List Str → Bool
member a [] = false
member a (x ∷ xs) = streq x a || member a xs

-- `s[0] == '\0'`
abbrev pub is_empty : Str → Bool
is_empty [] = true
is_empty (x ∷ xs) = false

-- What a buffer of bytes reads as: the bytes before the first NUL.
unfoldable pub c_str : Str → Str
c_str [] = []
c_str (c ∷ s) = if c == 0 then [] else c ∷ c_str s

-- `strtok(s, "\3")`: the leading delimiters are skipped, and the token ends at the next one.
unfoldable pub skip_etx : Str → Str
skip_etx [] = []
skip_etx (c ∷ s) = if c == etx then skip_etx s else c ∷ s

unfoldable pub split_etx : Str → Str × Str
split_etx [] = ([], [])
split_etx (c ∷ s) = let rest = split_etx s in if c == etx then ([], s) else (c ∷ rest.0, rest.1)

some_token : Str → Option (Str × Str)
some_token [] = none
some_token (c ∷ s) = some (split_etx (c ∷ s))

-- The token and what `strtok(NULL, "\3")` goes on with; `none` is the null pointer.
unfoldable pub strtok : Str → Option (Str × Str)
unfolding some_token skip_etx split_etx
strtok s = some_token (skip_etx s)

-- `%d` of a number that is not negative: the digits from the last to the first.
digits_from : ℕ → ℕ → Str → Str
digits_from zero n acc = acc
digits_from (suc fuel) n acc =
    let more = digits_from fuel (n / 10) ((48 + n % 10) ∷ acc) in
    if ltb n 10 then (48 + n) ∷ acc else more

unfoldable pub decimal : ℕ → Str
unfolding digits_from
decimal n = digits_from (suc n) n []

-- `%d`
unfoldable pub show_int : ℤ → Str
unfolding decimal
show_int (pos n) = decimal n
show_int (negsuc n) = b'-' ∷ decimal (n + 1)

-- `isdigit` and `isspace` in the C locale.
abbrev pub isdigit : ℕ → Bool
isdigit c = leb 48 c && leb c 57

abbrev pub isspace : ℕ → Bool
isspace c = c == 32 || leb 9 c && leb c 13

unfoldable pub skip_spaces : Str → Str
skip_spaces [] = []
skip_spaces (c ∷ s) = if isspace c then skip_spaces s else c ∷ s

-- The value of the digits that `strtol` reads in base 10, and the text that it stops at.
unfoldable pub read_digits : ℕ → Str → ℕ × Str
read_digits acc [] = (acc, [])
read_digits acc (c ∷ s) =
    let rest = read_digits (acc * 10 + (c - 48)) s in if isdigit c then rest else (acc, c ∷ s)

abbrev long_max : ℕ
long_max = 2 ^ 63 - 1

-- `strtol` clamps to the range of `long`.
abbrev clamp_long : Bool → ℕ → ℤ
clamp_long false n = if ltb long_max n then pos long_max else pos n
clamp_long true zero = pos 0
clamp_long true (suc n) = if ltb long_max n then negsuc long_max else negsuc n

signed : Str → ℤ
unfolding read_digits
signed [] = pos 0
signed (c ∷ s) =
    if c == b'-'
    then clamp_long true (read_digits 0 s).0
    else if c == b'+'
    then clamp_long false (read_digits 0 s).0
    else clamp_long false (read_digits 0 (c ∷ s)).0

-- `strtol(s, &end, 10)`, its value.
unfoldable pub strtol : Str → ℤ
unfolding skip_spaces signed
strtol s = signed (skip_spaces s)

-- Where `strtol` stops; `none` where there is no digit to read, and it sets `end` to the text itself.
digits_end : Str → Option Str
unfolding read_digits
digits_end [] = none
digits_end (c ∷ s) = if isdigit c then some (read_digits 0 (c ∷ s)).1 else none

signed_end : Str → Option Str
unfolding digits_end
signed_end [] = none
signed_end (c ∷ s) = if c == b'-' || c == b'+' then digits_end s else digits_end (c ∷ s)

unfoldable pub strtol_end : Str → Option Str
unfolding skip_spaces signed_end
strtol_end s = signed_end (skip_spaces s)

-- `strtol` sets `errno` to `ERANGE`: the number read is not in the range of `long`.
signed_range : Str → Bool
unfolding read_digits
signed_range [] = false
signed_range (c ∷ s) =
    if c == b'-'
    then ltb (2 ^ 63) (read_digits 0 s).0
    else if c == b'+'
    then ltb long_max (read_digits 0 s).0
    else ltb long_max (read_digits 0 (c ∷ s)).0

unfoldable pub strtol_range : Str → Bool
unfolding skip_spaces signed_range
strtol_range s = signed_range (skip_spaces s)

abbrev int_of_word : ℕ → ℤ
int_of_word w = if ltb w (2 ^ 31) then pos w else negsuc (2 ^ 32 - w - 1)

-- `(int)` of a `long`: the low 32 bits, read with their sign.
unfoldable pub to_int : ℤ → ℤ
to_int (pos n) = int_of_word (n % 2 ^ 32)
to_int (negsuc n) = int_of_word (2 ^ 32 - 1 - n % 2 ^ 32)
