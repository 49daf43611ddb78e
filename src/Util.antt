-- ===== src/Util.antt =====
-- src/util.c: `compare_strings`, `is_number` and `get_ip_str`.
pub mod Spaces
pub mod Address
pub mod Tokenize
use datacomm_chat_server.Prelude.{
  ℕ, zero, suc, ◌+◌, Bool, true, false, ◌&&◌, not, List, [], ◌∷◌, ◌==◌, if◌then◌else◌, length, ltb,
  ◌++◌,
}
use datacomm_chat_server.CString.{Str, is_empty, isspace, isdigit, skip_spaces, decimal, codes}

-- The main loop with the two tails of `isspace` behind it. Each round advances one of the texts,
-- so the sum of their lengths is fuel enough.
compare_from : ℕ → Str → Str → Bool
compare_from zero s t = is_empty (skip_spaces s) && is_empty (skip_spaces t)
compare_from (suc fuel) [] t = is_empty (skip_spaces t)
compare_from (suc fuel) (a ∷ s) [] = is_empty (skip_spaces (a ∷ s))
compare_from (suc fuel) (a ∷ s) (b ∷ t) =
    let skip_left = compare_from fuel s (b ∷ t) in
    let skip_right = compare_from fuel (a ∷ s) t in
    let both = compare_from fuel s t in
    if isspace a then skip_left else if isspace b then skip_right else a == b && both

unfoldable pub compare_strings : Str → Str → Bool
unfolding compare_from skip_spaces
compare_strings s t = compare_from (length s + length t) s t

unfoldable pub is_number : Str → Bool
is_number [] = true
is_number (c ∷ s) = if not (isdigit c) then false else is_number s

abbrev pub max_ip_add_str_length : ℕ
max_ip_add_str_length = 16

-- The families of an address, with the four bytes of IPv4, and the text that `inet_ntop` has for an
-- address of IPv6.
pub data Sockaddr : Type 0 where
  af_inet : ℕ → ℕ → ℕ → ℕ → Sockaddr
  af_inet6 : Str → Sockaddr
  other_family : Sockaddr

-- The dotted text of `inet_ntop(AF_INET, …)`.
unfoldable pub dotted : ℕ → ℕ → ℕ → ℕ → Str
unfolding decimal
dotted a b c d = decimal a ++ b'.' ∷ (decimal b ++ b'.' ∷ (decimal c ++ b'.' ∷ decimal d))

-- `inet_ntop` into `size` bytes: a text without room for its NUL leaves the buffer as it was.
abbrev inet_ntop : ℕ → Str → Str → Str
inet_ntop size text out_str = if ltb (length text) size then text else out_str

unfoldable pub get_ip_str : Sockaddr → Str → Str
unfolding dotted
get_ip_str (af_inet a b c d) out_str = inet_ntop max_ip_add_str_length (dotted a b c d) out_str
get_ip_str (af_inet6 text) out_str = inet_ntop max_ip_add_str_length text out_str
get_ip_str other_family out_str = codes "Unknown AF"
