-- ===== src/Util/Address.antt =====
-- `get_ip_str` of src/util.c: the text of a client's address.
use datacomm_chat_server.Prelude.{
  ℕ, ◌<◌, ◌≡◌, ◌^◌, refl, arith, length, length-append, ◌++◌, ◌∷◌, lt→ltb,
}
use datacomm_chat_server.CString.{Str, decimal}
use datacomm_chat_server.CString.Number.{length-decimal}
use datacomm_chat_server.Util.{Sockaddr, af_inet, af_inet6, other_family, dotted, get_ip_str}

-- Four bytes take at most fifteen characters.
length-dotted :
    (a b c d : ℕ) → a < 2 ^ 8 → b < 2 ^ 8 → c < 2 ^ 8 → d < 2 ^ 8 → length (dotted a b c d) < 16
unfolding dotted
length-dotted a b c d ha hb hc hd =
    let rest_c = decimal c ++ b'.' ∷ decimal d in
    let rest_b = decimal b ++ b'.' ∷ rest_c in
    omega (
      arith,
      length-append (decimal a) (b'.' ∷ rest_b),
      length-append (decimal b) (b'.' ∷ rest_c),
      length-append (decimal c) (b'.' ∷ decimal d),
      length-decimal a 2 (omega arith),
      length-decimal b 2 (omega arith),
      length-decimal c 2 (omega arith),
      length-decimal d 2 (omega arith),
    )

-- The address of every client of IPv4 is written out in dotted decimal, whatever its four bytes are.
pub get_ip_str-dotted :
    (a b c d : ℕ) (out_str : Str)
    → a < 2 ^ 8
    → b < 2 ^ 8
    → c < 2 ^ 8
    → d < 2 ^ 8
    → get_ip_str (af_inet a b c d) out_str ≡ dotted a b c d
unfolding get_ip_str
get_ip_str-dotted a b c d out_str ha hb hc hd =
    rw (lt→ltb (length (dotted a b c d)) 16 (length-dotted a b c d ha hb hc hd)) refl

-- A text with room for its NUL in the 16 bytes of `client_addrs[i]` is replaced by one that has.
pub length-get_ip_str :
    (sa : Sockaddr) (out_str : Str) → length out_str < 16 → length (get_ip_str sa out_str) < 16
unfolding get_ip_str
length-get_ip_str (af_inet a b c d) out_str h = ground (arith, h)
length-get_ip_str (af_inet6 text) out_str h = ground (arith, h)
length-get_ip_str other_family out_str h = omega arith
