-- ===== src/Header/RoundTrip.antt =====
-- The header that the server writes is the header that a reader of the protocol gets back.
use datacomm_chat_server.Prelude.{
  ℕ, ◌+◌, ◌*◌, ◌/◌, ◌%◌, ◌^◌, ◌<◌, ◌≡◌, refl, ◌∙◌, bit_or, bit_or_disjoint, some, [], ◌∷◌, ◌++◌,
  arith,
}
use datacomm_chat_server.CString.{Str}
use datacomm_chat_server.Header.{
  ChatHeader, IsHeader, swap_word, word_bytes, read_header, host_header, create_response_header,
}

-- A sum that is a multiple of 2 ^ k, joined with a value of k bits.
join_fields : (k a b x : ℕ) → x ≡ a * 2 ^ k → b < 2 ^ k → bit_or x b ≡ x + b
join_fields k a b x e h = rw e (bit_or_disjoint k a b h)

-- Fields in range do not overlap, so the joined word is their sum.
pub host_header-sum :
    (h : ChatHeader)
    → IsHeader h
    → host_header h ≡ h.version * 2 ^ 28 + h.type * 2 ^ 24 + h.object * 2 ^ 16 + h.body_size
unfolding host_header
host_header-sum h r =
    let v = h.version in
    let t = h.type in
    let o = h.object in
    let fits_v : v * 2 ^ 28 % 2 ^ 32 ≡ v * 2 ^ 28 = omega arith in
    let fits_t : t * 2 ^ 24 % 2 ^ 32 ≡ t * 2 ^ 24 = omega arith in
    let fits_o : o * 2 ^ 16 % 2 ^ 32 ≡ o * 2 ^ 16 = omega arith in
    rw
      (
        fits_v,
        fits_t,
        fits_o,
        join_fields 28 v (t * 2 ^ 24) (v * 2 ^ 28) refl (omega arith),
        join_fields 24 (v * 16 + t) (o * 2 ^ 16) (v * 2 ^ 28 + t * 2 ^ 24) (omega arith)
            (omega arith),
      )
      (join_fields 16 (v * 4096 + t * 256 + o) h.body_size (v * 2 ^ 28 + t * 2 ^ 24 + o * 2 ^ 16)
        (omega arith) (omega arith))

-- The bytes of a word that is written out in base 256.
word_bytes-sum :
    (a b c d : ℕ)
    → a < 2 ^ 8
    → b < 2 ^ 8
    → c < 2 ^ 8
    → d < 2 ^ 8
    → word_bytes (a * 2 ^ 24 + b * 2 ^ 16 + c * 2 ^ 8 + d) ≡ d ∷ c ∷ b ∷ a ∷ []
unfolding word_bytes
word_bytes-sum a b c d ha hb hc hd =
    let e0 : (a * 2 ^ 24 + b * 2 ^ 16 + c * 2 ^ 8 + d) % 2 ^ 8 ≡ d = omega arith in
    let e1 : (a * 2 ^ 24 + b * 2 ^ 16 + c * 2 ^ 8 + d) / 2 ^ 8 % 2 ^ 8 ≡ c = omega arith in
    let e2 : (a * 2 ^ 24 + b * 2 ^ 16 + c * 2 ^ 8 + d) / 2 ^ 16 % 2 ^ 8 ≡ b = omega arith in
    let e3 : (a * 2 ^ 24 + b * 2 ^ 16 + c * 2 ^ 8 + d) / 2 ^ 24 % 2 ^ 8 ≡ a = omega arith in
    rw (e0, e1, e2, e3)

-- `htonl` puts the high byte first in memory.
pub word_bytes-swap_word :
    (x : ℕ)
    → word_bytes (swap_word x)
      ≡ x / 2 ^ 24 % 2 ^ 8 ∷ (x / 2 ^ 16 % 2 ^ 8) ∷ (x / 2 ^ 8 % 2 ^ 8) ∷ (x % 2 ^ 8) ∷ []
unfolding swap_word
word_bytes-swap_word x =
    word_bytes-sum (x % 2 ^ 8) (x / 2 ^ 8 % 2 ^ 8) (x / 2 ^ 16 % 2 ^ 8) (x / 2 ^ 24 % 2 ^ 8)
      (omega arith) (omega arith) (omega arith) (omega arith)

-- The header in terms of the bytes received.
pub read_header-bytes :
    (b0 b1 b2 b3 : ℕ) (rest : Str)
    → b0 < 2 ^ 8
    → b1 < 2 ^ 8
    → b2 < 2 ^ 8
    → b3 < 2 ^ 8
    → read_header (b0 ∷ b1 ∷ b2 ∷ b3 ∷ rest)
      ≡ some (
        record { version = b0 / 16; type = b0 % 16; object = b1; body_size = b2 * 256 + b3 },
        rest,
      )
unfolding read_header
read_header-bytes b0 b1 b2 b3 rest h0 h1 h2 h3 = ground arith

-- What the server writes for a header in range is read back as that header, and nothing of what
-- follows is consumed.
pub read_header-create_response_header :
    (h : ChatHeader) (rest : Str)
    → IsHeader h
    → read_header (word_bytes (create_response_header h) ++ rest) ≡ some (h, rest)
unfolding create_response_header
read_header-create_response_header h rest r =
    let x = host_header h in
    rw word_bytes-swap_word (
      read_header-bytes _ _ _ _ rest (omega arith) (omega arith) (omega arith) (omega arith)
      ∙ ground (arith, host_header-sum h r))
