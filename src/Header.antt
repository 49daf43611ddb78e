-- ===== src/Header.antt =====
-- The four bytes in front of every dispatch: `chat_header_t` of include/server.h, `read_header` and
-- `create_response_header` of src/server.c, on a host whose memory order is little-endian.
pub mod RoundTrip
use datacomm_chat_server.Prelude.{
  ℕ, ◌+◌, ◌*◌, ◌/◌, ◌%◌, ◌^◌, ◌<◌, bit_or, Option, none, some, [], ◌∷◌,
}
use datacomm_chat_server.CString.{Str}

-- `version_type_t` is flattened: `version` and `type` are its two fields of four bits.
pub record ChatHeader : Type 0 where
  pub version : ℕ
  pub type : ℕ
  pub object : ℕ
  pub body_size : ℕ

-- The values that the C fields can hold.
pub record IsHeader (h : ChatHeader) : Type 0 where
  pub version_bits : h.version < 2 ^ 4
  pub type_bits : h.type < 2 ^ 4
  pub object_bits : h.object < 2 ^ 8
  pub size_bits : h.body_size < 2 ^ 16

-- `ntohl` and `htonl`: the four bytes of a word in the other order.
unfoldable pub swap_word : ℕ → ℕ
swap_word w =
    w % 2 ^ 8 * 2 ^ 24
    + w / 2 ^ 8 % 2 ^ 8 * 2 ^ 16
    + w / 2 ^ 16 % 2 ^ 8 * 2 ^ 8
    + w / 2 ^ 24 % 2 ^ 8

-- The bytes of a word in memory, which `write(fd, &header_int, sizeof(uint32_t))` sends.
unfoldable pub word_bytes : ℕ → Str
word_bytes w = w % 2 ^ 8 ∷ (w / 2 ^ 8) % 2 ^ 8 ∷ (w / 2 ^ 16) % 2 ^ 8 ∷ (w / 2 ^ 24) % 2 ^ 8 ∷ []

-- Reads a header off the bytes that wait at the socket: one byte into a word that is 0, then three.
-- With fewer bytes an `assert` on the result of `read` fails: `none`.
unfoldable pub read_header : Str → Option (ChatHeader × Str)
unfolding swap_word
read_header (b0 ∷ b1 ∷ b2 ∷ b3 ∷ rest) =
    let value = swap_word b0 in
    let header2 = swap_word (b1 + b2 * 2 ^ 8 + b3 * 2 ^ 16) in
    some (
      record {
        version = value / 2 ^ 28 % 2 ^ 4;
        type = value / 2 ^ 24 % 2 ^ 4;
        object = header2 / 2 ^ 24 % 2 ^ 8;
        body_size = header2 / 2 ^ 8 % 2 ^ 16;
      },
      rest,
    )
read_header input = none

-- The word before `htonl`: the fields shifted in 32 bits and joined by `|`.
unfoldable pub host_header : ChatHeader → ℕ
host_header h =
    bit_or
      (bit_or (bit_or (h.version * 2 ^ 28 % 2 ^ 32) (h.type * 2 ^ 24 % 2 ^ 32))
        (h.object * 2 ^ 16 % 2 ^ 32))
      h.body_size

unfoldable pub create_response_header : ChatHeader → ℕ
unfolding host_header swap_word
create_response_header h = swap_word (host_header h)
