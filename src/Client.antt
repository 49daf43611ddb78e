-- ===== src/Client.antt =====
-- mock_client/main.c: the requests that the client sends for a choice of its menu, how it reads the
-- responses, and `copy`. The host is little-endian, and its compiler puts the first bit field of
-- `version_type_t` into the low bits of the byte.
pub mod Served
pub mod Session
pub mod Copy
pub mod Dialog
use datacomm_chat_server.Prelude.{
  Bool, true, false, ℕ, ◌+◌, ◌*◌, ◌/◌, ◌%◌, ◌^◌, bit_or, Option, none, some, List, [], ◌∷◌, ◌++◌,
  ◌==◌, ltb, if◌then◌else◌, length, take, drop, Bool, true, false,
}
use datacomm_chat_server.CString.{Str, codes, etx, c_str, decimal}
use datacomm_chat_server.Header.{ChatHeader, swap_word, word_bytes}

abbrev pub defualt_buffer : ℕ
defualt_buffer = 1024

-- The entries of the menu.
pub data Choice : Type 0 where
  choose_create_admin choose_create_user choose_create_auth : Choice
  choose_destroy_auth choose_destroy_auth_admin : Choice
  choose_create_channel choose_create_message choose_destroy_user : Choice
  choose_read_channel choose_update_channel choose_read_message : Choice

-- The tests of the character that was typed. Any other character, as the line feed behind a choice,
-- makes the loop go round without a request.
unfoldable pub choice_of : ℕ → Option Choice
choice_of c =
    if c == b'0'
    then some choose_create_admin
    else if c == b'1'
    then some choose_create_user
    else if c == b'2'
    then some choose_create_auth
    else if c == b'3'
    then some choose_destroy_auth
    else if c == b'4'
    then some choose_destroy_auth_admin
    else if c == b'5'
    then some choose_create_channel
    else if c == b'6'
    then some choose_create_message
    else if c == b'7'
    then some choose_destroy_user
    else if c == b'8'
    then some choose_read_channel
    else if c == b'9'
    then some choose_update_channel
    else if c == b'A'
    then some choose_read_message
    else none

-- `htons`
unfoldable pub swap_short : ℕ → ℕ
swap_short n = n % 2 ^ 8 * 2 ^ 8 + n / 2 ^ 8 % 2 ^ 8

-- `memcpy(&temp_int, &test_header, sizeof(test_header))`: the structure as it lies in memory.
unfoldable pub struct_word : ChatHeader → ℕ
struct_word h = h.version + h.type * 2 ^ 4 + h.object * 2 ^ 8 + h.body_size * 2 ^ 16

-- `memcpy(&temp_header, &h, sizeof(uint32_t))`
unfoldable pub header_in_memory : ℕ → ChatHeader
header_in_memory w = record {
  version = w % 2 ^ 4;
  type = w / 2 ^ 4 % 2 ^ 4;
  object = w / 2 ^ 8 % 2 ^ 8;
  body_size = w / 2 ^ 16 % 2 ^ 16;
}

-- `create_response_header` of the client.
unfoldable pub client_response_header : ChatHeader → ℕ
unfolding swap_word
client_response_header h = swap_word (
    bit_or
      (bit_or (bit_or (h.version * 2 ^ 28 % 2 ^ 32) (h.type * 2 ^ 24 % 2 ^ 32))
        (h.object * 2 ^ 16 % 2 ^ 32))
      h.body_size)

-- The fields that a choice writes into its header; the size is `(uint16_t) strlen(body)`.
abbrev pub header_of : ℕ → ℕ → Str → ChatHeader
header_of type object body = record {
  version = 1;
  type = type;
  object = object;
  body_size = length body % 2 ^ 16;
}

-- A request of which the header is copied from memory, its size swapped by `htons` before.
unfoldable pub copied : ℕ → ℕ → Str → Str
unfolding swap_short struct_word word_bytes
copied type object body =
    let h = header_of type object body in
    word_bytes (struct_word (record h { body_size = swap_short h.body_size })) ++ body

-- A request of which the header goes through `create_response_header`.
unfoldable pub serialized : ℕ → ℕ → Str → Str
unfolding client_response_header word_bytes
serialized type object body =
    word_bytes (client_response_header (header_of type object body)) ++ body

-- The body of a request. `send_this` is the low byte of the clock, which `%hhu` prints.
unfoldable pub request_body : ℕ → Choice → Str
unfolding decimal
request_body time choose_create_admin =
    codes "GlobalAdmin" ++ etx ∷ codes "admin" ++ etx ∷ codes "admin"
request_body time choose_create_user =
    codes "bennychao" ++ etx ∷ codes "benny" ++ etx ∷ codes "monkey123"
request_body time choose_create_auth = codes "bennychao" ++ etx ∷ codes "monkey123" ++ etx ∷ []
request_body time choose_destroy_auth = codes "benny" ++ etx ∷ []
request_body time choose_destroy_auth_admin = codes "bennychao"
request_body time choose_create_channel =
    codes "comp4981 channel" ++ etx ∷ codes "benny" ++ etx ∷ decimal 0
request_body time choose_create_message =
    codes "benny"
    ++ etx ∷ codes "comp4981 channel"
    ++ etx ∷ codes "new message"
    ++ etx ∷ decimal (time % 2 ^ 8)
request_body time choose_destroy_user =
    codes "benny" ++ etx ∷ codes "bennychao" ++ etx ∷ codes "monkey123"
request_body time choose_read_channel =
    codes "comp4981 channel" ++ etx ∷ codes "1" ++ etx ∷ codes "1" ++ etx ∷ codes "0" ++ etx ∷ []
request_body time choose_update_channel =
    codes "comp4981 channel"
    ++ etx ∷ codes "0"
    ++ etx ∷ codes "0"
    ++ etx ∷ codes "1"
    ++ etx ∷ codes "1"
    ++ etx ∷ codes "admin"
    ++ etx ∷ codes "0"
    ++ etx ∷ codes "0"
    ++ etx ∷ []
request_body time choose_read_message = codes "comp4981 channel" ++ etx ∷ decimal 10 ++ etx ∷ []

-- The bytes that both calls of `send` put on the socket, for each choice.
abbrev send_create_admin : ℕ → Str
send_create_admin time = copied 1 1 (request_body time choose_create_admin)

abbrev send_create_user : ℕ → Str
send_create_user time = copied 1 1 (request_body time choose_create_user)

abbrev send_create_auth : ℕ → Str
send_create_auth time = copied 1 4 (request_body time choose_create_auth)

abbrev send_destroy_auth : ℕ → Str
send_destroy_auth time = serialized 4 4 (request_body time choose_destroy_auth)

abbrev send_destroy_auth_admin : ℕ → Str
send_destroy_auth_admin time = copied 4 4 (request_body time choose_destroy_auth_admin)

abbrev send_create_channel : ℕ → Str
send_create_channel time = copied 1 2 (request_body time choose_create_channel)

abbrev send_create_message : ℕ → Str
send_create_message time = serialized 1 3 (request_body time choose_create_message)

abbrev send_destroy_user : ℕ → Str
send_destroy_user time = serialized 4 1 (request_body time choose_destroy_user)

abbrev send_read_channel : ℕ → Str
send_read_channel time = serialized 2 2 (request_body time choose_read_channel)

abbrev send_update_channel : ℕ → Str
send_update_channel time = serialized 3 2 (request_body time choose_update_channel)

abbrev send_read_message : ℕ → Str
send_read_message time = serialized 2 3 (request_body time choose_read_message)

unfoldable pub request_bytes : ℕ → Choice → Str
unfolding request_body copied serialized
request_bytes time choose_create_admin = send_create_admin time
request_bytes time choose_create_user = send_create_user time
request_bytes time choose_create_auth = send_create_auth time
request_bytes time choose_destroy_auth = send_destroy_auth time
request_bytes time choose_destroy_auth_admin = send_destroy_auth_admin time
request_bytes time choose_create_channel = send_create_channel time
request_bytes time choose_create_message = send_create_message time
request_bytes time choose_destroy_user = send_destroy_user time
request_bytes time choose_read_channel = send_read_channel time
request_bytes time choose_update_channel = send_update_channel time
request_bytes time choose_read_message = send_read_message time

-- What `read(client_socket, buffer, size)` does to the cleared buffer, of which `printf` prints a
-- text: `none` where bytes go beyond the buffer, or leave it without a NUL.
unfoldable pub print_body : ℕ → Str → Option Str
unfolding c_str
print_body size input =
    let received = take size input in
    let text = c_str received in
    if ltb defualt_buffer (length received)
    then none
    else if length text == defualt_buffer
    then none
    else some text

-- The choices that do not look at the header of the response.
unfoldable pub read_blindly : Str → Option Str
unfolding print_body
read_blindly input = print_body defualt_buffer (drop 4 input)

-- READ CHANNEL, UPDATE CHANNEL and READ MESSAGE take the size of the body from the header: the word
-- read, `ntohl`, and a copy into the structure.
unfoldable pub announced_header : Str → Option ChatHeader
unfolding header_in_memory swap_word
announced_header (b0 ∷ b1 ∷ b2 ∷ b3 ∷ rest) =
    some (header_in_memory (swap_word (b0 + b1 * 2 ^ 8 + b2 * 2 ^ 16 + b3 * 2 ^ 24)))
announced_header input = none

unfoldable pub read_announced : Str → Option Str
unfolding announced_header print_body
read_announced input = elim (announced_header input) [
  | none ↦ none
  | some h ↦ print_body h.body_size (drop 4 input)
]

abbrev pub reads_header : Choice → Bool
reads_header choose_read_channel = true
reads_header choose_update_channel = true
reads_header choose_read_message = true
reads_header other = false

-- What a choice prints of the response that waits at the socket.
unfoldable pub read_response : Choice → Str → Option Str
unfolding read_blindly read_announced
read_response choice input =
    if reads_header choice then read_announced input else read_blindly input
