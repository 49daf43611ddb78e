-- ===== src/Client/Session.antt =====
-- How mock_client/main.c reads what the server answers.
use datacomm_chat_server.Request.Fields.{c_str_clean}
use datacomm_chat_server.Prelude.{
  ℕ, ◌≡◌, ◌^◌, ◌<◌, ◌≤◌, ◌+◌, ◌*◌, ◌%◌, ◌/◌, ◌∷◌, ◌++◌, some, none, refl, arith, length, take, drop,
  ap, ◌∙◌, ◌≢◌, if◌then◌else◌, ltb, All, Bool-cases, inl, inr, take_all, length-take, All-take,
}
use datacomm_chat_server.CString.{Str}
use datacomm_chat_server.Header.{
  ChatHeader, IsHeader, word_bytes, create_response_header, swap_word, host_header,
}
use datacomm_chat_server.Header.RoundTrip.{word_bytes-swap_word, host_header-sum}
use datacomm_chat_server.Client.{
  Choice, announced_header, header_in_memory, print_body, read_announced, read_blindly,
  read_response, reads_header,
}

announced_header-bytes :
    (b0 b1 b2 b3 : ℕ) (rest : Str)
    → b0 < 2 ^ 8
    → b1 < 2 ^ 8
    → b2 < 2 ^ 8
    → b3 < 2 ^ 8
    → announced_header (b0 ∷ b1 ∷ b2 ∷ b3 ∷ rest)
      ≡ some (record { version = b3 % 16; type = b3 / 16; object = b2; body_size = b1 + b0 * 256 })
unfolding announced_header header_in_memory swap_word
announced_header-bytes b0 b1 b2 b3 rest h0 h1 h2 h3 = ground arith

-- What READ CHANNEL, UPDATE CHANNEL and READ MESSAGE take for the header of a response, after
-- `ntohl` and the copy into the structure: the size is the object, the type and the version of the
-- header that the server sent, and its size is the rest.
pub announced_header-create_response_header :
    (h : ChatHeader) (rest : Str)
    → IsHeader h
    → announced_header (word_bytes (create_response_header h) ++ rest)
      ≡ some (record {
        version = h.body_size % 2 ^ 4;
        type = h.body_size / 2 ^ 4 % 2 ^ 4;
        object = h.body_size / 2 ^ 8;
        body_size = h.object + (h.type + h.version * 2 ^ 4) * 2 ^ 8;
      })
unfolding create_response_header
announced_header-create_response_header h rest r =
    let x = host_header h in
    let sum = host_header-sum h r in
    let b0 = x / 2 ^ 24 % 2 ^ 8 in
    let b1 = x / 2 ^ 16 % 2 ^ 8 in
    let b2 = x / 2 ^ 8 % 2 ^ 8 in
    let b3 = x % 2 ^ 8 in
    rw word_bytes-swap_word (
      announced_header-bytes b0 b1 b2 b3 rest (omega arith) (omega arith) (omega arith)
        (omega arith)
      ∙ ground (arith, sum, r.version_bits, r.type_bits, r.object_bits, r.size_bits))

IsText : Str → Type 0
IsText = All (λ c. c ≢ 0)

-- The body is printed where it has less bytes than the buffer.
print_body_whole :
    (size : ℕ) (body : Str)
    → IsText body
    → length body ≤ size
    → print_body size body ≡ (if ltb (length body) 1024 then some body else none)
unfolding print_body IsText
print_body_whole size body clean whole =
    rw (take_all size body whole, c_str_clean body clean) (ground arith)

-- A body that fills the buffer leaves no room for a NUL.
print_body_full :
    (size : ℕ) (body : Str)
    → IsText body
    → 1024 ≤ size
    → 1024 ≤ length body
    → print_body size body ≡ none
unfolding print_body IsText
print_body_full size body clean room long =
    let e = length-take size body in
    rw (c_str_clean (take size body) (All-take (λ c. c ≢ 0) size body clean)) (ground (arith, e))

drop-word_bytes : (w : ℕ) (body : Str) → drop 4 (word_bytes w ++ body) ≡ body
unfolding word_bytes
drop-word_bytes w body = refl

-- Every body of 1024 bytes or more, and no shorter one, is too much for the client.
print_body_cases :
    (size : ℕ) (body : Str)
    → IsText body
    → 1024 ≤ size
    → print_body size body ≡ (if ltb (length body) 1024 then some body else none)
print_body_cases size body clean room = elim (Bool-cases (ltb (length body) 1024)) [
  | inl short ↦ print_body_whole size body clean (ground arith)
  | inr long ↦ print_body_full size body clean room (ground arith) ∙ rw long refl
]

print_announced :
    (input : Str) (h : ChatHeader)
    → announced_header input ≡ some h
    → read_announced input ≡ print_body h.body_size (drop 4 input)
unfolding read_announced
print_announced input h e = rw (e, read_announced) refl

read_announced-body :
    (h : ChatHeader) (body : Str)
    → IsHeader h
    → h.version ≡ 1
    → IsText body
    → read_announced (word_bytes (create_response_header h) ++ body)
      ≡ (if ltb (length body) 1024 then some body else none)
read_announced-body h body r current clean =
    let w = create_response_header h in
    let size = h.object + (h.type + h.version * 2 ^ 4) * 2 ^ 8 in
    print_announced (word_bytes w ++ body) _ (announced_header-create_response_header h body r)
    ∙ ap (print_body size) (drop-word_bytes w body)
    ∙ print_body_cases size body clean (omega (arith, current))

read_blindly-body :
    (w : ℕ) (body : Str)
    → IsText body
    → read_blindly (word_bytes w ++ body) ≡ (if ltb (length body) 1024 then some body else none)
unfolding read_blindly
read_blindly-body w body clean =
    ap (print_body 1024) (drop-word_bytes w body) ∙ print_body_cases 1024 body clean (omega arith)

-- A response of the current version, behind a header that the server writes, is printed as it was
-- sent whenever it has less than 1024 bytes, and overruns the client's buffer otherwise; that holds
-- for every choice and whatever size the header announces.
pub read_response-body :
    (choice : Choice) (h : ChatHeader) (body : Str)
    → IsHeader h
    → h.version ≡ 1
    → All (λ c. c ≢ 0) body
    → read_response choice (word_bytes (create_response_header h) ++ body)
      ≡ (if ltb (length body) 1024 then some body else none)
unfolding read_response IsText
read_response-body choice h body r current clean = elim (Bool-cases (reads_header choice)) [
  | inl header ↦ rw header (read_announced-body h body r current clean)
  | inr blind ↦ rw blind (read_blindly-body (create_response_header h) body clean)
]
