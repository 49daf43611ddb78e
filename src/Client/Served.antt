-- ===== src/Client/Served.antt =====
-- What the server makes of the requests of mock_client/main.c.
use datacomm_chat_server.Prelude.{
  ℕ, ◌≡◌, ◌^◌, ◌<◌, ◌+◌, ◌*◌, ◌%◌, ◌/◌, [], ◌∷◌, ◌++◌, some, pos, refl, arith, length, ap, ◌∙◌, ◌≢◌,
  Bool, if◌then◌else◌, true, false,
}
use datacomm_chat_server.Prelude.Partial.{◌>>=◌}
use datacomm_chat_server.CString.{Str}
use datacomm_chat_server.Ndbm.{Ndbm}
use datacomm_chat_server.Records.{Env, Server}
use datacomm_chat_server.Header.{
  ChatHeader, IsHeader, word_bytes, read_header, create_response_header, host_header,
}
use datacomm_chat_server.Header.RoundTrip.{read_header-bytes, read_header-create_response_header}
use datacomm_chat_server.Dispatch.{
  Request, create_user, destroy_user, create_channel, read_channel, update_channel, create_message,
  read_message, login, logout, handle_request, serve, select,
}
use datacomm_chat_server.Client.{
  Choice, choose_create_admin, choose_create_user, choose_create_auth, choose_destroy_auth,
  choose_destroy_auth_admin, choose_create_channel, choose_create_message, choose_destroy_user,
  choose_read_channel, choose_update_channel, choose_read_message, header_of, copied, serialized,
  request_body, request_bytes, struct_word, swap_short, client_response_header,
}

-- The word of a structure in memory, byte by byte.
word_bytes-struct_word :
    (v t o n : ℕ)
    → v < 2 ^ 4
    → t < 2 ^ 4
    → o < 2 ^ 8
    → n < 2 ^ 16
    → word_bytes
        (struct_word (record { version = v; type = t; object = o; body_size = swap_short n }))
      ≡ (v + t * 2 ^ 4) ∷ o ∷ (n / 2 ^ 8) ∷ (n % 2 ^ 8) ∷ []
unfolding word_bytes struct_word swap_short
word_bytes-struct_word v t o n hv ht ho hn =
    let w = v + t * 2 ^ 4 + o * 2 ^ 8 + (n % 2 ^ 8 * 2 ^ 8 + n / 2 ^ 8 % 2 ^ 8) * 2 ^ 16 in
    let e0 : w % 2 ^ 8 ≡ v + t * 2 ^ 4 = omega arith in
    let e1 : w / 2 ^ 8 % 2 ^ 8 ≡ o = omega arith in
    let e2 : w / 2 ^ 16 % 2 ^ 8 ≡ n / 2 ^ 8 = omega arith in
    let e3 : w / 2 ^ 24 % 2 ^ 8 ≡ n % 2 ^ 8 = omega arith in rw (e0, e1, e2, e3)

header_of-IsHeader :
    (type object : ℕ) (body : Str)
    → type < 2 ^ 4
    → object < 2 ^ 8
    → IsHeader (header_of type object body)
header_of-IsHeader type object body t o = record {
  version_bits = omega arith;
  type_bits = t;
  object_bits = o;
  size_bits = omega arith;
}

-- A header that is copied from memory has the type where the server reads the version: the server
-- sees the version `type`, the type 1, and the object and the size as they were meant.
pub read_header-copied :
    (type object : ℕ) (body : Str)
    → type < 2 ^ 4
    → object < 2 ^ 8
    → read_header (copied type object body)
      ≡ some (
        record { version = type; type = 1; object = object; body_size = length body % 2 ^ 16 },
        body,
      )
unfolding copied
read_header-copied type object body t o =
    let n = length body % 2 ^ 16 in
    let b0 = 1 + type * 2 ^ 4 in
    let high = n / 2 ^ 8 in
    let low = n % 2 ^ 8 in
    ap (λ bytes. read_header (bytes ++ body))
      (word_bytes-struct_word 1 type object n (omega arith) t o (omega arith))
    ∙ read_header-bytes b0 object high low body (omega arith) o (omega arith) (omega arith)
    ∙ ground arith

-- A header that the client serializes is read as it was meant.
pub read_header-serialized :
    (type object : ℕ) (body : Str)
    → type < 2 ^ 4
    → object < 2 ^ 8
    → read_header (serialized type object body) ≡ some (header_of type object body, body)
unfolding serialized client_response_header create_response_header host_header
read_header-serialized type object body t o =
    read_header-create_response_header (header_of type object body) body
      (header_of-IsHeader type object body t o)

-- What each choice asks of the server, as the menu names it.
pub intended : Choice → Request
intended choose_create_admin = create_user
intended choose_create_user = create_user
intended choose_create_auth = login
intended choose_destroy_auth = logout
intended choose_destroy_auth_admin = logout
intended choose_create_channel = create_channel
intended choose_create_message = create_message
intended choose_destroy_user = destroy_user
intended choose_read_channel = read_channel
intended choose_update_channel = update_channel
intended choose_read_message = read_message

-- The header of the protocol for a request with a body.
pub protocol_header : Request → Str → ChatHeader
protocol_header create_user body = header_of 1 1 body
protocol_header destroy_user body = header_of 4 1 body
protocol_header create_channel body = header_of 1 2 body
protocol_header read_channel body = header_of 2 2 body
protocol_header update_channel body = header_of 3 2 body
protocol_header create_message body = header_of 1 3 body
protocol_header read_message body = header_of 2 3 body
protocol_header login body = header_of 1 4 body
protocol_header logout body = header_of 4 4 body
protocol_header other body = header_of 0 0 body

-- A choice other than DESTROY_AUTH_ADMIN sends the header of the request that it is named after.
read_header-request_bytes :
    (time : ℕ) (choice : Choice)
    → choice ≢ choose_destroy_auth_admin
    → read_header (request_bytes time choice)
      ≡ some
          (protocol_header (intended choice) (request_body time choice), request_body time choice)
unfolding request_bytes protocol_header intended
read_header-request_bytes time choose_create_admin h =
    read_header-copied 1 1 (request_body time choose_create_admin) (omega arith) (omega arith)
read_header-request_bytes time choose_create_user h =
    read_header-copied 1 1 (request_body time choose_create_user) (omega arith) (omega arith)
read_header-request_bytes time choose_create_auth h =
    read_header-copied 1 4 (request_body time choose_create_auth) (omega arith) (omega arith)
read_header-request_bytes time choose_destroy_auth h =
    read_header-serialized 4 4 (request_body time choose_destroy_auth) (omega arith) (omega arith)
read_header-request_bytes time choose_destroy_auth_admin h = absurd (h refl)
read_header-request_bytes time choose_create_channel h =
    read_header-copied 1 2 (request_body time choose_create_channel) (omega arith) (omega arith)
read_header-request_bytes time choose_create_message h =
    read_header-serialized 1 3 (request_body time choose_create_message) (omega arith) (omega arith)
read_header-request_bytes time choose_destroy_user h =
    read_header-serialized 4 1 (request_body time choose_destroy_user) (omega arith) (omega arith)
read_header-request_bytes time choose_read_channel h =
    read_header-serialized 2 2 (request_body time choose_read_channel) (omega arith) (omega arith)
read_header-request_bytes time choose_update_channel h =
    read_header-serialized 3 2 (request_body time choose_update_channel) (omega arith) (omega arith)
read_header-request_bytes time choose_read_message h =
    read_header-serialized 2 3 (request_body time choose_read_message) (omega arith) (omega arith)

-- The header of a request selects it.
select-protocol_header :
    (choice : Choice) (body : Str)
    → select (protocol_header (intended choice) body) ≡ intended choice
unfolding select protocol_header intended
select-protocol_header choose_create_admin body = refl
select-protocol_header choose_create_user body = refl
select-protocol_header choose_create_auth body = refl
select-protocol_header choose_destroy_auth body = refl
select-protocol_header choose_destroy_auth_admin body = refl
select-protocol_header choose_create_channel body = refl
select-protocol_header choose_create_message body = refl
select-protocol_header choose_destroy_user body = refl
select-protocol_header choose_read_channel body = refl
select-protocol_header choose_update_channel body = refl
select-protocol_header choose_read_message body = refl

protocol_header-version :
    (choice : Choice) (body : Str) → (protocol_header (intended choice) body).version ≡ 1
unfolding protocol_header intended
protocol_header-version choose_create_admin body = refl
protocol_header-version choose_create_user body = refl
protocol_header-version choose_create_auth body = refl
protocol_header-version choose_destroy_auth body = refl
protocol_header-version choose_destroy_auth_admin body = refl
protocol_header-version choose_create_channel body = refl
protocol_header-version choose_create_message body = refl
protocol_header-version choose_destroy_user body = refl
protocol_header-version choose_read_channel body = refl
protocol_header-version choose_update_channel body = refl
protocol_header-version choose_read_message body = refl

abbrev pub is_admin_logout : Choice → Bool
is_admin_logout choose_destroy_auth_admin = true
is_admin_logout other = false

module _ ⦃N : Ndbm⦄ where
  -- Once the header is read and of the current version, the handler of what it selects decides.
  handle_request-read :
      (env : Env) (fd : ℕ) (addr : Str) (s : Server) (h : ChatHeader) (body : Str)
      → read_header env.input ≡ some (h, body)
      → h.version ≡ 1
      → handle_request env fd addr s
        ≡ (serve env fd addr h body s (select h) >>= λ after. some (pos 0, after))
  unfolding handle_request
  handle_request-read env fd addr s h body received version = rw received (ground (arith, version))

  serve-client :
      (env : Env) (fd : ℕ) (addr : Str) (s : Server) (time : ℕ) (choice : Choice)
      → choice ≢ choose_destroy_auth_admin
      → env.input ≡ request_bytes time choice
      → handle_request env fd addr s ≡ (
          serve env fd addr
            (protocol_header (intended choice) (request_body time choice))
            (request_body time choice)
            s
            (intended choice)
          >>= λ after. some (pos 0, after))
  serve-client env fd addr s time choice other e =
      let body = request_body time choice in
      let h = protocol_header (intended choice) body in
      handle_request-read env fd addr s h body
        (ap read_header e ∙ read_header-request_bytes time choice other)
        (protocol_header-version choice body)
      ∙ ap (λ q. serve env fd addr h body s q >>= λ after. some (pos 0, after))
          (select-protocol_header choice body)

  -- DESTROY_AUTH_ADMIN is refused as a request of another version, and changes nothing: its header is
  -- copied from memory, and the server reads its type 4 as the version.
  refuse-admin_logout :
      (env : Env) (fd : ℕ) (addr : Str) (s : Server) (time : ℕ)
      → env.input ≡ request_bytes time choose_destroy_auth_admin
      → handle_request env fd addr s ≡ some (pos 2, s)
  unfolding handle_request request_bytes
  refuse-admin_logout env fd addr s time e =
      let body = request_body time choose_destroy_auth_admin in
      let received = ap read_header e ∙ read_header-copied 4 4 body (omega arith) (omega arith) in
      rw received refl

  -- For every choice of the client, whatever the clock shows: the server hands the body that was sent,
  -- and the header of the protocol for it, to the handler of the request that the choice is named
  -- after. Only DESTROY_AUTH_ADMIN is refused, as a request of another version that changes nothing:
  -- its header is copied from memory, and the server reads its type 4 as the version.
  pub handle_request-client :
      (env : Env) (fd : ℕ) (addr : Str) (s : Server) (time : ℕ) (choice : Choice)
      → env.input ≡ request_bytes time choice
      → handle_request env fd addr s ≡ (
          if is_admin_logout choice
          then some (pos 2, s)
          else (serve env fd addr
                (protocol_header (intended choice) (request_body time choice))
                (request_body time choice)
                s
                (intended choice)
              >>= λ after. some (pos 0, after)))
  handle_request-client env fd addr s time choose_destroy_auth_admin e =
      refuse-admin_logout env fd addr s time e
  handle_request-client env fd addr s time choose_create_admin e =
      serve-client env fd addr s time choose_create_admin (λ h. cc h) e
  handle_request-client env fd addr s time choose_create_user e =
      serve-client env fd addr s time choose_create_user (λ h. cc h) e
  handle_request-client env fd addr s time choose_create_auth e =
      serve-client env fd addr s time choose_create_auth (λ h. cc h) e
  handle_request-client env fd addr s time choose_destroy_auth e =
      serve-client env fd addr s time choose_destroy_auth (λ h. cc h) e
  handle_request-client env fd addr s time choose_create_channel e =
      serve-client env fd addr s time choose_create_channel (λ h. cc h) e
  handle_request-client env fd addr s time choose_create_message e =
      serve-client env fd addr s time choose_create_message (λ h. cc h) e
  handle_request-client env fd addr s time choose_destroy_user e =
      serve-client env fd addr s time choose_destroy_user (λ h. cc h) e
  handle_request-client env fd addr s time choose_read_channel e =
      serve-client env fd addr s time choose_read_channel (λ h. cc h) e
  handle_request-client env fd addr s time choose_update_channel e =
      serve-client env fd addr s time choose_update_channel (λ h. cc h) e
  handle_request-client env fd addr s time choose_read_message e =
      serve-client env fd addr s time choose_read_message (λ h. cc h) e
