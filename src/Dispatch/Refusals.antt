-- ===== src/Dispatch/Refusals.antt =====
-- Requests that the server does not serve: those that it refuses, and those that end its process.
use datacomm_chat_server.Response.{
  send_create_user_response, send_destroy_user_response, send_create_message_response,
  send_login_user_response, send_logout_user_response,
}
use datacomm_chat_server.Auth.{read_and_login_user, read_and_logout_user}
use datacomm_chat_server.Message.{read_and_create_message}
use datacomm_chat_server.Database.{failure}
use datacomm_chat_server.Request.Fields.{read_body_short}
use datacomm_chat_server.Header.RoundTrip.{read_header-create_response_header}
use datacomm_chat_server.User.{read_and_create_user, read_and_destroy_user}
use datacomm_chat_server.Records.{Env, Server, default_buffer}
use datacomm_chat_server.Dispatch.{
  handle_request, current_version, serve, select, Request, create_user, destroy_user,
  create_message, login, logout, deliver,
}
use datacomm_chat_server.Prelude.{
  length, ◌≡◌, ◌<◌, none, ◌∷◌, ℕ, arith, [], refl, ◌++◌, ◌≢◌, some, pos, ap, ◌∙◌, Bool, true, false,
  ◌≤◌,
}
use datacomm_chat_server.Ndbm.{Ndbm}
use datacomm_chat_server.Header.{
  read_header, ChatHeader, IsHeader, word_bytes, create_response_header,
}
use datacomm_chat_server.CString.{Str}
use datacomm_chat_server.Prelude.Partial.{◌>>=◌}

-- Fewer than four bytes.
abbrev pub IsCut : Str → Type 0
IsCut input = length input < 4

read_header_cut : (input : Str) → IsCut input → read_header input ≡ none
unfolding read_header
read_header_cut [] h = refl
read_header_cut (a ∷ []) h = refl
read_header_cut (a ∷ b ∷ []) h = refl
read_header_cut (a ∷ b ∷ c ∷ []) h = refl
read_header_cut (a ∷ b ∷ c ∷ d ∷ rest) h = absurd (omega arith)

read_header-input :
    (env : Env) (h : ChatHeader) (body : Str)
    → IsHeader h
    → env.input ≡ word_bytes (create_response_header h) ++ body
    → read_header env.input ≡ some (h, body)
read_header-input env h body r e = ap read_header e ∙ read_header-create_response_header h body r

module _ ⦃N : Ndbm⦄ where
  -- A header of less than four bytes ends the server. A client that closes its side leaves none to
  -- read.
  pub handle_request_cut :
      (env : Env) (fd : ℕ) (addr : Str) (s : Server)
      → IsCut env.input
      → handle_request env fd addr s ≡ none
  unfolding handle_request
  handle_request_cut env fd addr s h = rw (read_header_cut env.input h)

  -- A request of another version, its header in range, is answered with the status 2 and changes
  -- nothing, whatever its other fields and its body are.
  pub handle_request_version :
      (env : Env) (fd : ℕ) (addr : Str) (s : Server) (h : ChatHeader) (body : Str)
      → IsHeader h
      → env.input ≡ word_bytes (create_response_header h) ++ body
      → h.version ≢ current_version
      → handle_request env fd addr s ≡ some (pos 2, s)
  unfolding handle_request
  handle_request_version env fd addr s h body r e other =
      rw (read_header-input env h body r e) (ground (arith, other))

  -- Behind a header in range and of the current version the handler of the selected request
  -- decides, on the bytes behind the header.
  pub handle_request-serve :
      (env : Env) (fd : ℕ) (addr : Str) (s : Server) (h : ChatHeader) (body : Str)
      → IsHeader h
      → env.input ≡ word_bytes (create_response_header h) ++ body
      → h.version ≡ current_version
      → handle_request env fd addr s
        ≡ (serve env fd addr h body s (select h) >>= λ after. some (pos 0, after))
  unfolding handle_request
  handle_request-serve env fd addr s h body r e same =
      rw (read_header-input env h body r e) (ground (arith, same))

  -- The requests of which the response function asserts on the status that a failed `read` gives.
  abbrev pub asserts_on_failure : Request → Bool
  asserts_on_failure create_user = true
  asserts_on_failure destroy_user = true
  asserts_on_failure create_message = true
  asserts_on_failure login = true
  asserts_on_failure logout = true
  asserts_on_failure other = false

  -- For the requests to create and destroy a user, to create a message, to log in and to log out: a
  -- body of which some bytes have arrived when the request is handled, but not all, ends the server.
  -- No more bytes have arrived than the buffer holds.
  pub serve_truncated :
      (env : Env) (fd : ℕ) (addr : Str) (h : ChatHeader) (input : Str) (s : Server) (q : Request)
      → asserts_on_failure q ≡ true
      → 0 < length input
      → length input < h.body_size
      → length input ≤ default_buffer
      → serve env fd addr h input s q ≡ none
  unfolding serve read_and_create_user read_and_destroy_user read_and_create_message
      read_and_login_user read_and_logout_user send_create_user_response send_destroy_user_response
      send_create_message_response send_login_user_response send_logout_user_response deliver
  serve_truncated env fd addr h input s create_user a some_bytes short room =
      rw (read_body_short failure input h.body_size short room)
  serve_truncated env fd addr h input s destroy_user a some_bytes short room =
      rw (read_body_short failure input h.body_size short room)
  serve_truncated env fd addr h input s create_message a some_bytes short room =
      rw (read_body_short failure input h.body_size short room, read_and_create_message)
  serve_truncated env fd addr h input s login a some_bytes short room =
      rw (read_body_short failure input h.body_size short room)
  serve_truncated env fd addr h input s logout a some_bytes short room =
      rw (read_body_short failure input h.body_size short room)
  serve_truncated env fd addr h input s _ a some_bytes short room = cc
