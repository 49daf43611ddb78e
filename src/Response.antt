-- ===== src/Response.antt =====
-- src/server.c: the functions `send_*_response`, which turn a status and a text into the body of a
-- response and write it behind its header.
pub mod Frame
use datacomm_chat_server.Database.{failure}
use datacomm_chat_server.Header.{ChatHeader, word_bytes, create_response_header}
use datacomm_chat_server.Records.{
  Env, Server, closed, wrote, Writes, all_written, only_header, none_written,
}
use datacomm_chat_server.Ndbm.{Ndbm}
use datacomm_chat_server.CString.{show_int, Str, codes, etx}
use datacomm_chat_server.Prelude.{
  String, Bool, ℤ, ℕ, Option, Flow, ◌++◌, next, is_code, length, none, some, ◌∷◌, fault, exits, ◌%◌,
  if◌then◌else◌, true, [], false, ◌^◌, ltb, take,
}

-- A status, ETX and a text.
abbrev coded : String → String → Str → Str
coded status message token = codes status ++ etx ∷ (codes message ++ token)

-- A body for a status, or the branch for the statuses that are left over.
abbrev or_else : Bool → Str → Flow Str → Flow Str
or_else true body rest = next body
or_else false body rest = rest

-- `sprintf(body, "409\3%d\3", result)` and the message.
abbrev conflict : ℤ → String → Str
conflict result message = codes "409" ++ etx ∷ (show_int result ++ etx ∷ codes message)

unfoldable pub create_user_body : ℤ → Str → Flow Str
unfolding show_int
create_user_body result token = or_else (is_code result 0) (coded "201" "" token) (
    or_else (is_code result 1) (conflict result "Login Token was not unique") (
      or_else (is_code result 2) (conflict result "Display Name was not unique") (
        or_else (is_code result 3)
          (conflict result "Login Token and Display name both were not unique") fault)))

unfoldable pub destroy_user_body : ℤ → Str → Flow Str
destroy_user_body result token = or_else (is_code result 0) (coded "204" "" token) (
    or_else (is_code result 1) (coded "400" "Invalid request fields" token) (
      or_else (is_code result 2) (coded "404" "User does not exist" token)
        (or_else (is_code result 3) (coded "403" "Invalid credentials" token) fault)))

unfoldable pub login_user_body : ℤ → Str → Flow Str
login_user_body result token = or_else (is_code result 0) (coded "200" "" token) (
    or_else (is_code result 1) (coded "403" "Login Token and password does not match" token)
      (or_else (is_code result 2) (coded "400" "Invalid Login Token or password" token) fault))

unfoldable pub logout_user_body : ℤ → Str → Flow Str
logout_user_body result token = or_else (is_code result 0) (coded "200" "" token) (
    or_else (is_code result 1) (coded "400" "Invalid fields provided" token) (
      or_else (is_code result 2)
        (coded "403" "Connection ip address does not match address in database" token)
        (or_else (is_code result 3) (coded "404" "User does not exist" token) (
          or_else (is_code result 4) (coded "412" "User is not currently online" token) (
            or_else (is_code result 9)
              (coded "333" "Account has been accessed on another device" token)
              (or_else (is_code result 500) (coded "500" "Internal server error" (etx ∷ []))
                fault))))))

-- `sprintf(body, "%d\3", result)`, the message and ETX. What is left over returns -1 and writes
-- nothing.
abbrev numbered : ℤ → String → Str
numbered result message = show_int result ++ etx ∷ (codes message ++ etx ∷ [])

unfoldable pub create_channel_body : ℤ → Str → Flow Str
unfolding show_int
create_channel_body result token = or_else (is_code result 0) (coded "201" "" token) (
    or_else (is_code result 400) (numbered result "Invalid request") (
      or_else (is_code result 404) (numbered result "Display name NOT found") (
        or_else (is_code result 409) (numbered result "Channel name is not unique") (
          or_else (is_code result 403) (numbered result "Display name does not match") (
            or_else (is_code result 500) (numbered result "Internal server error")
              (exits failure))))))

unfoldable pub create_message_body : ℤ → Str → Flow Str
create_message_body result token = or_else (is_code result 0) (coded "201" "" token) (
    or_else (is_code result 1) (coded "400" "Invalid request" token) (
      or_else (is_code result 2) (coded "404" "Channel does not exist" token) (
        or_else (is_code result 3) (coded "404" "Referenced display name does not exist" token) (
          or_else (is_code result 4) (coded "403" "Referenced display name does not exist" token)
            (or_else (is_code result 5) (coded "200" "" token) fault)))))

unfoldable pub read_channel_body : ℤ → Str → Flow Str
unfolding show_int
read_channel_body result token = or_else (is_code result 0) (coded "200" "" token) (
    or_else (is_code result 400) (numbered result "Invalid request") (
      or_else (is_code result 404) (numbered result "Channel name NOT found")
        (or_else (is_code result 500) (numbered result "Internal server error") (exits failure))))

unfoldable pub update_channel_body : ℤ → Str → Flow Str
unfolding show_int
update_channel_body result token = or_else (is_code result 0) (coded "200" "" token) (
    or_else (is_code result 400) (numbered result "Invalid request") (
      or_else (is_code result 404) (numbered result "Channel name or user's display name NOT found")
        (or_else (is_code result 500) (numbered result "Internal server error") (exits failure))))

unfoldable pub read_message_body : ℤ → Str → Flow Str
unfolding show_int
read_message_body result token =
    or_else (is_code result 0) (coded "200" "" token)
      (or_else (is_code result 206) (numbered result "Invalid request") (exits failure))

module _ ⦃N : Ndbm⦄ where
  -- The two writes: behind a header that cannot be written there is no body. The fields of the
  -- header are those of the request but for the size. The status says whether both were made.
  unfoldable pub write_response : Env → ℕ → ChatHeader → Str → Server → Bool × Server
  write_response env fd header body s =
      let sized = record header { body_size = length body % 2 ^ 16 } in
      let head = wrote fd (word_bytes (create_response_header sized)) in
      let text = wrote fd (take (length body % 2 ^ 16) body) in
      elim (env.writable fd) [
        | all_written ↦ (true, record s { events = text ∷ head ∷ s.events })
        | only_header ↦ (false, record s { events = head ∷ s.events })
        | none_written ↦ (false, s)
      ]

  -- A response: the body is built in an array of `size` bytes, which a longer one overruns.
  -- A status without a body ends the function with -1.
  unfoldable pub send_response :
      ℕ → Flow Str → Env → ℕ → ChatHeader → Server → Option (Bool × Server)
  unfolding write_response
  send_response size fault env fd header s = none
  send_response size (exits code) env fd header s = some (false, s)
  send_response size (next body) env fd header s =
      if ltb (length body) size then some (write_response env fd header body s) else none

  abbrev pub status_ignored : Option (Bool × Server) → Option Server
  status_ignored none = none
  status_ignored (some (sent, s)) = some s

  -- `send_logout_user_response` closes the socket behind a response that was written.
  abbrev pub close_if_sent : ℕ → Option (Bool × Server) → Option Server
  close_if_sent fd none = none
  close_if_sent fd (some (sent, s)) =
      some (if sent then record s { events = closed fd ∷ s.events } else s)

  unfoldable pub send_create_user_response : Env → ℕ → ChatHeader → ℤ → Str → Server → Option Server
  unfolding send_response create_user_body
  send_create_user_response env fd header result token s =
      status_ignored (send_response 1024 (create_user_body result token) env fd header s)

  unfoldable pub send_destroy_user_response :
      Env → ℕ → ChatHeader → ℤ → Str → Server → Option Server
  unfolding send_response destroy_user_body
  send_destroy_user_response env fd header result token s =
      status_ignored (send_response 1024 (destroy_user_body result token) env fd header s)

  unfoldable pub send_login_user_response : Env → ℕ → ChatHeader → ℤ → Str → Server → Option Server
  unfolding send_response login_user_body
  send_login_user_response env fd header result token s =
      status_ignored (send_response 1024 (login_user_body result token) env fd header s)

  unfoldable pub send_create_channel_response :
      Env → ℕ → ChatHeader → ℤ → Str → Server → Option Server
  unfolding send_response create_channel_body
  send_create_channel_response env fd header result token s =
      status_ignored (send_response 1024 (create_channel_body result token) env fd header s)

  unfoldable pub send_create_message_response :
      Env → ℕ → ChatHeader → ℤ → Str → Server → Option Server
  unfolding send_response create_message_body
  send_create_message_response env fd header result token s =
      status_ignored (send_response 1024 (create_message_body result token) env fd header s)

  unfoldable pub send_read_channel_response :
      Env → ℕ → ChatHeader → ℤ → Str → Server → Option Server
  unfolding send_response read_channel_body
  send_read_channel_response env fd header result token s =
      status_ignored (send_response 8192 (read_channel_body result token) env fd header s)

  unfoldable pub send_update_channel_response :
      Env → ℕ → ChatHeader → ℤ → Str → Server → Option Server
  unfolding send_response update_channel_body
  send_update_channel_response env fd header result token s =
      status_ignored (send_response 8192 (update_channel_body result token) env fd header s)

  unfoldable pub send_read_message_response :
      Env → ℕ → ChatHeader → ℤ → Str → Server → Option Server
  unfolding send_response read_message_body
  send_read_message_response env fd header result token s =
      status_ignored (send_response 8392 (read_message_body result token) env fd header s)

  unfoldable pub send_logout_user_response : Env → ℕ → ChatHeader → ℤ → Str → Server → Option Server
  unfolding send_response logout_user_body
  send_logout_user_response env fd header result token s =
      close_if_sent fd (send_response 1024 (logout_user_body result token) env fd header s)
