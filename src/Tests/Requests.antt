-- ===== src/Tests/Requests.antt =====
-- Whole requests, from the bytes at the socket on, at a concrete server.
use datacomm_chat_server.Request.Fields.{Fits-of}
use datacomm_chat_server.Auth.Login.{login_body, online_at, entry}
use datacomm_chat_server.Request.{Reply}
use datacomm_chat_server.Prelude.{
  ℕ, ℤ, ◌≡◌, refl, true, Option, some, none, [], ◌∷◌, ◌++◌, pos, arith, ◌<◌, ◌^◌, next,
}
use datacomm_chat_server.Prelude.Partial.{is_some}
use datacomm_chat_server.CString.{codes, streq, Str, etx}
use datacomm_chat_server.Records.{Server, wrote}
use datacomm_chat_server.Header.{
  ChatHeader, IsHeader, word_bytes, create_response_header, read_header,
}
use datacomm_chat_server.Ndbm.Assoc.{table_ndbm, table_reliable, lookup}
use datacomm_chat_server.Cache.{initial_users, no_user, find_connected_user_with_same_cred}
use datacomm_chat_server.Cache.View.{connected, initial_users-IsCache}
use datacomm_chat_server.User.Create.{create_body, new_login, new_account}
use datacomm_chat_server.Dispatch.{handle_request, serve, login}
use datacomm_chat_server.Dispatch.Refusals.{serve_truncated}
use datacomm_chat_server.User.{create_user}
use datacomm_chat_server.Auth.{login_user}
use datacomm_chat_server.Dispatch.Sessions.{
  create_then_login, create_user_header, handle_create_user,
}
use datacomm_chat_server.Database.{
  get_login_info, get_uuid_with_display_name, get_user_account, success,
}
use datacomm_chat_server.Tests.Data.{quiet, env_with}

abbrev header : ℕ → ℕ → ChatHeader
header version size = record { version = version; type = 1; object = 4; body_size = size }

header-IsHeader : (version size : ℕ) → version < 16 → size < 2 ^ 16 → IsHeader (header version size)
header-IsHeader version size v s = record {
  version_bits = omega arith;
  type_bits = omega arith;
  object_bits = omega arith;
  size_bits = omega arith;
}

abbrev login_text : Str
login_text = codes "al1" ++ 3 ∷ codes "password"

abbrev framed : ℕ → Str
framed version = word_bytes (create_response_header (header version 12)) ++ login_text

serve_truncated_example :
    serve (env_with []) 5 (codes "10.0.0.7") (header 1 12) (codes "al1") quiet login ≡ none
serve_truncated_example =
    serve_truncated (env_with []) 5 (codes "10.0.0.7") (header 1 12) (codes "al1") quiet login refl
      (omega arith) (omega arith) (omega arith)

-- A request to create a second user.
abbrev second_text : Str
second_text = create_body (codes "bo1") (codes "bob") (codes "xyz")

abbrev second_header : ChatHeader
second_header = record { version = 1; type = 1; object = 1; body_size = 11 }

abbrev second : Str
second = word_bytes (create_response_header second_header) ++ second_text

abbrev served : Option (ℤ × Server)
served = handle_request (env_with second) 5 (codes "10.0.0.7") quiet

abbrev server_of : Option (ℤ × Server) → Server
server_of none = quiet
server_of (some (code, s)) = s

abbrev code_of : Option (ℤ × Server) → ℤ
code_of none = pos 0
code_of (some (code, s)) = code

served_some : (o : Option (ℤ × Server)) → is_some o ≡ true → o ≡ some (code_of o, server_of o)
served_some none h = cc
served_some (some a) h = refl

handle_create_user_example :
    (after : Server) × (head : Str) × (handle_request (env_with second) 5 (codes "10.0.0.7") quiet
      ≡ some (pos 0, after))
    × (after.events ≡ wrote 5 (codes "201" ++ etx ∷ codes "bo1") ∷ wrote 5 head ∷ [])
    × (read_header head ≡ some (create_user_header 7, []))
    × (get_login_info after (codes "bo1")
        ≡ some (new_login (codes "id-new") (codes "bo1") (codes "xyz")))
    × (get_uuid_with_display_name after (codes "bob") ≡ some (codes "id-new"))
    × (get_user_account after (codes "id-new") ≡ some (new_account (codes "id-new") (codes "bob")))
unfolding streq get_login_info get_uuid_with_display_name lookup
handle_create_user_example =
    handle_create_user (env_with second) 5 (codes "10.0.0.7") quiet (codes "bo1") (codes "bob")
      (codes "xyz") refl refl (omega arith) (Fits-of 21 (codes "bo1") refl)
      (Fits-of 21 (codes "bob") refl) (Fits-of 31 (codes "xyz") refl) refl refl

create_then_login_example :
    (after : Server) × (r : Reply) × (create_user (env_with []) quiet second_text
      ≡ next (record { result = success; token = codes "bo1"; server = after }))
    × (login_user (env_with []) 6 (codes "10.0.0.8") after (login_body (codes "bo1") (codes "xyz"))
        ≡ next r)
    × (r.result ≡ success)
    × (get_user_account r.server (codes "id-new")
        ≡ some (online_at (new_account (codes "id-new") (codes "bob")) (codes "10.0.0.8")))
    × (connected r.server.cache
        ≡ connected initial_users
          ++ entry 6 200
              (codes "10.0.0.8")
              (new_account (codes "id-new") (codes "bob"))
              (new_login (codes "id-new") (codes "bo1") (codes "xyz"))
            ∷ [])
unfolding streq get_login_info get_uuid_with_display_name lookup connected initial_users no_user
    find_connected_user_with_same_cred
create_then_login_example =
    create_then_login (env_with []) (env_with []) 6 (codes "10.0.0.8") quiet (codes "bo1")
      (codes "bob") (codes "xyz") (omega arith) (Fits-of 21 (codes "bo1") refl)
      (Fits-of 21 (codes "bob") refl) (Fits-of 31 (codes "xyz") refl) (omega arith) refl refl
      initial_users-IsCache (omega arith) refl
