-- ===== src/Tests/Clients.antt =====
-- The mock client at concrete requests and responses.
use datacomm_chat_server.Prelude.{
  ℕ, ◌≡◌, ◌≤◌, ◌<◌, refl, some, [], ◌∷◌, ◌++◌, pos, ℤ, arith, length, subst,
}
use datacomm_chat_server.Prelude.Partial.{◌>>=◌}
use datacomm_chat_server.CString.{Str, codes, etx, streq}
use datacomm_chat_server.Header.{ChatHeader, IsHeader, word_bytes, create_response_header}
use datacomm_chat_server.Records.{Server, wrote}
use datacomm_chat_server.Ndbm.Assoc.{table_ndbm, table_reliable, lookup}
use datacomm_chat_server.Database.{get_login_info, get_uuid_with_display_name, get_user_account}
use datacomm_chat_server.User.Create.{new_login, new_account}
use datacomm_chat_server.Dispatch.{handle_request, serve}
use datacomm_chat_server.Client.{
  request_bytes, request_body, read_response, choose_create_user, choose_create_auth,
  choose_read_channel,
}
use datacomm_chat_server.Client.Served.{protocol_header, intended, handle_request-client}
use datacomm_chat_server.Client.Session.{read_response-body}
use datacomm_chat_server.Client.Dialog.{dialog-create_user}
use datacomm_chat_server.Client.Copy.{Transfer, IsTransfer, copy, copy_ends}
use datacomm_chat_server.Tests.Data.{quiet, env_with}

handle_request-client_example :
    handle_request (env_with (request_bytes 0 choose_create_auth)) 5 (codes "10.0.0.7") quiet ≡ (
      serve
        (env_with (request_bytes 0 choose_create_auth))
        5
        (codes "10.0.0.7")
        (protocol_header (intended choose_create_auth) (request_body 0 choose_create_auth))
        (request_body 0 choose_create_auth)
        quiet
        (intended choose_create_auth)
      >>= λ after. some (pos 0, after))
handle_request-client_example =
    handle_request-client (env_with (request_bytes 0 choose_create_auth)) 5 (codes "10.0.0.7") quiet
      0 choose_create_auth refl

abbrev found : ChatHeader
found = record { version = 1; type = 2; object = 2; body_size = 3 }

found-IsHeader : IsHeader found
found-IsHeader = record {
  version_bits = omega arith;
  type_bits = omega arith;
  object_bits = omega arith;
  size_bits = omega arith;
}

read_response-body_example :
    read_response choose_read_channel (word_bytes (create_response_header found) ++ codes "200")
    ≡ some (codes "200")
read_response-body_example =
    read_response-body choose_read_channel found (codes "200") found-IsHeader refl
      (omega arith, (omega arith, (omega arith, tt)))

dialog-create_user_example :
    (after : Server) × (head : Str) × (body : Str) × (handle_request
        (env_with (request_bytes 0 choose_create_user))
        5
        (codes "10.0.0.7")
        quiet
      ≡ some (pos 0, after))
    × (after.events ≡ wrote 5 body ∷ wrote 5 head ∷ [])
    × (read_response choose_create_user (head ++ body)
        ≡ some (codes "201" ++ etx ∷ codes "bennychao"))
    × (get_login_info after (codes "bennychao")
        ≡ some (new_login (codes "id-new") (codes "bennychao") (codes "monkey123")))
    × (get_uuid_with_display_name after (codes "benny") ≡ some (codes "id-new"))
    × (get_user_account after (codes "id-new")
        ≡ some (new_account (codes "id-new") (codes "benny")))
unfolding streq get_login_info get_uuid_with_display_name lookup
dialog-create_user_example =
    dialog-create_user (env_with (request_bytes 0 choose_create_user)) 5 (codes "10.0.0.7") quiet 0
      refl refl (omega arith) refl refl

-- Each round delivers two bytes, of which one is taken.
abbrev slow : ℕ → Transfer
slow i = record { read = some (codes "ab"); written = some 1 }

slow-IsTransfer : (i : ℕ) → IsTransfer 3 (slow i)
slow-IsTransfer i = record {
  read_at_most = λ buffer e.
      let same : codes "ab" ≡ buffer = cc e in subst (λ b. length b ≤ 3) same (omega arith);
  written_some = λ buffer n e w some_bytes.
      let same : codes "ab" ≡ buffer = cc e in
      let one : 1 ≡ n = cc w in
      subst (λ b. (0 < n) × (n ≤ length b)) same (omega arith, omega arith);
}

copy_ends_example : (code : ℤ) × (out : Str) × (copy slow 3 ≡ some (code, out)) × (length out ≤ 6)
copy_ends_example = copy_ends slow 3 slow-IsTransfer (omega arith)
