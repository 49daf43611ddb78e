-- ===== src/Client/Dialog.antt =====
-- A whole dialog: a request of mock_client/main.c, the server, and the client again.
use datacomm_chat_server.Client.{
  choose_create_user, request_bytes, request_body, copied, struct_word, swap_short, read_response,
  read_blindly, print_body,
}
use datacomm_chat_server.Prelude.{
  ℕ, ◌≡◌, ◌<◌, ◌+◌, [], ◌∷◌, ◌++◌, some, none, pos, refl, length, drop, ap, ◌∙◌,
}
use datacomm_chat_server.CString.{Str, codes, etx}
use datacomm_chat_server.Header.{
  ChatHeader, word_bytes, read_header, create_response_header, host_header, swap_word,
}
use datacomm_chat_server.Records.{Env, Server, wrote, all_written}
use datacomm_chat_server.Ndbm.{Ndbm, Reliable}
use datacomm_chat_server.Database.{get_login_info, get_uuid_with_display_name, get_user_account}
use datacomm_chat_server.Request.Fields.{Fits-of}
use datacomm_chat_server.User.Create.{create_body, new_login, new_account}
use datacomm_chat_server.Dispatch.{handle_request}
use datacomm_chat_server.Dispatch.Sessions.{create_user_header, handle_create_user}

abbrev bennychao : Str
bennychao = codes "bennychao"

abbrev benny : Str
benny = codes "benny"

abbrev monkey123 : Str
monkey123 = codes "monkey123"

-- The header behind which nothing waits has four bytes.
drop-read_header :
    (head body : Str) (h : ChatHeader)
    → read_header head ≡ some (h, [])
    → drop 4 (head ++ body) ≡ body
unfolding read_header
drop-read_header [] body h e = absurd (cc)
drop-read_header (a ∷ []) body h e = absurd (cc)
drop-read_header (a ∷ b ∷ []) body h e = absurd (cc)
drop-read_header (a ∷ b ∷ c ∷ []) body h e = absurd (cc)
drop-read_header (a ∷ b ∷ c ∷ d ∷ []) body h e = refl
drop-read_header (a ∷ b ∷ c ∷ d ∷ x ∷ rest) body h e = absurd (cc)

request_bytes-create_user :
    (time : ℕ)
    → request_bytes time choose_create_user
      ≡ word_bytes (
          create_response_header
            (create_user_header (length (create_body bennychao benny monkey123))))
        ++ create_body bennychao benny monkey123
unfolding request_bytes request_body copied struct_word swap_short word_bytes create_response_header
    host_header swap_word
request_bytes-create_user time = refl

read_response-created :
    (head : Str) (h : ChatHeader)
    → read_header head ≡ some (h, [])
    → read_response choose_create_user (head ++ (codes "201" ++ etx ∷ bennychao))
      ≡ some (codes "201" ++ etx ∷ bennychao)
unfolding read_response read_blindly print_body
read_response-created head h e =
    ap (print_body 1024) (drop-read_header head (codes "201" ++ etx ∷ bennychao) h e) ∙ refl

module _ ⦃N : Ndbm⦄ ⦃R : Reliable⦄ where
  -- On a disk that works, a socket that can be written, and with an identifier of less than 37 bytes:
  -- where the login token bennychao and the display name benny are free, the bytes that the client
  -- sends for its choice CREATE_USER make the server store that user in its three databases, and what
  -- the server writes makes the client print the status 201 and the login token.
  pub dialog-create_user :
      (env : Env) (fd : ℕ) (addr : Str) (s : Server) (time : ℕ)
      → env.input ≡ request_bytes time choose_create_user
      → env.writable fd ≡ all_written
      → length env.uuid < 37
      → get_login_info s bennychao ≡ none
      → get_uuid_with_display_name s benny ≡ none
      → (after : Server) × (head : Str) × (body : Str) × (handle_request env fd addr s
          ≡ some (pos 0, after))
        × (after.events ≡ wrote fd body ∷ wrote fd head ∷ s.events)
        × (read_response choose_create_user (head ++ body) ≡ some (codes "201" ++ etx ∷ bennychao))
        × (get_login_info after bennychao ≡ some (new_login env.uuid bennychao monkey123))
        × (get_uuid_with_display_name after benny ≡ some env.uuid)
        × (get_user_account after env.uuid ≡ some (new_account env.uuid benny))
  dialog-create_user env fd addr s time input w hu free_t free_d =
      let (after, head, served, sent, read, login, name, account) =
        handle_create_user env fd addr s bennychao benny monkey123
          (input ∙ request_bytes-create_user time) w hu (Fits-of 21 bennychao refl)
          (Fits-of 21 benny refl) (Fits-of 31 monkey123 refl) free_t free_d in
      (
        after,
        head,
        codes "201" ++ etx ∷ bennychao,
        served,
        sent,
        read_response-created head (create_user_header (length bennychao + 4)) read,
        login,
        name,
        account,
      )
