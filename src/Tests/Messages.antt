-- ===== src/Tests/Messages.antt =====
-- The requests on messages at a concrete server.
use datacomm_chat_server.Records.{Env, Server}
use datacomm_chat_server.Dispatch.Messages.{
  create_message_header, acknowledged, handle_create_message,
}
use datacomm_chat_server.CString.Tokens.{IsField-of}
use datacomm_chat_server.Request.Fields.{Fits-of}
use datacomm_chat_server.Prelude.{◌≡◌, ◌<◌, refl, some, none, [], ◌∷◌, ◌++◌, pos, arith, length}
use datacomm_chat_server.CString.{codes, streq, Str, etx}
use datacomm_chat_server.Header.{ChatHeader, word_bytes, create_response_header}
use datacomm_chat_server.Request.{Reply}
use datacomm_chat_server.Ndbm.Assoc.{table_ndbm, table_reliable, lookup, keys}
use datacomm_chat_server.Database.{
  get_login_info, get_user_account, get_channel_info, find_channel, fetch_record,
}
use datacomm_chat_server.Cache.{
  get_connected_user_by_display_name, get_num_connected_users, no_user,
}
use datacomm_chat_server.Cache.View.{connected}
use datacomm_chat_server.Message.{build_message_list, message_list_size}
use datacomm_chat_server.Message.Create.{posted, message_body}
use datacomm_chat_server.Message.History.{
  build_message_list-fits, build_message_list_incomplete, full_history,
}
use datacomm_chat_server.Dispatch.{forward, deliver, handle_request}
use datacomm_chat_server.Dispatch.Delivery.{forward-delivered, delivered, deliver_unknown_channel}
use datacomm_chat_server.Tests.Data.{
  alice, alice_entry, alice_account, alice_login, lobby, greeting, one_user, one_user-IsCache, busy,
  env_with,
}

abbrev stamp : Str
stamp = codes "2023-04-10 12:30:00"

-- The request of the user who is connected, to the channel of which the user is the only member.
abbrev posted_text : Str
posted_text = message_body alice (codes "lobby") (codes "hello there") stamp

abbrev posted_header : ChatHeader
posted_header = create_message_header (length posted_text)

abbrev posting : Env
posting = record (env_with (word_bytes (create_response_header posted_header) ++ posted_text)) {
  residue = codes "junk";
}

handle_create_message_example :
    (after : Server) × (handle_request posting 5 (codes "10.0.0.7") busy ≡ some (pos 0, after))
    × (after.events
        ≡ delivered posted_header posted_text lobby
            (connected busy.cache)
            (acknowledged 5 posted_header (codes "lobby") []))
    × (fetch_record after.messages (codes "id-new")
        ≡ some (
            posted
              (codes "id-new")
              (codes "id-alice")
              (codes "id-lobby")
              (codes "junk")
              (codes "hello there")
              stamp))
unfolding get_channel_info find_channel streq lookup keys get_connected_user_by_display_name
    get_user_account get_login_info no_user
handle_create_message_example =
    handle_create_message posting 5 (codes "10.0.0.7") busy alice (codes "lobby")
      (codes "hello there") stamp lobby alice_entry alice_account alice_login refl (λ f. refl)
      (omega arith) (omega arith) (omega arith) one_user-IsCache (Fits-of 21 alice refl)
      (Fits-of 21 (codes "lobby") refl) (Fits-of 974 (codes "hello there") refl)
      (IsField-of stamp refl) (omega arith) refl refl refl refl refl refl

abbrev no_text : Str
no_text = []

-- The only message is left out of the list.
build_message_list-fits_example : length no_text < message_list_size lobby (greeting ∷ [])
unfolding build_message_list streq get_user_account lookup
build_message_list-fits_example =
    build_message_list-fits busy (greeting ∷ []) lobby [] (refl, tt) refl

abbrev greeting_text : Str
greeting_text = alice ++ etx ∷ (greeting.message_content ++ etx ∷ (greeting.time_stamp ++ etx ∷ []))

build_message_list_incomplete_example : length no_text < length greeting_text
unfolding build_message_list full_history streq get_user_account lookup
build_message_list_incomplete_example =
    build_message_list_incomplete busy (greeting ∷ []) lobby [] greeting_text (refl, tt) refl refl
      (λ e. absurd (cc (e)))

abbrev header : ChatHeader
header = record { version = 1; type = 1; object = 3; body_size = 40 }

forward-delivered_example :
    forward
      (env_with [])
      header
      (codes "hi")
      (some lobby)
      (get_num_connected_users one_user)
      one_user
      busy
    ≡ some (record busy { events = delivered header (codes "hi") lobby (connected one_user) [] })
forward-delivered_example =
    forward-delivered (env_with []) header (codes "hi") lobby one_user busy (λ fd. refl)
      (omega arith) one_user-IsCache

abbrev unknown : Reply
unknown = record { result = pos 2; token = codes "attic"; server = busy }

deliver_unknown_channel_example : deliver (env_with []) 5 header unknown (codes "hi") ≡ none
unfolding get_channel_info find_channel streq lookup keys connected no_user
deliver_unknown_channel_example =
    deliver_unknown_channel (env_with []) 5 header unknown (codes "hi") refl refl one_user-IsCache
      (omega arith)
