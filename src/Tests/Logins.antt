-- ===== src/Tests/Logins.antt =====
-- A login and a logout from the bytes at the socket on, at a concrete server with one channel.
use datacomm_chat_server.Request.Fields.{Fits-of}
use datacomm_chat_server.Auth.{login_response, or_empty}
use datacomm_chat_server.Auth.Login.{login_body, online_at, entry}
use datacomm_chat_server.Prelude.{◌≡◌, refl, some, [], ◌∷◌, ◌++◌, pos, arith, length}
use datacomm_chat_server.CString.{codes, etx, streq, Str, decimal}
use datacomm_chat_server.Records.{Server, Env, wrote, closed}
use datacomm_chat_server.Header.{word_bytes, create_response_header, read_header}
use datacomm_chat_server.Ndbm.Assoc.{table_ndbm, table_reliable, lookup, keys}
use datacomm_chat_server.Cache.{initial_users, no_user, find_connected_user_with_same_cred}
use datacomm_chat_server.Cache.View.{connected, initial_users-IsCache}
use datacomm_chat_server.Util.Spaces.{squeeze}
use datacomm_chat_server.Dispatch.{handle_request}
use datacomm_chat_server.Dispatch.Logins.{login_header, accepted_login}
use datacomm_chat_server.Database.{
  get_login_info, get_user_account, get_all_channels, all_records, get_uuid_with_display_name,
}
use datacomm_chat_server.Dispatch.Logouts.{handle_logout_user, logout_header}
use datacomm_chat_server.Dispatch.Visits.{login_then_logout}
use datacomm_chat_server.Auth.Logout.{offline}
use datacomm_chat_server.Cache.View.{remove_first}
use datacomm_chat_server.Tests.Data.{
  alice, busy, one_user, one_user-IsCache, quiet, env_with, alice_account, alice_login,
}

-- The password of the database with other white space.
abbrev sent : Env
sent = env_with (
    word_bytes
      (create_response_header (login_header (length (login_body (codes "al1") (codes "password")))))
    ++ login_body (codes "al1") (codes "password"))

abbrev shown : Str
shown = accepted_login (
    login_response (online_at alice_account (codes "10.0.0.7")) (or_empty (get_all_channels quiet)))

-- The user is connected and online, and asks to log out.
abbrev online_server : Server
online_server = record busy {
  accounts = some ((codes "id-alice", online_at alice_account (codes "10.0.0.7")) ∷ []);
}

abbrev leaving : Env
leaving = env_with (word_bytes (create_response_header (logout_header 5)) ++ alice)

handle_logout_user_example :
    (after : Server) × (head : Str) × (handle_request leaving 5 (codes "10.0.0.7") online_server
      ≡ some (pos 0, after))
    × (after.events ≡ closed 5 ∷ wrote 5 (codes "200" ++ etx ∷ alice) ∷ wrote 5 head ∷ [])
    × (read_header head ≡ some (logout_header 9, []))
    × (get_user_account after (codes "id-alice")
        ≡ some (offline (online_at alice_account (codes "10.0.0.7"))))
    × (connected after.cache ≡ remove_first alice (connected one_user))
unfolding streq get_uuid_with_display_name get_user_account lookup
handle_logout_user_example =
    handle_logout_user leaving 5 (codes "10.0.0.7") online_server alice (codes "id-alice")
      (online_at alice_account (codes "10.0.0.7")) refl refl (Fits-of 21 alice refl) refl refl refl
      refl (omega arith) refl refl one_user-IsCache

login_then_logout_example :
    (during : Server) × (after : Server) × (head : Str) × (handle_request sent 5
        (codes "10.0.0.7")
        quiet
      ≡ some (pos 0, during))
    × (handle_request leaving 5 (codes "10.0.0.7") during ≡ some (pos 0, after))
    × (after.events
        ≡ closed 5 ∷ wrote 5 (codes "200" ++ etx ∷ alice) ∷ wrote 5 head ∷ during.events)
    × (connected during.cache
        ≡ connected initial_users ++ entry 5 200 (codes "10.0.0.7") alice_account alice_login ∷ [])
    × (connected after.cache ≡ connected initial_users)
    × (get_user_account after (codes "id-alice")
        ≡ some (offline (online_at alice_account (codes "10.0.0.7"))))
unfolding streq get_login_info get_user_account lookup find_connected_user_with_same_cred connected
    initial_users no_user get_all_channels all_records keys login_response decimal squeeze
    get_uuid_with_display_name
login_then_logout_example =
    login_then_logout sent leaving 5 (codes "10.0.0.7") quiet (codes "al1") (codes "password")
      alice_login alice_account refl refl refl refl (Fits-of 21 (codes "al1") refl)
      (Fits-of 31 (codes "password") refl) (Fits-of 21 alice refl) (omega arith) refl refl refl refl
      refl refl refl (omega arith) tt initial_users-IsCache (omega arith) refl (omega arith)
