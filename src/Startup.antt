-- ===== src/Startup.antt =====
-- src/my_ndbm.c: `create_admin` and `create_global_channel`, which `run_server` of
-- src/main-chat-server.c calls before the first request.
pub mod Admin
use datacomm_chat_server.Prelude.{
  Option, some, none, if◌then◌else◌, ◌&&◌, replicate, false, ◌∷◌, is_code,
}
use datacomm_chat_server.Prelude.Partial.{◌>>=◌}
use datacomm_chat_server.CString.{Str, codes}
use datacomm_chat_server.Ndbm.{Ndbm}
use datacomm_chat_server.Records.{Server, Env, UserLogin}
use datacomm_chat_server.Accounts.{admin_name, generate_user_account}
use datacomm_chat_server.Channel.{create_channel}
use datacomm_chat_server.Database.{
  check_duplicate_display_name, check_duplicate_channel_name, insert_display_name,
  insert_user_login, insert_user_account, insert_channel_info,
}

abbrev pub admin_uuid : Str
admin_uuid = codes "00000000-0000-0000-0000-000000000000"

abbrev pub admin_login : UserLogin
admin_login = record { login_token = admin_name; password = admin_name; uuid = admin_uuid }

module _ ⦃N : Ndbm⦄ where
  -- Where the display name is not taken the three records are inserted. `none` is the assertion that
  -- all three were.
  unfoldable pub create_admin : Server → Option Server
  unfolding insert_display_name insert_user_login insert_user_account check_duplicate_display_name
  create_admin s =
      let (named, s1) = insert_display_name s admin_name admin_uuid in
      let (logged, s2) = insert_user_login s1 admin_login in
      let (stored, s3) = insert_user_account s2 (generate_user_account admin_uuid admin_name) in
      if check_duplicate_display_name s admin_name
      then some s
      else if is_code stored 0 && (is_code logged 0 && is_code named 0)
      then some s3
      else none

  -- Where the name is not taken the channel is inserted; the result is not looked at.
  unfoldable pub create_global_channel : Env → Server → Server
  unfolding insert_channel_info check_duplicate_channel_name
  create_global_channel env s =
      if check_duplicate_channel_name s (codes "global")
      then s
      else (insert_channel_info s (create_channel env.uuid (codes "global") admin_name false)).1

  -- The calls of `run_server` before its loop.
  unfoldable pub prepare : Env → Server → Option Server
  unfolding create_admin create_global_channel
  prepare env s = do prepared ← create_admin s; some (create_global_channel env prepared)
