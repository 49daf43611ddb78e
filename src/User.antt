-- ===== src/User.antt =====
-- src/server.c: the requests on the object USER.
pub mod Create
pub mod Destroy
use datacomm_chat_server.Prelude.{
  ℕ, Bool, true, false, ◌&&◌, ◌||◌, not, Option, none, some, ◌==◌, if◌then◌else◌, ℤ, pos, Flow,
  fault, exits, next,
}
use datacomm_chat_server.Prelude.Ends.{◌>>=◌, ◌>>◌}
use datacomm_chat_server.Prelude.Partial.{is_some}
use datacomm_chat_server.CString.{Str, streq, is_empty}
use datacomm_chat_server.Ndbm.{Ndbm}
use datacomm_chat_server.Records.{
  UserLogin, UserAccount, ConnectedUser, Server, Env, token_name_length, pswd_max_length,
}
use datacomm_chat_server.Database.{
  failure, success, get_login_info, get_user_account, check_duplicate_display_name,
  insert_display_name, insert_user_login, insert_user_account, remove_display_name,
  remove_user_account, remove_user_login,
}
use datacomm_chat_server.Cache.{get_connected_user_by_fd}
use datacomm_chat_server.Accounts.{generate_user_login, generate_user_account}
use datacomm_chat_server.Request.{
  read_body, token_or_fault, copy_token, strncpy, reject, require, deref, Reply, finish,
}

module _ ⦃N : Ndbm⦄ where
  -- The three inserts of a new user. Their results are not looked at.
  unfoldable pub store_user : Server → Str → Str → Str → Str → Server
  unfolding insert_display_name insert_user_login insert_user_account
  store_user s uuid login_token display_name password =
      let named = (insert_display_name s display_name uuid).1 in
      let logged = (insert_user_login named (generate_user_login login_token password uuid)).1 in
      (insert_user_account logged (generate_user_account uuid display_name)).1

  -- From the body on. The password is read only after the two tests for duplicates.
  unfoldable pub create_user : Env → Server → Str → Flow Reply
  unfolding token_or_fault get_login_info check_duplicate_display_name store_user
  create_user env s body = do
    (token1, rest1) ← token_or_fault body
    login_token ← copy_token token_name_length token1
    (token2, rest2) ← token_or_fault rest1
    display_name ← copy_token token_name_length token2
    let is_token_duplicate = is_some (get_login_info s login_token)
    let is_display_name_duplicates = check_duplicate_display_name s display_name
    reject (is_token_duplicate && is_display_name_duplicates) 3
    reject is_token_duplicate 1
    reject is_display_name_duplicates 2
    (token3, rest3) ← token_or_fault rest2
    password ← copy_token pswd_max_length token3
    next (record {
      result = success;
      token = strncpy token_name_length login_token;
      server = store_user s env.uuid login_token display_name password;
    })

  unfoldable pub read_and_create_user : Env → Server → Str → ℕ → Option Reply
  unfolding read_body create_user
  read_and_create_user env s input body_size =
      finish s (do body ← read_body failure input body_size; create_user env s body)

  -- The three deletes; their results are not looked at.
  unfoldable pub drop_user : Server → Str → UserLogin → Server
  unfolding remove_display_name remove_user_account remove_user_login
  drop_user s display_name login =
      let unnamed = (remove_display_name s display_name).1 in
      let closed = (remove_user_account unnamed login.uuid).1 in
      (remove_user_login closed login.login_token).1

  -- The test behind `error_invalid_credentials`: each part is read only where those before it hold.
  unfoldable pub wrong_credentials :
      Str → Str → ConnectedUser → Option UserLogin → Option UserAccount → Flow Bool
  wrong_credentials display_name password sender login account =
      if streq sender.dsply_name display_name then next false else do
        own ← deref login
        if streq own.password password
            then next false
            else do sender_account ← deref account; next (sender_account.privilege_level == 0)

  -- The test for a login token that no user has: an administrator is told so.
  unfoldable pub reject_unknown : Option UserLogin → Option UserAccount → Flow (Unit {0})
  reject_unknown (some login) account = next tt
  reject_unknown none account = do
    sender_account ← deref account
    reject (sender_account.privilege_level == 1) 2

  unfoldable pub destroy_user : ℕ → Server → Str → Flow Reply
  unfolding token_or_fault get_login_info get_user_account get_connected_user_by_fd reject_unknown
      wrong_credentials drop_user
  destroy_user fd s body = do
    (token1, rest1) ← token_or_fault body
    display_name ← copy_token token_name_length token1
    (token2, rest2) ← token_or_fault rest1
    login_token ← copy_token token_name_length token2
    (token3, rest3) ← token_or_fault rest2
    password ← copy_token pswd_max_length token3
    reject (is_empty display_name || is_empty login_token || is_empty password) 1
    sender ← deref (get_connected_user_by_fd s.cache fd)
    let sender_login = get_login_info s sender.login_token
    let sender_account = get_user_account s sender.uuid
    let login_info = get_login_info s login_token
    reject_unknown login_info sender_account
    wrong ← wrong_credentials display_name password sender sender_login sender_account
    reject wrong 3
    login ← deref login_info
    next (record {
      result = success;
      token = strncpy token_name_length display_name;
      server = drop_user s display_name login;
    })

  unfoldable pub read_and_destroy_user : ℕ → Server → Str → ℕ → Option Reply
  unfolding read_body destroy_user
  read_and_destroy_user fd s input body_size =
      finish s (do body ← read_body failure input body_size; destroy_user fd s body)
