-- ===== src/Auth.antt =====
-- src/server.c: the requests on the object AUTH, login and logout.
pub mod Login
pub mod Logout
use datacomm_chat_server.Prelude.{
  ℕ, zero, suc, Bool, true, false, ◌&&◌, ◌||◌, not, Option, none, some, List, [], ◌∷◌, ◌++◌, take,
  length, ◌==◌, if◌then◌else◌, ℤ, pos, Flow, fault, exits, next, ◌+◌,
}
use datacomm_chat_server.Prelude.Ends.{◌>>=◌, ◌>>◌}
use datacomm_chat_server.CString.{Str, etx, streq, decimal}
use datacomm_chat_server.Util.{compare_strings}
use datacomm_chat_server.Ndbm.{Ndbm}
use datacomm_chat_server.Records.{
  UserLogin, UserAccount, ChannelInfo, ConnectedUser, Server, Env, token_name_length,
  pswd_max_length, dsply_name_length,
}
use datacomm_chat_server.Database.{
  failure, success, get_login_info, get_user_account, get_uuid_with_display_name, get_all_channels,
  insert_user_account,
}
use datacomm_chat_server.Cache.{
  get_num_connected_users, connection, insert_user_in_cache, remove_user_in_cache,
  find_connected_user_with_same_cred,
}
use datacomm_chat_server.Accounts.{login_user_account, logout_user_account}
use datacomm_chat_server.Request.{
  read_body, token_or_fault, copy_token, strncpy, reject, require, deref, Reply, finish, or_exit,
}

-- The names of the channels, each with ETX behind it.
unfoldable pub build_channel_name_list : List ChannelInfo → Str
build_channel_name_list [] = []
build_channel_name_list (c ∷ cs) = c.channel_name ++ etx ∷ build_channel_name_list cs

-- The bytes that are allocated for that list.
unfoldable pub channel_name_list_size : List ChannelInfo → ℕ
channel_name_list_size [] = 1
channel_name_list_size (c ∷ cs) = length c.channel_name + 1 + channel_name_list_size cs

-- A null list of channels counts as the empty one.
abbrev pub or_empty : Option (List ChannelInfo) → List ChannelInfo
or_empty none = []
or_empty (some cs) = cs

-- `snprintf` into a buffer of `DEFAULT_BUFFER` bytes keeps one less.
unfoldable pub login_response : UserAccount → List ChannelInfo → Str
unfolding build_channel_name_list decimal
login_response account channels = take 1023 (
    account.display_name
    ++ etx
      ∷ (decimal account.privilege_level
          ++ etx ∷ (decimal (length channels) ++ etx ∷ build_channel_name_list channels)))

-- The loop over the first n connected users: the user is connected from another address, and its
-- account is online. The account may be null, and is read in every round.
unfoldable pub connected_elsewhere : Option UserAccount → Str → ℕ → List ConnectedUser → Flow Bool
connected_elsewhere account clnt_addr zero us = next false
connected_elsewhere account clnt_addr (suc n) [] = next false
connected_elsewhere none clnt_addr (suc n) (u ∷ us) = fault
connected_elsewhere (some account) clnt_addr (suc n) (u ∷ us) =
    let rest = connected_elsewhere (some account) clnt_addr n us in
    if streq u.dsply_name account.display_name
      && not (streq u.ip_address clnt_addr)
      && account.online_status
    then next true
    else rest

module _ ⦃N : Ndbm⦄ where
  -- `insert_user_in_cache`, as the handlers call it.
  unfoldable pub connect : Env → ℕ → Server → UserAccount → UserLogin → Flow Server
  unfolding connection
  connect env fd s account login = do
    cache ← deref (insert_user_in_cache (connection fd env.time account login) s.cache)
    next (record s { cache = cache })

  -- From the test of the addresses on, where no other address was found.
  unfoldable pub accept_login : Env → ℕ → Str → Server → UserAccount → UserLogin → Flow Reply
  unfolding connect
  accept_login env fd clnt_addr s account login = do
    let online = login_user_account account clnt_addr
    let stored = (insert_user_account s online).1
    let body = login_response online (or_empty (get_all_channels stored))
    let known =
        find_connected_user_with_same_cred online stored.cache fd
        && not (get_num_connected_users stored.cache == 0)
    after ← if known then next stored else connect env fd stored online login
    next (record { result = success; token = body; server = after })

  -- Behind `terminate_and_restablish_connection`.
  unfoldable pub reestablish : Env → ℕ → Server → Str → Option UserAccount → UserLogin → Flow Reply
  unfolding connect
  reestablish env fd s login_token account login = do
    known ← deref account
    after ← connect env fd s known login
    next (record { result = pos 9; token = strncpy token_name_length login_token; server = after })

  unfoldable pub login_user : Env → ℕ → Str → Server → Str → Flow Reply
  unfolding token_or_fault get_login_info get_user_account compare_strings connected_elsewhere
      accept_login reestablish
  login_user env fd clnt_addr s body = do
    (token1, rest1) ← token_or_fault body
    login_token ← copy_token token_name_length token1
    (token2, rest2) ← token_or_fault rest1
    password ← copy_token pswd_max_length token2
    login ← or_exit (get_login_info s login_token) 2
    reject
        (not (compare_strings login.password password)
          || not (compare_strings login.login_token login_token))
        1
    let account = get_user_account s login.uuid
    elsewhere ← connected_elsewhere account clnt_addr (get_num_connected_users s.cache) s.cache
    if elsewhere
        then reestablish env fd s login_token account login
        else do known ← deref account; accept_login env fd clnt_addr s known login

  unfoldable pub read_and_login_user : Env → ℕ → Str → Server → Str → ℕ → Option Reply
  unfolding read_body login_user
  read_and_login_user env fd clnt_addr s input body_size =
      finish s (do body ← read_body failure input body_size; login_user env fd clnt_addr s body)

  -- The switch on the privilege level. Level 0 goes on into the test of level 1; behind any other
  -- level the assertion on `is_token_duplicate` fails.
  unfoldable pub may_logout : UserAccount → Str → Flow (Unit {0})
  may_logout account clnt_addr =
      if account.privilege_level == 0
      then (do
        reject (not (streq account.ip_addr clnt_addr)) 2
        reject (not account.online_status) 4)
      else if account.privilege_level == 1
      then reject (not account.online_status) 4
      else fault

  unfoldable pub logout_user : Str → Server → Str → Flow Reply
  unfolding token_or_fault get_uuid_with_display_name get_user_account may_logout
      logout_user_account insert_user_account remove_user_in_cache
  logout_user clnt_addr s body = do
    (token1, rest1) ← token_or_fault body
    display_name ← copy_token dsply_name_length token1
    uuid ← or_exit (get_uuid_with_display_name s display_name) 500
    account ← or_exit (get_user_account s uuid) 500
    may_logout account clnt_addr
    let offline = logout_user_account account
    let stored = (insert_user_account s offline).1
    next (record {
      result = success;
      token = strncpy dsply_name_length offline.display_name;
      server = record stored { cache = remove_user_in_cache offline.display_name stored.cache };
    })

  unfoldable pub read_and_logout_user : Str → Server → Str → ℕ → Option Reply
  unfolding read_body logout_user
  read_and_logout_user clnt_addr s input body_size =
      finish s (do body ← read_body failure input body_size; logout_user clnt_addr s body)
