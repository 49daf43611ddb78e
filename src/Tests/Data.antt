-- ===== src/Tests/Data.antt =====
-- A small server: one user, who is connected, one channel and one message.
use datacomm_chat_server.Prelude.Partial.{is_some}
use datacomm_chat_server.Prelude.{
  true, false, ◌≡◌, refl, List, [], ◌∷◌, replicate, some, ◌++◌, Option, none,
}
use datacomm_chat_server.CString.{Str, codes}
use datacomm_chat_server.Records.{
  UserLogin, UserAccount, ChannelInfo, MessageInfo, ConnectedUser, Server, Env, all_written,
}
use datacomm_chat_server.Cache.{no_user, initial_users, insert_user_in_cache}
use datacomm_chat_server.Cache.View.{IsCache, initial_users-IsCache, insert_user_in_cache-IsCache}
use datacomm_chat_server.Ndbm.Assoc.{table_ndbm}

abbrev pub alice : Str
alice = codes "alice"

abbrev pub alice_login : UserLogin
alice_login = record {
  login_token = codes "al1";
  password = codes "pass word";
  uuid = codes "id-alice";
}

abbrev pub alice_account : UserAccount
alice_account = record {
  user_id = codes "id-alice";
  display_name = alice;
  ip_addr = codes "0";
  online_status = false;
  privilege_level = 0;
}

abbrev pub lobby : ChannelInfo
lobby = record {
  channel_id = codes "id-lobby";
  creator = alice;
  user_list = alice ∷ replicate 63 [];
  admin_list = alice ∷ replicate 63 [];
  banned_list = replicate 64 [];
  channel_name = codes "lobby";
  publicity = true;
}

abbrev pub greeting : MessageInfo
greeting = record {
  message_id = codes "id-greeting";
  user_id = codes "id-alice";
  channel_id = codes "id-lobby";
  message_content = codes "hello";
  time_stamp = codes "2023-04-10 12:00:00" ++ replicate 13 0;
}

abbrev pub alice_entry : ConnectedUser
alice_entry = record {
  fd = 5;
  dsply_name = alice;
  ip_address = codes "10.0.0.7";
  login_token = codes "al1";
  uuid = codes "id-alice";
  privilege_level = 0;
  access_time = 100;
}

abbrev pub one_user : List ConnectedUser
one_user = alice_entry ∷ replicate 254 no_user

pub one_user-IsCache : IsCache one_user
unfolding insert_user_in_cache initial_users no_user
one_user-IsCache =
    insert_user_in_cache-IsCache alice_entry initial_users one_user initial_users-IsCache refl

-- Nobody is connected.
abbrev pub quiet : Server
quiet = record {
  logins = some ((codes "al1", alice_login) ∷ []);
  names = some ((alice, codes "id-alice") ∷ []);
  accounts = some ((codes "id-alice", alice_account) ∷ []);
  channels = some ((codes "id-lobby", lobby) ∷ []);
  messages = some ((codes "id-greeting", greeting) ∷ []);
  cache = initial_users;
  events = [];
}

-- The user is connected.
abbrev pub busy : Server
busy = record quiet { cache = one_user }

-- An environment in which a body waits.
abbrev pub env_with : Str → Env
env_with input = record {
  input = input;
  uuid = codes "id-new";
  time = 200;
  residue = [];
  writable = λ fd. all_written;
}

-- The result of a call that yields one.
abbrev pub get_or {ℓ} : {A : Type ℓ} → A → Option A → A
get_or d none = d
get_or d (some a) = a

pub some-get_or {ℓ} : {A : Type ℓ} (d : A) (o : Option A) → is_some o ≡ true → o ≡ some (get_or d o)
some-get_or d none h = cc
some-get_or d (some a) h = refl
