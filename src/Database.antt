-- ===== src/Database.antt =====
-- src/my_ndbm.c: what the server reads from and writes to its five databases. A function that may
-- return a null pointer returns an `Option`; one that changes a database returns its status with
-- the server after it.
pub mod Laws
pub mod Update
pub mod Channels
use datacomm_chat_server.Prelude.{
  ℕ, zero, suc, ◌≡◌, Bool, true, false, Option, none, some, List, [], ◌∷◌, if◌then◌else◌, ℤ, pos,
  negsuc,
}
use datacomm_chat_server.Prelude.Partial.{◌>>=◌, is_some}
use datacomm_chat_server.CString.{Str, streq, is_empty}
use datacomm_chat_server.Ndbm.{Ndbm}
use datacomm_chat_server.Records.{UserLogin, UserAccount, ChannelInfo, MessageInfo, Server}

-- `-1`
abbrev pub failure : ℤ
failure = negsuc 0

abbrev pub success : ℤ
success = pos 0

module _ ⦃N : Ndbm⦄ where
  open N use {File, dbm_open, dbm_fetch, dbm_store, dbm_delete, dbm_keys}

  -- Opens a database that must be there, and fetches the record under a key.
  unfoldable pub fetch_record : {V : Type 0} → File V → Str → Option V
  fetch_record file key = do db ← dbm_open false file; dbm_fetch db key

  unfoldable pub get_login_info : Server → Str → Option UserLogin
  unfolding fetch_record
  get_login_info s login_token = fetch_record s.logins login_token

  unfoldable pub get_user_account : Server → Str → Option UserAccount
  unfolding fetch_record
  get_user_account s user_uuid = fetch_record s.accounts user_uuid

  unfoldable pub get_uuid_with_display_name : Server → Str → Option Str
  unfolding fetch_record
  get_uuid_with_display_name s display_name = fetch_record s.names display_name

  -- The walk over the keys: it gives up where a key has no record, and ends at the first channel of
  -- the name.
  unfoldable pub find_channel : File ChannelInfo → List Str → Str → Option ChannelInfo
  find_channel db [] name = none
  find_channel db (k ∷ ks) name = do
    channel ← dbm_fetch db k
    if streq channel.channel_name name then some channel else find_channel db ks name

  unfoldable pub get_channel_info : Server → Str → Option ChannelInfo
  unfolding find_channel
  get_channel_info s channel_name = do
    db ← dbm_open false s.channels
    find_channel db (dbm_keys db) channel_name

  -- The records under the keys, in the order of the keys.
  unfoldable pub all_records : {V : Type 0} → File V → List Str → Option (List V)
  all_records db [] = some []
  all_records db (k ∷ ks) = do value ← dbm_fetch db k; rest ← all_records db ks; some (value ∷ rest)

  unfoldable pub get_all_channels : Server → Option (List ChannelInfo)
  unfolding all_records
  get_all_channels s = do db ← dbm_open false s.channels; all_records db (dbm_keys db)

  unfoldable pub get_all_messages : Server → Option (List MessageInfo)
  unfolding all_records
  get_all_messages s = do db ← dbm_open false s.messages; all_records db (dbm_keys db)

  unfoldable pub check_duplicate_display_name : Server → Str → Bool
  unfolding fetch_record
  check_duplicate_display_name s display_name = is_some (fetch_record s.names display_name)

  unfoldable pub check_duplicate_channel_name : Server → Str → Bool
  unfolding find_channel
  check_duplicate_channel_name s channel_name =
      is_some (do db ← dbm_open false s.channels; find_channel db (dbm_keys db) channel_name)

  -- Opens a database, creating it where the flag says so, and stores a record.
  unfoldable pub store_record : {V : Type 0} → Bool → File V → Str → V → ℤ × File V
  store_record create file key value = elim (dbm_open create file) [
    | none ↦ (failure, file)
    | some db ↦ elim (dbm_store db key value) [
      | none ↦ (failure, db)
      | some after ↦ (success, after)
    ]
  ]

  unfoldable pub insert_user_account : Server → UserAccount → ℤ × Server
  unfolding store_record
  insert_user_account s account =
      let (status, file) = store_record true s.accounts account.user_id account in
      (status, record s { accounts = file })

  unfoldable pub insert_display_name : Server → Str → Str → ℤ × Server
  unfolding store_record
  insert_display_name s display_name uuid =
      let (status, file) = store_record true s.names display_name uuid in
      (status, record s { names = file })

  unfoldable pub insert_user_login : Server → UserLogin → ℤ × Server
  unfolding store_record
  insert_user_login s login =
      let (status, file) = store_record true s.logins login.login_token login in
      (status, record s { logins = file })

  unfoldable pub insert_channel_info : Server → ChannelInfo → ℤ × Server
  unfolding store_record
  insert_channel_info s channel =
      let (status, file) = store_record true s.channels channel.channel_id channel in
      (status, record s { channels = file })

  unfoldable pub insert_message : Server → MessageInfo → ℤ × Server
  unfolding store_record
  insert_message s message =
      let (status, file) = store_record true s.messages message.message_id message in
      (status, record s { messages = file })

  pub delete_record : {V : Type 0} → File V → Str → ℤ × File V
  delete_record file key = elim (dbm_open true file) [
    | none ↦ (failure, file)
    | some db ↦ elim (dbm_delete db key) [ none ↦ (failure, db) | some after ↦ (success, after) ]
  ]

  unfoldable pub remove_user_account : Server → Str → ℤ × Server
  unfolding delete_record
  remove_user_account s user_id =
      let (status, file) = delete_record s.accounts user_id in
      (status, record s { accounts = file })

  unfoldable pub remove_display_name : Server → Str → ℤ × Server
  unfolding delete_record
  remove_display_name s display_name =
      let (status, file) = delete_record s.names display_name in (status, record s { names = file })

  unfoldable pub remove_user_login : Server → Str → ℤ × Server
  unfolding delete_record
  remove_user_login s login_token =
      let (status, file) = delete_record s.logins login_token in
      (status, record s { logins = file })
