-- ===== src/Message.antt =====
-- src/server.c: the requests on the object MESSAGE.
pub mod History
pub mod Create
use datacomm_chat_server.Cache.{get_connected_user_by_display_name}
use datacomm_chat_server.Accounts.{uuid_len}
use datacomm_chat_server.Database.{
  failure, get_user_account, get_all_messages, get_login_info, get_channel_info, insert_message,
  success,
}
use datacomm_chat_server.Util.{is_number}
use datacomm_chat_server.Request.{
  token_or_fault, read_body, Reply, strncpy, deref, copy_token, finish, reject, require,
}
use datacomm_chat_server.Ndbm.{Ndbm}
use datacomm_chat_server.Prelude.{
  ℕ, if◌then◌else◌, take, Bool, Option, ltb, ◌==◌, Flow, List, length, ◌++◌, ◌||◌, ◌∷◌, next, [],
  leb, replicate, ◌+◌, not, fault, some, none, exits, pos,
}
use datacomm_chat_server.Records.{
  Env, UserLogin, Server, ChannelInfo, UserAccount, timestamp_size, MessageInfo, dsply_name_length,
  token_name_length, default_buffer, max_message_size,
}
use datacomm_chat_server.CString.{Str, c_str, streq, decimal, etx, codes}
use datacomm_chat_server.Prelude.Ends.{◌>>=◌, ◌>>◌}

-- `strncpy(message->message_content, body, sizeof(message_body_length))` copies as many bytes as a
-- `size_t` has. A shorter body is copied with its NUL; behind the first 8 bytes of any other the
-- text goes on with what the allocated memory holds.
unfoldable pub message_content : Str → Str → Str
message_content residue body = if ltb (length body) 8 then body else take 8 body ++ residue

-- The 32 bytes of a time stamp: `strncpy` pads with NULs.
unfoldable pub time_stamp : Str → Str
time_stamp text = take timestamp_size (text ++ replicate timestamp_size 0)

unfoldable pub generate_message : Env → UserLogin → ChannelInfo → Str → Str → MessageInfo
unfolding message_content time_stamp
generate_message env login channel body timestamp = record {
  message_id = strncpy uuid_len env.uuid;
  user_id = strncpy uuid_len login.uuid;
  channel_id = strncpy uuid_len channel.channel_id;
  message_content = message_content env.residue body;
  time_stamp = time_stamp timestamp;
}

-- `CREATE_MESSAGE_ACK`
abbrev pub create_message_ack : ℕ
create_message_ack = 69

-- The switch on the privilege level: behind a level that is neither 0 nor 1 an indeterminate value
-- is read.
abbrev known_level : ℕ → Bool
known_level level = level == 0 || level == 1

module _ ⦃N : Ndbm⦄ where
  -- The sender is looked up among the connected users, its account and its login in the databases;
  -- what is missing is a null pointer that is read.
  unfoldable pub post_message : Env → Server → Str → Str → Str → ChannelInfo → Flow Server
  unfolding generate_message
  post_message env s display_name content timestamp channel = do
    user ← deref (get_connected_user_by_display_name s.cache display_name)
    account ← deref (get_user_account s user.uuid)
    require (known_level account.privilege_level)
    login ← deref (get_login_info s user.login_token)
    next (insert_message s (generate_message env login channel content timestamp)).1

  -- From the test for a null channel on.
  unfoldable pub answer_message :
      Env → Server → Str → Str → Str → Str → Option ChannelInfo → Flow Reply
  unfolding post_message
  answer_message env s token display_name content timestamp none =
      next (record { result = pos 2; token = token; server = s })
  answer_message env s token display_name content timestamp (some channel) = do
    after ← post_message env s display_name content timestamp channel
    next (record { result = success; token = token; server = after })

  -- The name of the channel is in `token_out` before the channel is looked up. The test for empty
  -- fields is left out: no token is empty.
  unfoldable pub create_message : Env → Server → Str → Flow Reply
  unfolding token_or_fault answer_message get_channel_info
  create_message env s body = do
    (token1, rest1) ← token_or_fault body
    display_name ← copy_token dsply_name_length token1
    reject (streq display_name (codes "200")) create_message_ack
    (token2, rest2) ← token_or_fault rest1
    channel_name ← copy_token token_name_length token2
    (token3, rest3) ← token_or_fault rest2
    content ← copy_token max_message_size token3
    (token4, rest4) ← token_or_fault rest3
    let token = strncpy token_name_length channel_name
    answer_message env s token display_name content token4 (get_channel_info s channel_name)

  abbrev pub with_text : Str → Option Reply → Option (Reply × Str)
  with_text body none = none
  with_text body (some reply) = some (reply, body)

  -- The reply, and the text to forward: the body as it was before `strtok` cut it.
  abbrev pub create_from : Env → Server → Flow Str → Option (Reply × Str)
  create_from env s fault = none
  create_from env s (exits code) = some (record { result = code; token = []; server = s }, [])
  create_from env s (next body) = with_text body (finish s (create_message env s body))

  unfoldable pub read_and_create_message : Env → Server → Str → ℕ → Option (Reply × Str)
  unfolding read_body create_message
  read_and_create_message env s input body_size =
      create_from env s (read_body failure input body_size)

  abbrev pub same_channel : ChannelInfo → MessageInfo → Bool
  same_channel channel m = streq channel.channel_id m.channel_id

  -- The bytes that are allocated for the messages of a channel.
  unfoldable pub message_list_size : ChannelInfo → List MessageInfo → ℕ
  message_list_size channel [] = 1
  message_list_size channel (m ∷ ms) =
      let rest = message_list_size channel ms in
      if same_channel channel m then length m.message_content + 1 + timestamp_size + rest else rest

  -- A printed message.
  unfoldable pub message_text : UserAccount → MessageInfo → Str
  message_text sender m =
      sender.display_name ++ etx ∷ (m.message_content ++ etx ∷ (m.time_stamp ++ etx ∷ []))

  -- A round of the second loop, with the rest of the loop from an offset on. The loop ends at the
  -- first message that the test of the size refuses.
  unfoldable pub print_one : UserAccount → MessageInfo → ℕ → ℕ → (ℕ → Flow Str) → Flow Str
  unfolding message_text
  print_one sender m size offset rest =
      let name = length sender.display_name in
      let content = length m.message_content in
      let after = offset + (name + content + timestamp_size + 3) in
      if leb size after then next [] else do tail ← rest after; next (message_text sender m ++ tail)

  unfoldable pub print_messages : Server → ChannelInfo → ℕ → ℕ → List MessageInfo → Flow Str
  unfolding print_one
  print_messages s channel size offset [] = next []
  print_messages s channel size offset (m ∷ ms) =
      let skipped = print_messages s channel size offset ms in
      if not (same_channel channel m) then skipped else do
        sender ← deref (get_user_account s m.user_id)
        print_one sender m size offset (λ after. print_messages s channel size after ms)

  -- The channel may be null, and is read for every message.
  unfoldable pub build_message_list : Server → List MessageInfo → Option ChannelInfo → Flow Str
  unfolding print_messages message_list_size
  build_message_list s [] channel = next []
  build_message_list s (m ∷ ms) none = fault
  build_message_list s (m ∷ ms) (some channel) =
      print_messages s channel (message_list_size channel (m ∷ ms)) 0 (m ∷ ms)

  abbrev no_messages : Option (List MessageInfo) → List MessageInfo
  no_messages none = []
  no_messages (some ms) = ms

  unfoldable pub history : Server → Str → Flow Reply
  unfolding token_or_fault is_number build_message_list c_str decimal
  history s body = do
    (token1, rest1) ← token_or_fault body
    channel_name ← copy_token token_name_length token1
    (token2, rest2) ← token_or_fault rest1
    num_of_messages ← copy_token token_name_length token2
    if not (is_number num_of_messages) then exits failure else do
      let messages = no_messages (get_all_messages s)
      list ← build_message_list s messages (get_channel_info s channel_name)
      next (record {
        result = success;
        token = take 4095 (channel_name ++ etx ∷ (decimal (length messages) ++ etx ∷ c_str list));
        server = s;
      })

  -- An error of `read` is reported, and the handler goes on with what has arrived.
  unfoldable pub read_any : Str → ℕ → Flow Str
  unfolding c_str
  read_any input body_size =
      let received = take body_size input in
      if leb default_buffer (length received) then fault else next (c_str received)

  unfoldable pub read_and_read_message : Server → Str → ℕ → Option Reply
  unfolding read_any history
  read_and_read_message s input body_size =
      finish s (do body ← read_any input body_size; history s body)
