-- ===== src/Channel.antt =====
-- src/server.c: the requests on the object CHANNEL that create a channel and that read one.
pub mod Adding
pub mod Create
pub mod Members
pub mod Rename
pub mod Request
pub mod Update
use datacomm_chat_server.Database.{
  check_duplicate_display_name, insert_channel_info, get_channel_info, check_duplicate_channel_name,
  success,
}
use datacomm_chat_server.Accounts.{uuid_len, admin_name}
use datacomm_chat_server.Cache.{get_display_name_in_cache}
use datacomm_chat_server.Request.{
  strncpy, token_or_fault, read_body, token_or, or_exit, Reply, copy_token, finish, reject,
}
use datacomm_chat_server.Records.{ChannelInfo, Env, Server, token_name_length}
use datacomm_chat_server.Ndbm.{Ndbm}
use datacomm_chat_server.CString.{Str, decimal, codes, etx, streq, is_empty}
use datacomm_chat_server.Prelude.{
  ℕ, List, Bool, Flow, ◌∷◌, ◌++◌, length, [], if◌then◌else◌, take, true, Option, ◌==◌, false,
  replicate, next, not, pos, exits, is_code, ltb, ◌+◌, fault,
}
use datacomm_chat_server.Prelude.Ends.{◌>>=◌, ◌>>◌}

abbrev pub one : Str
one = codes "1"

unfoldable pub create_channel : Str → Str → Str → Bool → ChannelInfo
create_channel uuid channel_name display_name publicity = record {
  channel_id = strncpy uuid_len uuid;
  creator = strncpy token_name_length display_name;
  user_list = strncpy token_name_length display_name ∷ replicate 63 [];
  admin_list = strncpy token_name_length display_name ∷ replicate 63 [];
  banned_list = replicate 64 [];
  channel_name = strncpy token_name_length channel_name;
  publicity = publicity;
}

-- The publicity field: "1" is public, any other single character is not, and a longer field is an
-- invalid request.
unfoldable pub read_publicity : Str → Flow Bool
read_publicity token =
    if streq token one
    then next true
    else if not (length token == 1)
    then exits (pos 400)
    else next false

module _ ⦃N : Ndbm⦄ where
  -- The sender's name must be connected from the sender's address.
  unfoldable pub check_creator : Server → Str → Str → Flow (Unit {0})
  unfolding get_display_name_in_cache check_duplicate_display_name
  check_creator s clnt_addr display_name = do
    name_in_cache ← or_exit (get_display_name_in_cache s.cache clnt_addr display_name) 500
    if streq name_in_cache admin_name
        then reject (not (check_duplicate_display_name s display_name)) 404
        else reject (not (streq display_name name_in_cache)) 403

  -- The channel is stored. The reply is its name and ETX, in an array of `TOKEN_NAME_LENGTH` bytes
  -- that has no room for ETX and a NUL behind a name of the full length.
  unfoldable pub store_channel : Env → Server → Str → Str → Bool → Flow Reply
  store_channel env s channel_name display_name publicity =
      let (result, after) =
        insert_channel_info s (create_channel env.uuid channel_name display_name publicity) in
      if not (is_code result 0)
      then next (record { result = pos 500; token = []; server = after })
      else if ltb (length (strncpy token_name_length channel_name) + 1) token_name_length
      then next (record {
        result = success;
        token = strncpy token_name_length channel_name ++ etx ∷ [];
        server = after;
      })
      else fault

  unfoldable pub create_channel_request : Env → Str → Server → Str → Flow Reply
  unfolding token_or_fault token_or read_publicity
  create_channel_request env clnt_addr s body = do
    (token1, rest1) ← token_or_fault body
    channel_name ← copy_token token_name_length token1
    (token2, rest2) ← token_or 400 rest1
    display_name ← copy_token token_name_length token2
    (token3, rest3) ← token_or_fault rest2
    publicity ← read_publicity token3
    check_creator s clnt_addr display_name
    reject (check_duplicate_channel_name s channel_name) 409
    store_channel env s channel_name display_name publicity

  unfoldable pub read_and_create_channel : Env → Str → Server → Str → ℕ → Option Reply
  unfolding read_body create_channel_request
  read_and_create_channel env clnt_addr s input body_size =
      finish s
        (do body ← read_body (pos 500) input body_size; create_channel_request env clnt_addr s body)

-- The entries of a list of a channel up to the first free place.
unfoldable pub occupied : List Str → List Str
occupied [] = []
occupied (u ∷ us) = if is_empty u then [] else u ∷ occupied us

-- Each round of the loop prints its entry over the one before, so the buffer ends up with the last
-- entry, and ETX behind it.
unfoldable pub print_over : Str → List Str → Str
print_over buffer [] = buffer
print_over buffer (u ∷ us) = print_over (u ++ etx ∷ []) us

-- The number of rounds, ETX, the buffer, and one more ETX if there was no round.
abbrev section_text : ℕ → Str → Str
section_text rounds buffer =
    decimal rounds ++ etx ∷ (buffer ++ (if rounds == 0 then etx ∷ [] else []))

unfoldable pub list_section : List Str → Str
unfolding occupied print_over decimal
list_section users = section_text (length (occupied users)) (print_over [] (occupied users))

-- The section of the banned users counts the banned list and prints the administrators' list.
unfoldable pub banned_section : List Str → List Str → Str
unfolding occupied print_over decimal
banned_section banned admins =
    let rounds = length (occupied banned) in
    section_text rounds (print_over [] (take rounds admins))

abbrev pub publicity_digit : Bool → Str
publicity_digit true = codes "1"
publicity_digit false = codes "0"

-- The printed head of a channel.
unfoldable pub channel_head : ChannelInfo → Str
channel_head c =
    c.channel_name ++ etx ∷ (c.creator ++ etx ∷ (publicity_digit c.publicity ++ etx ∷ []))

abbrev section_if : Bool → Str → Str
section_if true text = text
section_if false text = []

-- The reply to a request to read a channel, with the sections asked for.
unfoldable pub channel_text : ChannelInfo → Bool → Bool → Bool → Str
unfolding channel_head list_section banned_section
channel_text c users admins banned =
    channel_head c
    ++ (section_if users (list_section c.user_list)
        ++ (section_if admins (list_section c.admin_list)
            ++ section_if banned (banned_section c.banned_list c.admin_list)))

module _ ⦃N : Ndbm⦄ where
  unfoldable pub read_channel : Server → Str → Flow Reply
  unfolding token_or
  read_channel s body = do
    (token1, rest1) ← token_or 400 body
    channel_name ← copy_token token_name_length token1
    (token2, rest2) ← token_or 400 rest1
    (token3, rest3) ← token_or 400 rest2
    (token4, rest4) ← token_or 400 rest3
    channel ← or_exit (get_channel_info s channel_name) 404
    next (record {
      result = success;
      token = channel_text channel (streq token2 one) (streq token3 one) (streq token4 one);
      server = s;
    })

  unfoldable pub read_and_read_channel : Server → Str → ℕ → Option Reply
  unfolding read_body read_channel
  read_and_read_channel s input body_size =
      finish s (do body ← read_body (pos 500) input body_size; read_channel s body)
