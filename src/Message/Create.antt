-- ===== src/Message/Create.antt =====
-- src/server.c, `read_and_create_message`: the message that a request stores.
use datacomm_chat_server.Prelude.{
  sym, subst, if◌then◌else◌, ltb, Bool-cases, inl, inr, [], append_nil, ◌∙◌, ◌≡◌, refl, true, false,
  some, ◌++◌, ◌∷◌, ◌<◌, ◌||◌, ◌==◌, arith, length, take, replicate, next, length-append, take_all,
  length-take,
}
use datacomm_chat_server.CString.{Str, etx, streq, codes}
use datacomm_chat_server.CString.Tokens.{streq_refl, IsField}
use datacomm_chat_server.Ndbm.{Ndbm, Reliable}
use datacomm_chat_server.Records.{
  Env, Server, ChannelInfo, ConnectedUser, UserAccount, UserLogin, MessageInfo, timestamp_size,
}
use datacomm_chat_server.Database.{
  success, get_channel_info, get_login_info, get_user_account, insert_message, fetch_record,
}
use datacomm_chat_server.Database.Laws.{fetch_record-store_record}
use datacomm_chat_server.Cache.{get_connected_user_by_display_name}
use datacomm_chat_server.Request.Fields.{
  Fits, token_or_fault-field, token_or_fault_last, copy_token-Fits, strncpy-Fits,
}
use datacomm_chat_server.Message.{
  create_message, answer_message, post_message, generate_message, message_content, time_stamp,
}
use datacomm_chat_server.Message.History.{IsStamped}

-- The body of a request to create a message.
abbrev pub message_body : Str → Str → Str → Str → Str
message_body display_name channel_name content stamp =
    display_name ++ etx ∷ (channel_name ++ etx ∷ (content ++ etx ∷ stamp))

-- Every message that is stored has a time stamp of 32 bytes.
pub generate_message-IsStamped :
    (env : Env) (login : UserLogin) (channel : ChannelInfo) (body stamp : Str)
    → IsStamped (generate_message env login channel body stamp)
unfolding generate_message time_stamp
generate_message-IsStamped env login channel body stamp =
    let padding : Str = replicate timestamp_size 0 in
    omega (arith, length-take timestamp_size (stamp ++ padding), length-append stamp padding)

-- The record of a message, by its bytes: the identifiers, the first eight bytes of the text, behind
-- eight or more of them what the memory held, and the time stamp with NULs up to 32 bytes.
abbrev pub posted : Str → Str → Str → Str → Str → Str → MessageInfo
posted message_id user_id channel_id memory content stamp = record {
  message_id = message_id;
  user_id = user_id;
  channel_id = channel_id;
  message_content = take 8 content ++ (if ltb (length content) 8 then [] else memory);
  time_stamp = take 32 (stamp ++ replicate 32 0);
}

message_content-cut :
    (memory content : Str)
    → message_content memory content
      ≡ take 8 content ++ (if ltb (length content) 8 then [] else memory)
unfolding message_content
message_content-cut memory content = elim (Bool-cases (ltb (length content) 8)) [
  | inl short ↦
      rw short (sym (append_nil (take 8 content) ∙ take_all 8 content (ground (arith, short))))
  | inr long ↦ rw long refl
]

generate_message-posted :
    (env : Env) (login : UserLogin) (channel : ChannelInfo) (content stamp : Str)
    → length env.uuid < 37
    → length login.uuid < 37
    → length channel.channel_id < 37
    → generate_message env login channel content stamp
      ≡ posted env.uuid login.uuid channel.channel_id env.residue content stamp
unfolding generate_message time_stamp
generate_message-posted env login channel content stamp hm hu hc = simp (
  take_all 37 env.uuid (omega arith),
  take_all 37 login.uuid (omega arith),
  take_all 37 channel.channel_id (omega arith),
  message_content-cut env.residue content,
)

module _ ⦃N : Ndbm⦄ ⦃R : Reliable⦄ where
  -- A message of a connected user to a channel, field by field.
  pub create_message-posted :
      (env : Env) (s : Server) (d c content stamp : Str) (channel : ChannelInfo) (u : ConnectedUser)
      (a : UserAccount) (l : UserLogin)
      → Fits 21 d
      → Fits 21 c
      → Fits 974 content
      → IsField stamp
      → streq d (codes "200") ≡ false
      → get_channel_info s c ≡ some channel
      → get_connected_user_by_display_name s.cache d ≡ some u
      → get_user_account s u.uuid ≡ some a
      → (a.privilege_level == 0 || a.privilege_level == 1) ≡ true
      → get_login_info s u.login_token ≡ some l
      → create_message env s (message_body d c content stamp)
        ≡ next (record {
          result = success;
          token = c;
          server = (insert_message s (generate_message env l channel content stamp)).1;
        })
  unfolding create_message answer_message post_message
  create_message-posted env s d c content stamp channel u a l hd hc hx hs ack ec eu ea level el =
      rw
        (
          token_or_fault-field d (c ++ etx ∷ (content ++ etx ∷ stamp)) hd.field,
          copy_token-Fits 21 d hd,
          ack,
          token_or_fault-field c (content ++ etx ∷ stamp) hc.field,
          copy_token-Fits 21 c hc,
          token_or_fault-field content stamp hx.field,
          copy_token-Fits 974 content hx,
          token_or_fault_last stamp hs,
          strncpy-Fits 21 c hc,
          ec,
        )
        (ground (arith, eu, ea, level, el))

  -- The record of a message is found under its identifier.
  pub insert_message-stored :
      (env : Env) (s : Server) (channel : ChannelInfo) (l : UserLogin) (content stamp : Str)
      → length env.uuid < 37
      → length l.uuid < 37
      → length channel.channel_id < 37
      → fetch_record
          (insert_message s (generate_message env l channel content stamp)).1.messages
          env.uuid
        ≡ some (posted env.uuid l.uuid channel.channel_id env.residue content stamp)
  unfolding insert_message
  insert_message-stored env s channel l content stamp hm hu hc =
      let message = posted env.uuid l.uuid channel.channel_id env.residue content stamp in
      let same = generate_message-posted env l channel content stamp hm hu hc in
      subst (λ m. fetch_record (insert_message s m).1.messages env.uuid ≡ some message) (sym same)
        (rw (fetch_record-store_record s.messages env.uuid env.uuid message, streq_refl env.uuid)
          refl)
