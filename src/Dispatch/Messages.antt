-- ===== src/Dispatch/Messages.antt =====
-- A message from the bytes at the sender's socket to the bytes at the members' sockets.
use datacomm_chat_server.Prelude.{
  ℕ, ◌≡◌, refl, ◌<◌, ◌+◌, ◌∷◌, ◌++◌, ◌∙◌, some, pos, next, true, false, length, length-append,
  arith, ap, ◌==◌, ◌||◌, ◌^◌, ◌%◌, take_all, List,
}
use datacomm_chat_server.Prelude.Partial.{◌>>=◌}
use datacomm_chat_server.CString.{Str, codes, etx, streq}
use datacomm_chat_server.CString.Tokens.{IsField}
use datacomm_chat_server.Ndbm.{Ndbm, Reliable}
use datacomm_chat_server.Header.{ChatHeader, IsHeader, word_bytes, create_response_header}
use datacomm_chat_server.Records.{
  Env, Server, ChannelInfo, ConnectedUser, UserAccount, UserLogin, Event, wrote, all_written,
}
use datacomm_chat_server.Database.{
  failure, success, get_channel_info, get_login_info, get_user_account, insert_message,
  fetch_record,
}
use datacomm_chat_server.Cache.{get_connected_user_by_display_name}
use datacomm_chat_server.Cache.View.{IsCache, connected}
use datacomm_chat_server.Request.{Reply}
use datacomm_chat_server.Request.Fields.{Fits, read_body_text}
use datacomm_chat_server.Response.{
  send_create_message_response, send_response, write_response, create_message_body,
}
use datacomm_chat_server.Message.{create_message, generate_message, read_and_create_message}
use datacomm_chat_server.Message.Create.{
  insert_message-stored, message_body, create_message-posted, posted,
}
use datacomm_chat_server.Dispatch.{handle_request, serve, select, deliver}
use datacomm_chat_server.Dispatch.Refusals.{handle_request-serve}
use datacomm_chat_server.Dispatch.Delivery.{delivered, forward-delivered}
use datacomm_chat_server.Dispatch.Sessions.{IsText, field-IsText, IsClean-IsText}

-- The header of a request to create a message with a body of a size.
abbrev pub create_message_header : ℕ → ChatHeader
create_message_header size = record { version = 1; type = 1; object = 3; body_size = size }

-- The two writes that acknowledge a message to a channel, the last first.
abbrev pub acknowledged : ℕ → ChatHeader → Str → List Event → List Event
acknowledged fd header c events =
    let body = codes "201" ++ etx ∷ c in
    wrote fd body
    ∷ wrote fd (word_bytes (create_response_header (record header { body_size = length body })))
    ∷ events

message_body-IsText :
    (d c content stamp : Str)
    → Fits 21 d
    → Fits 21 c
    → Fits 974 content
    → IsField stamp
    → IsText (message_body d c content stamp)
message_body-IsText d c content stamp hd hc hx hs =
    let last : IsText stamp = IsClean-IsText stamp hs.1 in
    let third = field-IsText content (etx ∷ stamp) hx.field.1 (ground arith, last) in
    let second = field-IsText c (etx ∷ (content ++ etx ∷ stamp)) hc.field.1 (ground arith, third) in
    field-IsText d (etx ∷ (c ++ etx ∷ (content ++ etx ∷ stamp))) hd.field.1 (ground arith, second)

module _ ⦃N : Ndbm⦄ where
  send_ack :
      (env : Env) (fd : ℕ) (header : ChatHeader) (c : Str) (s : Server)
      → env.writable fd ≡ all_written
      → length c < 21
      → send_create_message_response env fd header (pos 0) c s
        ≡ some (record s { events = acknowledged fd header c s.events })
  unfolding send_create_message_response send_response write_response create_message_body
  send_ack env fd header c s w short =
      let whole : (length c + 4) % 2 ^ 16 ≡ length c + 4 = omega arith in
      ground (arith, w, whole, take_all (length c + 4) (codes "201" ++ etx ∷ c) (omega arith))

  -- An acknowledged message goes to the members of its channel.
  deliver-acknowledged :
      (env : Env) (fd : ℕ) (h : ChatHeader) (c text : Str) (channel : ChannelInfo) (s : Server)
      → ((f : ℕ) → env.writable f ≡ all_written)
      → length c < 21
      → length text < 1020
      → IsCache s.cache
      → get_channel_info s c ≡ some channel
      → deliver env fd h (record { result = success; token = c; server = s }) text
        ≡ some (record s {
          events = delivered h text channel (connected s.cache) (acknowledged fd h c s.events);
        })
  unfolding deliver get_channel_info
  deliver-acknowledged env fd h c text channel s w short_c short ok found =
      let answered : Server = record s { events = acknowledged fd h c s.events } in
      rw (send_ack env fd h c s (w fd) short_c)
        (rw found (forward-delivered env h text channel s.cache answered w short ok))

  read_and_create_message-posted :
      (env : Env) (s : Server) (body : Str) (r : Reply)
      → IsText body
      → 0 < length body
      → length body < 1024
      → create_message env s body ≡ next r
      → read_and_create_message env s body (length body) ≡ some (r, body)
  unfolding read_and_create_message
  read_and_create_message-posted env s body r clean some_bytes room posted =
      let whole = read_body_text failure body clean some_bytes room in rw whole (rw posted refl)

  serve_create_message :
      (env : Env) (fd : ℕ) (addr body : Str) (size : ℕ) (s : Server) (r : Reply)
      → read_and_create_message env s body size ≡ some (r, body)
      → serve env fd addr (create_message_header size) body s (select (create_message_header size))
        ≡ deliver env fd (create_message_header size) r body
  unfolding serve select
  serve_create_message env fd addr body size s r e = rw e refl

module _ ⦃N : Ndbm⦄ ⦃R : Reliable⦄ where
  -- On a disk that works, with a well-formed array of connected users, every socket writable and
  -- identifiers of less than 37 bytes: the bytes of a request to create a message, of less than 1020
  -- bytes with fields that fit, from a connected user of a known privilege level to a channel that
  -- exists, are answered with the status 201 and the name of the channel; then each connected member
  -- of the channel, and nobody else, gets the whole body once, in the order of the array. Stored is,
  -- under the new identifier, a record with the identifiers of the sender's login and of the channel
  -- and the time stamp, but only with the first eight bytes of the text, behind which, where the text
  -- has eight bytes or more, follows what the memory of the record held before.
  pub handle_create_message :
      (env : Env) (fd : ℕ) (addr : Str) (s : Server) (d c content stamp : Str)
      (channel : ChannelInfo) (u : ConnectedUser) (a : UserAccount) (l : UserLogin)
      → env.input
        ≡ word_bytes (
            create_response_header
              (create_message_header (length (message_body d c content stamp))))
          ++ message_body d c content stamp
      → ((f : ℕ) → env.writable f ≡ all_written)
      → length env.uuid < 37
      → length l.uuid < 37
      → length channel.channel_id < 37
      → IsCache s.cache
      → Fits 21 d
      → Fits 21 c
      → Fits 974 content
      → IsField stamp
      → length (message_body d c content stamp) < 1020
      → streq d (codes "200") ≡ false
      → get_channel_info s c ≡ some channel
      → get_connected_user_by_display_name s.cache d ≡ some u
      → get_user_account s u.uuid ≡ some a
      → (a.privilege_level == 0 || a.privilege_level == 1) ≡ true
      → get_login_info s u.login_token ≡ some l
      → (after : Server) × (handle_request env fd addr s ≡ some (pos 0, after))
        × (after.events
            ≡ delivered
                (create_message_header (length (message_body d c content stamp)))
                (message_body d c content stamp)
                channel
                (connected s.cache)
                (acknowledged fd
                  (create_message_header (length (message_body d c content stamp)))
                  c
                  s.events))
        × (fetch_record after.messages env.uuid
            ≡ some (posted env.uuid l.uuid channel.channel_id env.residue content stamp))
  unfolding insert_message get_channel_info
  handle_create_message env fd addr s d c content stamp channel u a l input w hm hu hi ok hd hc hx
        hs short ack ec eu ea level el =
      let body = message_body d c content stamp in
      let h = create_message_header (length body) in
      let header_ok : IsHeader h = record {
        version_bits = omega arith;
        type_bits = omega arith;
        object_bits = omega arith;
        size_bits = omega (arith, short);
      } in
      let kept = (insert_message s (generate_message env l channel content stamp)).1 in
      let nonempty : 0 < length body =
        omega (arith, length-append d (etx ∷ (c ++ etx ∷ (content ++ etx ∷ stamp)))) in
      let read =
        read_and_create_message-posted env s body
          (record { result = success; token = c; server = kept })
          (message_body-IsText d c content stamp hd hc hx hs) nonempty (omega arith)
          (create_message-posted env s d c content stamp channel u a l hd hc hx hs ack ec eu ea
            level el) in
      (
        record kept {
          events = delivered h body channel (connected s.cache) (acknowledged fd h c s.events);
        },
        handle_request-serve env fd addr s h body header_ok input refl
            ∙ ap (λ o. o >>= λ after. some (pos 0, after))
                (serve_create_message env fd addr body (length body) s
                    (record { result = success; token = c; server = kept }) read
                  ∙ deliver-acknowledged env fd h c body channel kept w hc.short short ok ec),
        refl,
        insert_message-stored env s channel l content stamp hm hu hi,
      )
