-- ===== src/Dispatch/Delivery.antt =====
-- src/server.c, the branch of `handle_request` for CREATE MESSAGE: who gets the text.
use datacomm_chat_server.Prelude.{
  ℕ, ◌≡◌, refl, none, some, ◌++◌, ◌∷◌, [], ◌+◌, ◌<◌, ◌%◌, ◌^◌, if◌then◌else◌, pos, arith,
  Bool-cases, inl, inr, length, take, List, next, take_all, Flow, ◌⊎◌, exits, ltb, fault,
}
use datacomm_chat_server.CString.{Str, etx, codes, is_empty}
use datacomm_chat_server.Header.{ChatHeader, word_bytes, create_response_header}
use datacomm_chat_server.Ndbm.{Ndbm}
use datacomm_chat_server.Records.{
  Writes, all_written, only_header, none_written, Env, Server, ChannelInfo, ConnectedUser, Event,
  wrote, Writes, all_written, only_header, none_written,
}
use datacomm_chat_server.Database.{get_channel_info}
use datacomm_chat_server.Database.Update.{check_if_user_in_channel}
use datacomm_chat_server.Cache.{get_num_connected_users}
use datacomm_chat_server.Cache.View.{IsCache, connected, get_num-connected}
use datacomm_chat_server.Request.{Reply}
use datacomm_chat_server.Response.{
  send_create_message_response, send_response, write_response, create_message_body, status_ignored,
}
use datacomm_chat_server.Dispatch.{forward, deliver}

-- The two writes that bring a text to a client, the last first.
abbrev pub notice : ChatHeader → Str → ℕ → List Event
notice header text fd =
    let body = codes "200" ++ etx ∷ text in
    wrote fd body
    ∷ wrote fd (word_bytes (create_response_header (record header { body_size = length body })))
    ∷ []

-- The events after each connected member of the channel has got the text once, in the order of the
-- array, and nobody else has.
pub delivered : ChatHeader → Str → ChannelInfo → List ConnectedUser → List Event → List Event
delivered header text channel [] events = events
delivered header text channel (u ∷ us) events =
    let told = delivered header text channel us (notice header text u.fd ++ events) in
    let passed = delivered header text channel us events in
    if check_if_user_in_channel u.dsply_name channel then told else passed

Writes-cases : (w : Writes) → (w ≡ all_written) ⊎ ((w ≡ only_header) ⊎ (w ≡ none_written))
Writes-cases all_written = inl refl
Writes-cases only_header = inr (inl refl)
Writes-cases none_written = inr (inr refl)

module _ ⦃N : Ndbm⦄ where
  send_notice :
      (env : Env) (fd : ℕ) (header : ChatHeader) (text : Str) (s : Server)
      → env.writable fd ≡ all_written
      → length text < 1020
      → send_create_message_response env fd header (pos 5) text s
        ≡ some (record s { events = notice header text fd ++ s.events })
  unfolding send_create_message_response send_response write_response create_message_body
  send_notice env fd header text s w short =
      let whole : (length text + 4) % 2 ^ 16 ≡ length text + 4 = omega arith in
      ground (arith, w, whole, take_all (length text + 4) (codes "200" ++ etx ∷ text) (omega arith))

  forward-connected :
      (env : Env) (header : ChatHeader) (text : Str) (channel : ChannelInfo)
      (us : List ConnectedUser) (s : Server)
      → ((fd : ℕ) → env.writable fd ≡ all_written)
      → length text < 1020
      → forward env header text (some channel) (length (connected us)) us s
        ≡ some (record s { events = delivered header text channel (connected us) s.events })
  unfolding forward connected delivered
  forward-connected env header text channel [] s w short = refl
  forward-connected env header text channel (u ∷ us) s w short =
      elim (Bool-cases (is_empty u.dsply_name)) [
        | inl free ↦ rw free refl
        | inr taken ↦ elim (Bool-cases (check_if_user_in_channel u.dsply_name channel)) [
          | inl member ↦
              rw (taken, member)
                (rw (send_notice env u.fd header text s (w u.fd) short) (
                  forward-connected env header text channel us
                    (record s { events = notice header text u.fd ++ s.events }) w short))
          | inr other ↦ rw (taken, other) (forward-connected env header text channel us s w short)
        ]
      ]

  -- With a well-formed array of connected users, every socket writable and a text of less than 1020
  -- bytes: the loop over the connected users of a channel hands the text to those of them who are
  -- members, once each and in the order of the array, and to nobody else.
  pub forward-delivered :
      (env : Env) (header : ChatHeader) (text : Str) (channel : ChannelInfo)
      (cache : List ConnectedUser) (s : Server)
      → ((fd : ℕ) → env.writable fd ≡ all_written)
      → length text < 1020
      → IsCache cache
      → forward env header text (some channel) (get_num_connected_users cache) cache s
        ≡ some (record s { events = delivered header text channel (connected cache) s.events })
  forward-delivered env header text channel cache s w short ok =
      rw (get_num-connected cache (omega (arith, ok.size)))
        (forward-connected env header text channel cache s w short)

  sent :
      (size : ℕ) (body : Flow Str) (env : Env) (fd : ℕ) (h : ChatHeader) (s : Server)
      → (status_ignored (send_response size body env fd h s) ≡ none)
        ⊎ ((events : List Event) × (status_ignored (send_response size body env fd h s)
              ≡ some (record s { events = events })))
  unfolding send_response write_response
  sent size fault env fd h s = inl refl
  sent size (exits code) env fd h s = inr (s.events, refl)
  sent size (next body) env fd h s =
      let sized = record h { body_size = length body % 2 ^ 16 } in
      let head = wrote fd (word_bytes (create_response_header sized)) in
      let written = wrote fd (take (length body % 2 ^ 16) body) ∷ head ∷ s.events in
      elim (Bool-cases (ltb (length body) size)) [
        | inl room ↦ elim (Writes-cases (env.writable fd)) [
          | inl w ↦ inr (written, rw room (rw (w, write_response) refl))
          | inr (inl half) ↦ inr (head ∷ s.events, rw room (rw (half, write_response) refl))
          | inr (inr shut) ↦ inr (s.events, rw room (rw (shut, write_response) refl))
        ]
        | inr long ↦ inl (rw long refl)
      ]

  forward_null :
      (env : Env) (h : ChatHeader) (text : Str) (us : List ConnectedUser) (s : Server)
      → 0 < length (connected us)
      → forward env h text none (length (connected us)) us s ≡ none
  unfolding forward connected
  forward_null env h text [] s someone = absurd (omega (arith, someone))
  forward_null env h text (u ∷ us) s someone = elim (Bool-cases (is_empty u.dsply_name)) [
    | inl free ↦ absurd (ground (arith, free, someone))
    | inr taken ↦ rw taken refl
  ]

  -- With a well-formed array of connected users, of whom there is at least one, a message with the
  -- result 2 for a channel that does not exist ends the process: the loop reads the null pointer
  -- that stands for the channel.
  pub deliver_unknown_channel :
      (env : Env) (fd : ℕ) (h : ChatHeader) (r : Reply) (text : Str)
      → r.result ≡ pos 2
      → get_channel_info r.server r.token ≡ none
      → IsCache r.server.cache
      → 0 < length (connected r.server.cache)
      → deliver env fd h r text ≡ none
  unfolding deliver send_create_message_response get_channel_info
  deliver_unknown_channel env fd h r text e unknown ok someone =
      rw e (elim (sent 1024 (create_message_body (pos 2) r.token) env fd h r.server) [
        | inl ended ↦ rw (ended, deliver) refl
        | inr (events, answered) ↦
            rw (answered, deliver)
              (rw (unknown, get_num-connected r.server.cache (omega (arith, ok.size)))
                (forward_null env h text r.server.cache (record r.server { events = events })
                  someone))
      ])
