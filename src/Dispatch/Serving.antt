-- ===== src/Dispatch/Serving.antt =====
-- The server keeps the array of connected users well-formed while it answers a request.
use datacomm_chat_server.Dispatch.Senders.{
  send_create_message-IsCache, send_create_user-IsCache, send_destroy_user-IsCache,
  send_create_channel-IsCache, send_read_channel-IsCache, send_update_channel-IsCache,
  send_read_message-IsCache, send_login_user-IsCache, send_logout_user-IsCache,
}
use datacomm_chat_server.Database.Update.{check_if_user_in_channel}
use datacomm_chat_server.Database.{get_channel_info, failure}
use datacomm_chat_server.Cache.{get_connected_user_by_fd, get_num_connected_users}
use datacomm_chat_server.Auth.{read_and_login_user, read_and_logout_user, login_user, logout_user}
use datacomm_chat_server.Message.{read_and_create_message, read_and_read_message, read_any, history}
use datacomm_chat_server.Channel.Update.{read_and_update_channel}
use datacomm_chat_server.Channel.{
  read_and_create_channel, read_and_read_channel, create_channel_request,
}
use datacomm_chat_server.Request.{Reply, finish, read_body}
use datacomm_chat_server.CString.{Str}
use datacomm_chat_server.Header.{ChatHeader, read_header}
use datacomm_chat_server.User.{read_and_create_user, read_and_destroy_user}
use datacomm_chat_server.Response.{
  send_create_message_response, send_create_user_response, send_destroy_user_response,
  send_login_user_response, send_create_channel_response, send_read_channel_response,
  send_update_channel_response, send_read_message_response, send_logout_user_response,
}
use datacomm_chat_server.Records.{Server, Env, ChannelInfo, ConnectedUser, closed}
use datacomm_chat_server.Ndbm.{Ndbm}
use datacomm_chat_server.User
use datacomm_chat_server.Message
use datacomm_chat_server.Dispatch.{
  create_user, destroy_user, create_channel, read_channel, update_channel, create_message,
  read_message, login, logout, nothing, wrong_type,
}
use datacomm_chat_server.Channel
use datacomm_chat_server.Channel.Update
use datacomm_chat_server.Prelude.{
  ℕ, Option, none, some, Flow, exits, List, next, fault, suc, ◌∷◌, zero, [], if◌then◌else◌, ◌==◌,
  Bool-cases, is_code, not, inl, pos, inr,
}
use datacomm_chat_server.Prelude.Partial.{◌>>=◌}
use datacomm_chat_server.Request.Holds.{
  Holds, Holds-some, Holds-none, Holds-if, Holds-then, Holds-bind,
}
use datacomm_chat_server.Dispatch.Invariant.{finish-IsCache, finish_read-IsCache}
use datacomm_chat_server.Dispatch.Invariant.{CacheOf, ReplyOf}
use datacomm_chat_server.Dispatch.Invariant.Handlers.{
  create_user-IsCache, destroy_user-IsCache, create_channel-IsCache, read_channel-IsCache,
  history-IsCache, login-IsCache, logout-IsCache, create_message-IsCache,
}
use datacomm_chat_server.Dispatch.Invariant.Updates.{update_channel-IsCache}
use datacomm_chat_server.Dispatch.{
  Request, serve, handle_request, close_ordinary, forward, deliver, current_version, select,
  create_user, destroy_user, create_channel, read_channel, update_channel, create_message,
  read_message, login, logout, nothing,
}

module _ ⦃N : Ndbm⦄ where
  close_ordinary-IsCache : (fd : ℕ) (s : Server) → CacheOf s → Holds CacheOf (close_ordinary fd s)
  unfolding close_ordinary
  close_ordinary-IsCache fd s ok =
      Holds-bind CacheOf (get_connected_user_by_fd s.cache fd)
        (λ sender.
          some
            (if sender.privilege_level == 0 then record s { events = closed fd ∷ s.events } else s))
        (λ sender. elim (Bool-cases (sender.privilege_level == 0)) [
          | inl ordinary ↦
              rw ordinary (Holds-some CacheOf (record s { events = closed fd ∷ s.events }) ok)
          | inr other ↦ rw other (Holds-some CacheOf s ok)
        ])

  forward-IsCache :
      (env : Env) (h : ChatHeader) (text : Str) (c : Option ChannelInfo) (n : ℕ)
      (us : List ConnectedUser) (s : Server)
      → CacheOf s
      → Holds CacheOf (forward env h text c n us s)
  unfolding forward Holds get_channel_info
  forward-IsCache env h text c zero us s ok = ok
  forward-IsCache env h text c (suc n) [] s ok = ok
  forward-IsCache env h text none (suc n) (u ∷ us) s ok = tt
  forward-IsCache env h text (some c) (suc n) (u ∷ us) s ok =
      Holds-then CacheOf CacheOf
        (if check_if_user_in_channel u.dsply_name c
          then send_create_message_response env u.fd h (pos 5) text s
          else some s)
        (λ after. forward env h text (some c) n us after)
        (Holds-if CacheOf (check_if_user_in_channel u.dsply_name c)
          (send_create_message_response env u.fd h (pos 5) text s) (some s)
          (send_create_message-IsCache env u.fd h (pos 5) text s ok) ok)
        (λ after k. forward-IsCache env h text (some c) n us after k)

  deliver-IsCache :
      (env : Env) (fd : ℕ) (h : ChatHeader) (r : Reply) (text : Str)
      → ReplyOf r
      → Holds CacheOf (deliver env fd h r text)
  unfolding deliver
  deliver-IsCache env fd h r text ok =
      Holds-if CacheOf (is_code r.result 69) (some r.server)
        (do
          answered ← send_create_message_response env fd h r.result r.token r.server
          forward env h text (get_channel_info answered r.token)
              (get_num_connected_users answered.cache) answered.cache answered)
        (Holds-some CacheOf r.server ok)
        (Holds-then CacheOf CacheOf
          (send_create_message_response env fd h r.result r.token r.server)
          (λ answered.
            forward env h text (get_channel_info answered r.token)
              (get_num_connected_users answered.cache) answered.cache answered)
          (send_create_message-IsCache env fd h r.result r.token r.server ok)
          (λ a k.
            forward-IsCache env h text (get_channel_info a r.token)
              (get_num_connected_users a.cache) a.cache a k))

  with_text-IsCache :
      (body : Str) (o : Option Reply)
      → Holds ReplyOf o
      → Holds (λ (p : Reply × Str). ReplyOf p.0) (Message.with_text body o)
  unfolding Holds
  with_text-IsCache body none k = tt
  with_text-IsCache body (some reply) k = k

  create_from-IsCache :
      (env : Env) (s : Server) (m : Flow Str)
      → CacheOf s
      → Holds (λ (p : Reply × Str). ReplyOf p.0) (Message.create_from env s m)
  unfolding Holds
  create_from-IsCache env s fault ok = tt
  create_from-IsCache env s (exits code) ok = ok
  create_from-IsCache env s (next body) ok =
      with_text-IsCache body (finish s (Message.create_message env s body)) (
        finish-IsCache s (Message.create_message env s body) ok
          (create_message-IsCache env s body ok))

  serve-IsCache :
      (env : Env) (fd : ℕ) (addr : Str) (h : ChatHeader) (input : Str) (s : Server) (q : Request)
      → CacheOf s
      → Holds CacheOf (serve env fd addr h input s q)
  unfolding serve read_and_create_user read_and_destroy_user read_and_create_channel
      read_and_read_channel read_and_update_channel read_and_create_message read_and_read_message
      read_and_login_user read_and_logout_user
  serve-IsCache env fd addr h input s create_user ok =
      Holds-then CacheOf ReplyOf (read_and_create_user env s input h.body_size)
        (λ r. send_create_user_response env fd h r.result r.token r.server)
        (finish_read-IsCache s (read_body failure input h.body_size) (User.create_user env s) ok
          (λ body. create_user-IsCache env s body ok))
        (λ r k. send_create_user-IsCache env fd h r.result r.token r.server k)
  serve-IsCache env fd addr h input s destroy_user ok =
      Holds-then CacheOf ReplyOf (read_and_destroy_user fd s input h.body_size)
        (λ r. (do
          answered ← send_destroy_user_response env fd h r.result r.token r.server
          close_ordinary fd answered))
        (finish_read-IsCache s (read_body failure input h.body_size) (User.destroy_user fd s) ok
          (λ body. destroy_user-IsCache fd s body ok))
        (λ r k.
          Holds-then CacheOf CacheOf (send_destroy_user_response env fd h r.result r.token r.server)
            (close_ordinary fd) (send_destroy_user-IsCache env fd h r.result r.token r.server k)
            (λ a z. close_ordinary-IsCache fd a z))
  serve-IsCache env fd addr h input s create_channel ok =
      Holds-then CacheOf ReplyOf (read_and_create_channel env addr s input h.body_size)
        (λ r. send_create_channel_response env fd h r.result r.token r.server)
        (finish_read-IsCache s (read_body (pos 500) input h.body_size)
          (create_channel_request env addr s) ok
          (λ body. create_channel-IsCache env addr s body ok))
        (λ r k. send_create_channel-IsCache env fd h r.result r.token r.server k)
  serve-IsCache env fd addr h input s read_channel ok =
      Holds-then CacheOf ReplyOf (read_and_read_channel s input h.body_size)
        (λ r. send_read_channel_response env fd h r.result r.token r.server)
        (finish_read-IsCache s (read_body (pos 500) input h.body_size) (Channel.read_channel s) ok
          (λ body. read_channel-IsCache s body ok))
        (λ r k. send_read_channel-IsCache env fd h r.result r.token r.server k)
  serve-IsCache env fd addr h input s update_channel ok =
      Holds-then CacheOf ReplyOf (read_and_update_channel s input h.body_size)
        (λ r. send_update_channel_response env fd h r.result r.token r.server)
        (finish_read-IsCache s (read_body (pos 500) input h.body_size)
          (Channel.Update.update_channel s) ok (λ body. update_channel-IsCache s body ok))
        (λ r k. send_update_channel-IsCache env fd h r.result r.token r.server k)
  serve-IsCache env fd addr h input s create_message ok =
      Holds-then CacheOf (λ p. ReplyOf p.0) (read_and_create_message env s input h.body_size)
        (λ p. deliver env fd h p.0 p.1)
        (create_from-IsCache env s (read_body failure input h.body_size) ok)
        (λ p k. deliver-IsCache env fd h p.0 p.1 k)
  serve-IsCache env fd addr h input s read_message ok =
      Holds-then CacheOf ReplyOf (read_and_read_message s input h.body_size)
        (λ r. send_read_message_response env fd h r.result r.token r.server)
        (finish_read-IsCache s (read_any input h.body_size) (history s) ok
          (λ body. history-IsCache s body ok))
        (λ r k. send_read_message-IsCache env fd h r.result r.token r.server k)
  serve-IsCache env fd addr h input s login ok =
      Holds-then CacheOf ReplyOf (read_and_login_user env fd addr s input h.body_size)
        (λ r. send_login_user_response env fd h r.result r.token r.server)
        (finish_read-IsCache s (read_body failure input h.body_size) (login_user env fd addr s) ok
          (λ body. login-IsCache env fd addr s body ok))
        (λ r k. send_login_user-IsCache env fd h r.result r.token r.server k)
  serve-IsCache env fd addr h input s logout ok =
      Holds-then CacheOf ReplyOf (read_and_logout_user addr s input h.body_size)
        (λ r. send_logout_user_response env fd h r.result r.token r.server)
        (finish_read-IsCache s (read_body failure input h.body_size) (logout_user addr s) ok
          (λ body. logout-IsCache addr s body ok))
        (λ r k. send_logout_user-IsCache env fd h r.result r.token r.server k)
  serve-IsCache env fd addr h input s nothing ok = Holds-some CacheOf s ok
  serve-IsCache env fd addr h input s wrong_type ok = Holds-none CacheOf

  pub handle_request-IsCache :
      (env : Env) (fd : ℕ) (addr : Str) (s : Server)
      → CacheOf s
      → Holds (λ after. CacheOf after.1) (handle_request env fd addr s)
  unfolding handle_request Holds
  handle_request-IsCache env fd addr s ok =
      Holds-bind (λ after. CacheOf after.1) (read_header env.input) _
        (λ got.
          Holds-if (λ after. CacheOf after.1) (not (got.0.version == current_version))
            (some (pos 2, s)) _ ok
            (Holds-then (λ after. CacheOf after.1) CacheOf
              (serve env fd addr got.0 got.1 s (select got.0)) _
              (serve-IsCache env fd addr got.0 got.1 s (select got.0) ok) (λ after k. k)))
