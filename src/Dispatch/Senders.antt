-- ===== src/Dispatch/Senders.antt =====
-- The array of connected users stays well-formed while a response is sent.
use datacomm_chat_server.CString.{Str}
use datacomm_chat_server.Header.{ChatHeader}
use datacomm_chat_server.Response.{
  send_response, write_response, status_ignored, close_if_sent, send_create_message_response,
  send_create_user_response, send_destroy_user_response, send_login_user_response,
  send_create_channel_response, send_read_channel_response, send_update_channel_response,
  send_read_message_response, send_logout_user_response, create_user_body, destroy_user_body,
  login_user_body, create_channel_body, create_message_body, read_channel_body, update_channel_body,
  read_message_body, logout_user_body,
}
use datacomm_chat_server.Records.{Server, Env}
use datacomm_chat_server.Ndbm.{Ndbm}
use datacomm_chat_server.Dispatch.Invariant.{CacheOf}
use datacomm_chat_server.Request.Holds.{Holds}
use datacomm_chat_server.Prelude.{
  ℕ, Option, none, some, Bool, Flow, exits, true, next, false, fault, arith, ℤ,
}

module _ ⦃N : Ndbm⦄ where
  pub send_response-IsCache :
      (size : ℕ) (body : Flow Str) (env : Env) (fd : ℕ) (h : ChatHeader) (s : Server)
      → CacheOf s
      → Holds (λ sent. CacheOf sent.1) (send_response size body env fd h s)
  unfolding send_response write_response Holds
  send_response-IsCache size fault env fd h s ok = tt
  send_response-IsCache size (exits code) env fd h s ok = ok
  send_response-IsCache size (next body) env fd h s ok = ground (arith, ok)

  status_ignored-IsCache :
      (o : Option (Bool × Server))
      → Holds (λ sent. CacheOf sent.1) o
      → Holds CacheOf (status_ignored o)
  unfolding Holds
  status_ignored-IsCache none ok = tt
  status_ignored-IsCache (some (b, s)) ok = ok

  close_if_sent-IsCache :
      (fd : ℕ) (o : Option (Bool × Server))
      → Holds (λ sent. CacheOf sent.1) o
      → Holds CacheOf (close_if_sent fd o)
  unfolding Holds
  close_if_sent-IsCache fd none ok = tt
  close_if_sent-IsCache fd (some (true, s)) ok = ok
  close_if_sent-IsCache fd (some (false, s)) ok = ok

  pub send_create_user-IsCache :
      (env : Env) (fd : ℕ) (h : ChatHeader) (result : ℤ) (token : Str) (s : Server)
      → CacheOf s
      → Holds CacheOf (send_create_user_response env fd h result token s)
  unfolding send_create_user_response
  send_create_user-IsCache env fd h result token s ok =
      status_ignored-IsCache (send_response 1024 (create_user_body result token) env fd h s)
        (send_response-IsCache 1024 (create_user_body result token) env fd h s ok)

  pub send_destroy_user-IsCache :
      (env : Env) (fd : ℕ) (h : ChatHeader) (result : ℤ) (token : Str) (s : Server)
      → CacheOf s
      → Holds CacheOf (send_destroy_user_response env fd h result token s)
  unfolding send_destroy_user_response
  send_destroy_user-IsCache env fd h result token s ok =
      status_ignored-IsCache (send_response 1024 (destroy_user_body result token) env fd h s)
        (send_response-IsCache 1024 (destroy_user_body result token) env fd h s ok)

  pub send_login_user-IsCache :
      (env : Env) (fd : ℕ) (h : ChatHeader) (result : ℤ) (token : Str) (s : Server)
      → CacheOf s
      → Holds CacheOf (send_login_user_response env fd h result token s)
  unfolding send_login_user_response
  send_login_user-IsCache env fd h result token s ok =
      status_ignored-IsCache (send_response 1024 (login_user_body result token) env fd h s)
        (send_response-IsCache 1024 (login_user_body result token) env fd h s ok)

  pub send_create_channel-IsCache :
      (env : Env) (fd : ℕ) (h : ChatHeader) (result : ℤ) (token : Str) (s : Server)
      → CacheOf s
      → Holds CacheOf (send_create_channel_response env fd h result token s)
  unfolding send_create_channel_response
  send_create_channel-IsCache env fd h result token s ok =
      status_ignored-IsCache (send_response 1024 (create_channel_body result token) env fd h s)
        (send_response-IsCache 1024 (create_channel_body result token) env fd h s ok)

  pub send_create_message-IsCache :
      (env : Env) (fd : ℕ) (h : ChatHeader) (result : ℤ) (token : Str) (s : Server)
      → CacheOf s
      → Holds CacheOf (send_create_message_response env fd h result token s)
  unfolding send_create_message_response
  send_create_message-IsCache env fd h result token s ok =
      status_ignored-IsCache (send_response 1024 (create_message_body result token) env fd h s)
        (send_response-IsCache 1024 (create_message_body result token) env fd h s ok)

  pub send_read_channel-IsCache :
      (env : Env) (fd : ℕ) (h : ChatHeader) (result : ℤ) (token : Str) (s : Server)
      → CacheOf s
      → Holds CacheOf (send_read_channel_response env fd h result token s)
  unfolding send_read_channel_response
  send_read_channel-IsCache env fd h result token s ok =
      status_ignored-IsCache (send_response 8192 (read_channel_body result token) env fd h s)
        (send_response-IsCache 8192 (read_channel_body result token) env fd h s ok)

  pub send_update_channel-IsCache :
      (env : Env) (fd : ℕ) (h : ChatHeader) (result : ℤ) (token : Str) (s : Server)
      → CacheOf s
      → Holds CacheOf (send_update_channel_response env fd h result token s)
  unfolding send_update_channel_response
  send_update_channel-IsCache env fd h result token s ok =
      status_ignored-IsCache (send_response 8192 (update_channel_body result token) env fd h s)
        (send_response-IsCache 8192 (update_channel_body result token) env fd h s ok)

  pub send_read_message-IsCache :
      (env : Env) (fd : ℕ) (h : ChatHeader) (result : ℤ) (token : Str) (s : Server)
      → CacheOf s
      → Holds CacheOf (send_read_message_response env fd h result token s)
  unfolding send_read_message_response
  send_read_message-IsCache env fd h result token s ok =
      status_ignored-IsCache (send_response 8392 (read_message_body result token) env fd h s)
        (send_response-IsCache 8392 (read_message_body result token) env fd h s ok)

  pub send_logout_user-IsCache :
      (env : Env) (fd : ℕ) (h : ChatHeader) (result : ℤ) (token : Str) (s : Server)
      → CacheOf s
      → Holds CacheOf (send_logout_user_response env fd h result token s)
  unfolding send_logout_user_response
  send_logout_user-IsCache env fd h result token s ok =
      close_if_sent-IsCache fd (send_response 1024 (logout_user_body result token) env fd h s)
        (send_response-IsCache 1024 (logout_user_body result token) env fd h s ok)
