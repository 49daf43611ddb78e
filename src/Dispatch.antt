-- ===== src/Dispatch.antt =====
-- src/server.c: `handle_request`, which reads a header and hands the body to the handler of its
-- object and type.
pub mod Refusals
pub mod Senders
pub mod Invariant
pub mod Serving
pub mod Reach
pub mod Delivery
pub mod Messages
pub mod Logins
pub mod Logouts
pub mod Visits
pub mod Sessions
use datacomm_chat_server.Auth.{read_and_login_user, read_and_logout_user}
use datacomm_chat_server.Channel.Update.{read_and_update_channel}
use datacomm_chat_server.Channel.{read_and_create_channel, read_and_read_channel}
use datacomm_chat_server.Message.{
  create_message_ack, read_and_create_message, read_and_read_message,
}
use datacomm_chat_server.User.{read_and_create_user, read_and_destroy_user}
use datacomm_chat_server.Request.{Reply}
use datacomm_chat_server.CString.{Str}
use datacomm_chat_server.Database.{get_channel_info}
use datacomm_chat_server.Database.Update.{check_if_user_in_channel}
use datacomm_chat_server.Records.{Env, Server, ChannelInfo, closed, ConnectedUser}
use datacomm_chat_server.Response.{
  send_create_message_response, send_create_user_response, send_destroy_user_response,
  send_create_channel_response, send_read_channel_response, send_update_channel_response,
  send_read_message_response, send_login_user_response, send_logout_user_response,
}
use datacomm_chat_server.Cache.{get_connected_user_by_fd, get_num_connected_users}
use datacomm_chat_server.Ndbm.{Ndbm}
use datacomm_chat_server.Header.{ChatHeader, read_header}
use datacomm_chat_server.Prelude.{
  ℕ, if◌then◌else◌, ◌==◌, Option, some, ℤ, List, is_code, not, ◌∷◌, pos, suc, zero, [], none,
}
use datacomm_chat_server.Prelude.Partial.{◌>>=◌}

abbrev pub current_version : ℕ
current_version = 1

-- What `switch (header.object)` and the tests of the type select.
pub data Request : Type 0 where
  create_user destroy_user : Request
  create_channel read_channel update_channel : Request
  create_message read_message : Request
  login logout : Request
  -- A branch that is empty, and the default branch.
  nothing : Request
  -- The assertion behind the last test of the type.
  wrong_type : Request

abbrev by_type {ℓ} : {A : Type ℓ} → ℕ → A → A → A → A → A → A
by_type type on_create on_read on_update on_destroy other =
    if type == 1
    then on_create
    else if type == 2
    then on_read
    else if type == 3
    then on_update
    else if type == 4
    then on_destroy
    else other

-- AUTH has no branch for the type READ.
unfoldable pub select : ChatHeader → Request
select h =
    if h.object == 1
    then by_type h.type create_user nothing nothing destroy_user wrong_type
    else if h.object == 2
    then by_type h.type create_channel read_channel update_channel nothing wrong_type
    else if h.object == 3
    then by_type h.type create_message read_message nothing nothing wrong_type
    else if h.object == 4
    then by_type h.type login wrong_type nothing logout wrong_type
    else nothing

module _ ⦃N : Ndbm⦄ where
  -- Behind the response to DESTROY USER: the sender is looked up once more, and the socket of an
  -- ordinary user is closed.
  unfoldable pub close_ordinary : ℕ → Server → Option Server
  unfolding get_connected_user_by_fd
  close_ordinary fd s = do
    sender ← get_connected_user_by_fd s.cache fd
    some (if sender.privilege_level == 0 then record s { events = closed fd ∷ s.events } else s)

  -- The loop over the connected users: those in the channel get the text of the request. The channel
  -- may be null, and is read in every round.
  unfoldable pub forward :
      Env → ChatHeader → Str → Option ChannelInfo → ℕ → List ConnectedUser → Server → Option Server
  unfolding send_create_message_response check_if_user_in_channel
  forward env header text channel zero us s = some s
  forward env header text channel (suc n) [] s = some s
  forward env header text none (suc n) (u ∷ us) s = none
  forward env header text (some channel) (suc n) (u ∷ us) s = do
    after ←
        if check_if_user_in_channel u.dsply_name channel
        then send_create_message_response env u.fd header (pos 5) text s
        else some s
    forward env header text (some channel) n us after

  -- CREATE MESSAGE: an acknowledgement by the client ends here.
  unfoldable pub deliver : Env → ℕ → ChatHeader → Reply → Str → Option Server
  unfolding send_create_message_response get_channel_info forward get_num_connected_users
  deliver env fd header reply text =
      if is_code reply.result create_message_ack then some reply.server else do
        answered ← send_create_message_response env fd header reply.result reply.token reply.server
        forward env header text (get_channel_info answered reply.token)
            (get_num_connected_users answered.cache) answered.cache answered

  unfoldable pub serve : Env → ℕ → Str → ChatHeader → Str → Server → Request → Option Server
  unfolding close_ordinary deliver
  serve env fd addr h input s create_user = do
    r ← read_and_create_user env s input h.body_size
    send_create_user_response env fd h r.result r.token r.server
  serve env fd addr h input s destroy_user = do
    r ← read_and_destroy_user fd s input h.body_size
    answered ← send_destroy_user_response env fd h r.result r.token r.server
    close_ordinary fd answered
  serve env fd addr h input s create_channel = do
    r ← read_and_create_channel env addr s input h.body_size
    send_create_channel_response env fd h r.result r.token r.server
  serve env fd addr h input s read_channel = do
    r ← read_and_read_channel s input h.body_size
    send_read_channel_response env fd h r.result r.token r.server
  serve env fd addr h input s update_channel = do
    r ← read_and_update_channel s input h.body_size
    send_update_channel_response env fd h r.result r.token r.server
  serve env fd addr h input s create_message = do
    (r, text) ← read_and_create_message env s input h.body_size
    deliver env fd h r text
  serve env fd addr h input s read_message = do
    r ← read_and_read_message s input h.body_size
    send_read_message_response env fd h r.result r.token r.server
  serve env fd addr h input s login = do
    r ← read_and_login_user env fd addr s input h.body_size
    send_login_user_response env fd h r.result r.token r.server
  serve env fd addr h input s logout = do
    r ← read_and_logout_user addr s input h.body_size
    send_logout_user_response env fd h r.result r.token r.server
  serve env fd addr h input s nothing = some s
  serve env fd addr h input s wrong_type = none

  -- The status, and the server after the request. `none` is the end of the process.
  unfoldable pub handle_request : Env → ℕ → Str → Server → Option (ℤ × Server)
  handle_request env fd addr s = do
    (header, input) ← read_header env.input
    if not (header.version == current_version)
        then some (pos 2, s)
        else do after ← serve env fd addr header input s (select header); some (pos 0, after)
