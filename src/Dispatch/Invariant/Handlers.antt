-- ===== src/Dispatch/Invariant/Handlers.antt =====
-- The handlers of users, logins, channels and messages keep the array of connected users well-formed.
use datacomm_chat_server.Dispatch.Invariant.{CacheOf, ReplyOf}
use datacomm_chat_server.Cache.{
  connection, insert_user_in_cache, remove_user_in_cache, find_connected_user_with_same_cred,
  get_num_connected_users,
}
use datacomm_chat_server.Auth.Login.{cache-insert_user_account}
use datacomm_chat_server.Accounts.{login_user_account}
use datacomm_chat_server.Database.{
  insert_channel_info, insert_user_account, get_all_channels, success, insert_message,
}
use datacomm_chat_server.Prelude.{
  next, refl, pos, not, ◌&&◌, ◌≡◌, some, none, ◌==◌, ℕ, Option, subst, sym, if◌then◌else◌,
}
use datacomm_chat_server.Request.Keeps.{
  Keeps, keeps_rules, Keeps-bind, Keeps-then, Keeps-next, Keeps-if, Keeps-fault,
}
use datacomm_chat_server.CString.{Str}
use datacomm_chat_server.Cache.View.{
  IsCache, insert_user_in_cache-IsCache, remove_user_in_cache-connected,
}
use datacomm_chat_server.Request.{Reply, deref, strncpy}
use datacomm_chat_server.Records.{
  Server, Env, UserAccount, UserLogin, token_name_length, ChannelInfo,
}
use datacomm_chat_server.Ndbm.{Ndbm}
use datacomm_chat_server.Prelude.Ends.{◌>>=◌}
use datacomm_chat_server.User
use datacomm_chat_server.Auth
use datacomm_chat_server.Channel
use datacomm_chat_server.Message

module _ ⦃N : Ndbm⦄ where
  pub create_user-IsCache :
      (env : Env) (s : Server) (body : Str)
      → CacheOf s
      → Keeps ReplyOf (User.create_user env s body)
  unfolding User.create_user User.store_user
  create_user-IsCache env s body ok = search keeps_rules depth 20

  pub destroy_user-IsCache :
      (fd : ℕ) (s : Server) (body : Str) → CacheOf s → Keeps ReplyOf (User.destroy_user fd s body)
  unfolding User.destroy_user User.drop_user
  destroy_user-IsCache fd s body ok = search keeps_rules depth 30

  pub create_channel-IsCache :
      (env : Env) (addr : Str) (s : Server) (body : Str)
      → CacheOf s
      → Keeps ReplyOf (Channel.create_channel_request env addr s body)
  unfolding Channel.create_channel_request Channel.store_channel insert_channel_info
  create_channel-IsCache env addr s body ok = search keeps_rules depth 30

  pub read_channel-IsCache :
      (s : Server) (body : Str) → CacheOf s → Keeps ReplyOf (Channel.read_channel s body)
  unfolding Channel.read_channel
  read_channel-IsCache s body ok = search keeps_rules depth 30

  Keeps-deref {ℓ} :
      {A : Type ℓ} {P : A → Type 0} (o : Option A)
      → ((a : A) → o ≡ some a → P a)
      → Keeps P (deref o)
  Keeps-deref none h = Keeps-fault
  Keeps-deref (some a) h = Keeps-next a (h a refl)

  pub connect-IsCache :
      (env : Env) (fd : ℕ) (s : Server) (a : UserAccount) (l : UserLogin)
      → CacheOf s
      → Keeps CacheOf (Auth.connect env fd s a l)
  unfolding Auth.connect
  connect-IsCache env fd s a l ok =
      let u = connection fd env.time a l in
      Keeps-then IsCache (deref (insert_user_in_cache u s.cache))
        (λ c. next (record s { cache = c }))
        (Keeps-deref _ (λ after e. insert_user_in_cache-IsCache u s.cache after ok e))
        (λ after h. Keeps-next (record s { cache = after }) h)

  pub reestablish-IsCache :
      (env : Env) (fd : ℕ) (s : Server) (token : Str) (a : Option UserAccount) (l : UserLogin)
      → CacheOf s
      → Keeps ReplyOf (Auth.reestablish env fd s token a l)
  unfolding Auth.reestablish
  reestablish-IsCache env fd s token a l ok =
      Keeps-bind (deref a)
        (λ known. do after ← Auth.connect env fd s known l; next (reply_of after))
        λ known.
          Keeps-then CacheOf (Auth.connect env fd s known l) (λ after. next (reply_of after))
            (connect-IsCache env fd s known l ok) (λ after h. Keeps-next (reply_of after) h)
    where
      reply_of : Server → Reply
      reply_of after = record {
        result = pos 9;
        token = strncpy token_name_length token;
        server = after;
      }

  pub accept_login-IsCache :
      (env : Env) (fd : ℕ) (addr : Str) (s : Server) (a : UserAccount) (l : UserLogin)
      → CacheOf s
      → Keeps ReplyOf (Auth.accept_login env fd addr s a l)
  unfolding Auth.accept_login
  accept_login-IsCache env fd addr s a l ok =
      let online = login_user_account a addr in
      let stored = (insert_user_account s online).1 in
      let ok' : CacheOf stored = subst IsCache (sym (cache-insert_user_account s online)) ok in
      let body = Auth.login_response online (Auth.or_empty (get_all_channels stored)) in
      let known =
        find_connected_user_with_same_cred online stored.cache fd
        && not (get_num_connected_users stored.cache == 0) in
      Keeps-then CacheOf (if known then next stored else Auth.connect env fd stored online l)
        (λ after. next (record { result = success; token = body; server = after }))
        (Keeps-if known (next stored) (Auth.connect env fd stored online l) (Keeps-next stored ok')
          (connect-IsCache env fd stored online l ok'))
        (λ after h. Keeps-next (record { result = success; token = body; server = after }) h)

  pub login-IsCache :
      (env : Env) (fd : ℕ) (addr : Str) (s : Server) (body : Str)
      → CacheOf s
      → Keeps ReplyOf (Auth.login_user env fd addr s body)
  unfolding Auth.login_user
  login-IsCache env fd addr s body ok =
      search (keeps_rules, reestablish-IsCache, accept_login-IsCache) depth 30

  pub logout-IsCache :
      (addr : Str) (s : Server) (body : Str)
      → CacheOf s
      → Keeps ReplyOf (Auth.logout_user addr s body)
  unfolding Auth.logout_user remove_user_in_cache insert_user_account
  logout-IsCache addr s body ok =
      let left : (name : Str) → IsCache (remove_user_in_cache name s.cache) =
        λ name. (remove_user_in_cache-connected s.cache name ok).0 in
      search (keeps_rules, left) depth 30

  pub post_message-IsCache :
      (env : Env) (s : Server) (name content timestamp : Str) (c : ChannelInfo)
      → CacheOf s
      → Keeps CacheOf (Message.post_message env s name content timestamp c)
  unfolding Message.post_message insert_message
  post_message-IsCache env s name content timestamp c ok = search keeps_rules depth 20

  pub answer_message-IsCache :
      (env : Env) (s : Server) (token name content timestamp : Str) (c : Option ChannelInfo)
      → CacheOf s
      → Keeps ReplyOf (Message.answer_message env s token name content timestamp c)
  unfolding Message.answer_message
  answer_message-IsCache env s token name content timestamp none ok = Keeps-next _ ok
  answer_message-IsCache env s token name content timestamp (some c) ok =
      Keeps-then CacheOf (Message.post_message env s name content timestamp c)
        (λ after. next (record { result = success; token = token; server = after }))
        (post_message-IsCache env s name content timestamp c ok)
        (λ after h. Keeps-next (record { result = success; token = token; server = after }) h)

  pub create_message-IsCache :
      (env : Env) (s : Server) (body : Str)
      → CacheOf s
      → Keeps ReplyOf (Message.create_message env s body)
  unfolding Message.create_message
  create_message-IsCache env s body ok = search (keeps_rules, answer_message-IsCache) depth 30

  pub history-IsCache :
      (s : Server) (body : Str) → CacheOf s → Keeps ReplyOf (Message.history s body)
  unfolding Message.history
  history-IsCache s body ok = search keeps_rules depth 30
