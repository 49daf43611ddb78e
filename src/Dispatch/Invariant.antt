-- ===== src/Dispatch/Invariant.antt =====
-- The array of connected users stays well-formed, whatever the clients send.
pub mod Handlers
pub mod Updates
use datacomm_chat_server.Database.Update.{
  update_channel_name_and_publicity, add_users_on_channel, store_changed, add_users,
}
use datacomm_chat_server.Cache.{
  connection, insert_user_in_cache, remove_user_in_cache, find_connected_user_with_same_cred,
  get_num_connected_users,
}
use datacomm_chat_server.Auth.Login.{cache-insert_user_account}
use datacomm_chat_server.Accounts.{login_user_account}
use datacomm_chat_server.Database.{
  insert_channel_info, insert_user_account, get_all_channels, success, insert_message,
  get_channel_info,
}
use datacomm_chat_server.Request.Holds.{Holds}
use datacomm_chat_server.Prelude.{
  false, inl, inr, ◌||◌, Bool-cases, Option-cases, next, refl, pos, not, ◌&&◌, ◌≡◌, some, none,
  ◌==◌, ℕ, Option, subst, sym, if◌then◌else◌, Flow, exits, fault,
}
use datacomm_chat_server.Request.Keeps.{
  Keeps, keeps_rules, Keeps-bind, Keeps-then, Keeps-next, Keeps-if, Keeps-fault,
}
use datacomm_chat_server.CString.{Str, streq, codes}
use datacomm_chat_server.Cache.View.{
  IsCache, insert_user_in_cache-IsCache, remove_user_in_cache-connected,
}
use datacomm_chat_server.Request.{Reply, deref, strncpy, finish}
use datacomm_chat_server.Records.{
  Server, Env, UserAccount, UserLogin, token_name_length, ChannelInfo,
}
use datacomm_chat_server.Ndbm.{Ndbm}
use datacomm_chat_server.Prelude.Ends.{◌>>=◌}
use datacomm_chat_server.User
use datacomm_chat_server.Auth
use datacomm_chat_server.Channel
use datacomm_chat_server.Channel.Update
use datacomm_chat_server.Channel.Update.{UpdateRequest}
use datacomm_chat_server.Message

module _ ⦃N : Ndbm⦄ where
  abbrev pub CacheOf : Server → Type 0
  CacheOf s = IsCache s.cache

  abbrev pub ReplyOf : Reply → Type 0
  ReplyOf r = IsCache r.server.cache

  pub finish-IsCache :
      (s : Server) (m : Flow Reply) → CacheOf s → Keeps ReplyOf m → Holds ReplyOf (finish s m)
  unfolding Holds
  finish-IsCache s fault ok k = tt
  finish-IsCache s (exits code) ok k = ok
  finish-IsCache s (next r) ok k = k.at r refl

  -- A handler: what it reads, and what it does with that.
  pub finish_read-IsCache :
      (s : Server) (m : Flow Str) (f : Str → Flow Reply)
      → CacheOf s
      → ((body : Str) → Keeps ReplyOf (f body))
      → Holds ReplyOf (finish s (m >>= f))
  finish_read-IsCache s m f ok k = finish-IsCache s (m >>= f) ok (Keeps-bind m f k)
