-- ===== src/Dispatch/Invariant/Updates.antt =====
-- The update of a channel keeps the array of connected users.
use datacomm_chat_server.Dispatch.Invariant.{CacheOf, ReplyOf}
use datacomm_chat_server.Database.Update.{
  update_channel_name_and_publicity, add_users_on_channel, store_changed, add_users,
}
use datacomm_chat_server.Database.{get_channel_info}
use datacomm_chat_server.Records.{token_name_length}
use datacomm_chat_server.Prelude.{
  take, false, inl, inr, ◌||◌, Bool-cases, Option-cases, refl, ◌≡◌, some, none, Option, subst, sym,
}
use datacomm_chat_server.Request.Keeps.{Keeps, keeps_rules}
use datacomm_chat_server.CString.{Str, streq, codes}
use datacomm_chat_server.Cache.View.{IsCache}
use datacomm_chat_server.Records.{Server, ChannelInfo}
use datacomm_chat_server.Ndbm.{Ndbm}
use datacomm_chat_server.Channel
use datacomm_chat_server.Channel.Update
use datacomm_chat_server.Channel.Update.{UpdateRequest}

module _ ⦃N : Ndbm⦄ where
  open N use {dbm_open, dbm_store}

  store_changed-cache :
      (change : ChannelInfo → ChannelInfo) (s : Server) (name : Str)
      → (store_changed change s name).1.cache ≡ s.cache
  unfolding store_changed
  store_changed-cache change s name = elim (Option-cases (dbm_open false s.channels)) [
    | inl e ↦ rw (e, store_changed) refl
    | inr (db, e) ↦
        rw (e, store_changed)
          (elim (Option-cases (get_channel_info s name)) [
            | inl c ↦ rw c refl
            | inr (channel, c) ↦
                rw c (elim (Option-cases (dbm_store db channel.channel_id (change channel))) [
                  | inl d ↦ rw d refl
                  | inr (after, d) ↦ rw d refl
                ])
          ])
  ]

  write_name-cache :
      (s : Server) (r : UpdateRequest) → (Channel.Update.write_name s r).1.cache ≡ s.cache
  unfolding Channel.Update.write_name update_channel_name_and_publicity
  write_name-cache s r = elim (Bool-cases (r.is_change_name || r.is_change_publicity)) [
    | inl changed ↦ rw changed (
        store_changed-cache
          (λ c. record c {
            channel_name = take token_name_length r.new_channel_name;
            publicity = r.new_publicity;
          })
          s r.channel_name)
    | inr same ↦ rw same refl
  ]

  write_users-cache :
      (s : Server) (r : UpdateRequest) → (Channel.Update.write_users s r).1.cache ≡ s.cache
  unfolding Channel.Update.write_users add_users_on_channel
  write_users-cache s r = elim (Bool-cases (streq r.users.flag (codes "0"))) [
    | inl changed ↦ rw changed refl
    | inr same ↦ rw same (
        store_changed-cache
          (λ c. record c {
            user_list = add_users c.user_list (Channel.Update.places r.users.added);
          })
          s r.channel_name)
  ]

  updated-cache :
      (s : Server) (c : Option ChannelInfo) → (Channel.Update.updated s c).server.cache ≡ s.cache
  unfolding Channel.Update.updated
  updated-cache s none = refl
  updated-cache s (some c) = refl

  pub reply_updated-IsCache :
      (s : Server) (r : UpdateRequest)
      → CacheOf s
      → Keeps ReplyOf (Channel.Update.reply_updated s r)
  unfolding Channel.Update.reply_updated
  reply_updated-IsCache s r ok =
      let answered : (c : Option ChannelInfo) → ReplyOf (Channel.Update.updated s c) =
        λ c. subst IsCache (sym (updated-cache s c)) ok in
      search (keeps_rules, answered) depth 20

  pub apply_update-IsCache :
      (s : Server) (r : UpdateRequest) → CacheOf s → Keeps ReplyOf (Channel.Update.apply_update s r)
  unfolding Channel.Update.apply_update
  apply_update-IsCache s r ok =
      let s1 = (Channel.Update.write_name s r).1 in
      let s2 = (Channel.Update.write_users s1 r).1 in
      let ok1 : IsCache s1.cache = subst IsCache (sym (write_name-cache s r)) ok in
      let ok2 : IsCache s2.cache = subst IsCache (sym (write_users-cache s1 r)) ok1 in
      search (keeps_rules, ok1, ok2, reply_updated-IsCache) depth 20

  pub update_channel-IsCache :
      (s : Server) (body : Str) → CacheOf s → Keeps ReplyOf (Channel.Update.update_channel s body)
  unfolding Channel.Update.update_channel
  update_channel-IsCache s body ok = search (keeps_rules, apply_update-IsCache) depth 30
