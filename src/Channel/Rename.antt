-- ===== src/Channel/Rename.antt =====
-- src/my_ndbm.c, `update_channel_name_and_publicity`, and what `read_and_update_channel` makes of it.
use datacomm_chat_server.Prelude.{
  ◌≡◌, refl, ap, sym, ◌∙◌, Bool, true, false, Option, none, some, if◌then◌else◌, arith,
  Option-cases, inl, inr, next, [], length, ◌<◌, take, take_all, subst,
}
use datacomm_chat_server.CString.{Str, streq}
use datacomm_chat_server.CString.Tokens.{streq_refl}
use datacomm_chat_server.Ndbm.{Ndbm, Reliable}
use datacomm_chat_server.Records.{Server, ChannelInfo}
use datacomm_chat_server.Database.{success, get_channel_info, fetch_record}
use datacomm_chat_server.Database.Laws.{fetch_record-dbm_fetch}
use datacomm_chat_server.Database.Channels.{StoredAt}
use datacomm_chat_server.Database.Update.{store_changed, update_channel_name_and_publicity}
use datacomm_chat_server.Request.{strncpy}
use datacomm_chat_server.Records.{token_name_length}
use datacomm_chat_server.Prelude.Partial.{is_some}
use datacomm_chat_server.Request.Keeps.{Keeps, keeps_rules}
use datacomm_chat_server.Channel.Update.{UpdateRequest, text_or_empty, parse_update, write_name}

-- A request that changes no name has none.
Nameless : UpdateRequest → Type 0
Nameless r = r.is_change_name ≡ false → r.new_channel_name ≡ []

no_name : (o : Option Str) → is_some o ≡ false → strncpy token_name_length (text_or_empty o) ≡ []
no_name none h = refl
no_name (some t) h = cc

parse_update-Nameless : (body : Str) → Keeps Nameless (parse_update body)
unfolding parse_update Nameless
parse_update-Nameless body = search (keeps_rules, no_name) depth 30

module _ ⦃N : Ndbm⦄ ⦃R : Reliable⦄ where
  open N use {dbm_open, dbm_store}

  pub store_changed-stores :
      (change : ChannelInfo → ChannelInfo) (s : Server) (name : Str) (c : ChannelInfo)
      → get_channel_info s name ≡ some c
      → (after : Server) × (store_changed change s name ≡ (success, after))
        × ((j : Str)
            → fetch_record after.channels j
              ≡ (if streq c.channel_id j then some (change c) else fetch_record s.channels j))
  unfolding store_changed get_channel_info
  store_changed-stores change s name c found = elim (Option-cases (dbm_open false s.channels)) [
    | inl shut ↦ absurd (ground (arith, shut, found))
    | inr (db, opened) ↦
        let (g, stored) = R.stores db c.channel_id (change c) in
        (
          record s { channels = g },
          rw (opened, store_changed) (rw found (rw stored refl)),
          λ j.
              fetch_record-dbm_fetch g j
              ∙ N.fetch-store db g c.channel_id j (change c) stored
              ∙ ap (λ v. if streq c.channel_id j then some (change c) else v)
                  (N.fetch-open false s.channels db j opened
                    ∙ sym (fetch_record-dbm_fetch s.channels j)),
        )
  ]

  -- On a disk that works, the channel that is found under a name gets its new name, which with its NUL
  -- fits the array of 21 bytes, and its new publicity, keeps its members and its creator, and the
  -- records of the other channels stay.
  pub update_channel_name-stores :
      (s : Server) (name new_name : Str) (publicity : Bool) (c : ChannelInfo)
      → length new_name < 21
      → get_channel_info s name ≡ some c
      → (after : Server) × (update_channel_name_and_publicity s name new_name publicity
          ≡ (success, after))
        × ((j : Str)
            → fetch_record after.channels j ≡ (
                if streq c.channel_id j
                then some (record c { channel_name = new_name; publicity = publicity })
                else fetch_record s.channels j))
  unfolding update_channel_name_and_publicity
  update_channel_name-stores s name new_name publicity c fits found =
      let whole : take 21 new_name ≡ new_name = take_all 21 new_name (omega arith) in
      subst
        (λ n.
          (after : Server) × (update_channel_name_and_publicity s name new_name publicity
            ≡ (success, after))
          × ((j : Str)
              → fetch_record after.channels j ≡ (
                  if streq c.channel_id j
                  then some (record c { channel_name = n; publicity = publicity })
                  else fetch_record s.channels j)))
        whole
        (store_changed-stores
          (λ c. record c { channel_name = take 21 new_name; publicity = publicity }) s name c found)

  -- On a disk that works, a parsed request that changes the publicity of a channel that exists, and
  -- not its name, stores the channel without a name.
  pub write_name_publicity :
      (s : Server) (body : Str) (r : UpdateRequest) (c : ChannelInfo)
      → parse_update body ≡ next r
      → r.is_change_name ≡ false
      → r.is_change_publicity ≡ true
      → get_channel_info s r.channel_name ≡ some c
      → (after : Server) × (write_name s r ≡ (success, after))
        × StoredAt after c.channel_id (record c { channel_name = []; publicity = r.new_publicity })
  unfolding write_name Nameless
  write_name_publicity s body r c parsed same publicity found =
      let unnamed = (parse_update-Nameless body).at r parsed same in
      let none_long : length r.new_channel_name < 21 = rw unnamed (omega arith) in
      let (after, stored, there) =
        update_channel_name-stores s r.channel_name r.new_channel_name r.new_publicity c none_long
          found in
      (
        after,
        rw (same, publicity) stored,
        there c.channel_id ∙ rw (streq_refl c.channel_id, unnamed) refl,
      )
