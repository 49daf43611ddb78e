-- ===== src/Database/Update.antt =====
-- src/my_ndbm.c: the two functions that change a stored channel, and `check_if_user_in_channel`.
use datacomm_chat_server.Prelude.{
  Bool, true, false, not, ◌&&◌, none, some, List, [], ◌∷◌, if◌then◌else◌, ℤ, take,
}
use datacomm_chat_server.CString.{Str, streq, is_empty}
use datacomm_chat_server.Ndbm.{Ndbm}
use datacomm_chat_server.Records.{ChannelInfo, Server, token_name_length}
use datacomm_chat_server.Database.{failure, success, get_channel_info}

-- The loop goes over all places of the list and skips the empty ones.
unfoldable pub user_in_list : Str → List Str → Bool
user_in_list name [] = false
user_in_list name (u ∷ us) =
    let rest = user_in_list name us in if not (is_empty u) && streq name u then true else rest

unfoldable pub check_if_user_in_channel : Str → ChannelInfo → Bool
unfolding user_in_list
check_if_user_in_channel name channel = user_in_list name channel.user_list

-- The inner loop for one member: it blanks the entries equal to the member, and stops at the first
-- entry that is empty.
unfoldable pub blank_member : Str → List Str → List Str
blank_member member [] = []
blank_member member (u ∷ us) =
    let rest = blank_member member us in
    if is_empty u then u ∷ us else if streq member u then [] ∷ rest else u ∷ rest

-- The outer loop: the members up to the first free place.
unfoldable pub blank_members : List Str → List Str → List Str
unfolding blank_member
blank_members [] us = us
blank_members (m ∷ ms) us =
    let rest = blank_members ms (blank_member m us) in if is_empty m then us else rest

-- The second loop writes entries to the places from the first free one on, up to the first entry
-- that is empty, at most 21 bytes of each.
unfoldable pub fill_places : List Str → List Str → List Str
fill_places [] us = []
fill_places (p ∷ ps) [] = p ∷ ps
fill_places (p ∷ ps) (u ∷ us) =
    if is_empty u then p ∷ ps else take token_name_length u ∷ fill_places ps us

unfoldable pub add_from_free : List Str → List Str → List Str
unfolding fill_places
add_from_free [] us = []
add_from_free (m ∷ ms) us = if is_empty m then fill_places (m ∷ ms) us else m ∷ add_from_free ms us

unfoldable pub add_users : List Str → List Str → List Str
unfolding blank_members add_from_free
add_users user_list users_to_add = add_from_free user_list (blank_members user_list users_to_add)

module _ ⦃N : Ndbm⦄ where
  open N use {File, dbm_open, dbm_store}

  -- The database is opened without `O_CREAT`, the channel is found by its name, changed, and stored
  -- under its identifier.
  unfoldable pub store_changed : (ChannelInfo → ChannelInfo) → Server → Str → ℤ × Server
  store_changed change s name = elim (dbm_open false s.channels) [
    | none ↦ (failure, s)
    | some db ↦ elim (get_channel_info s name) [
      | none ↦ (failure, s)
      | some channel ↦ elim (dbm_store db channel.channel_id (change channel)) [
        | none ↦ (failure, s)
        | some after ↦ (success, record s { channels = after })
      ]
    ]
  ]

  -- `strncpy(channel_name, new_channel_name, TOKEN_NAME_LENGTH)`: of a name of 21 bytes or more the
  -- first 21 are kept, without a NUL.
  unfoldable pub update_channel_name_and_publicity : Server → Str → Str → Bool → ℤ × Server
  unfolding store_changed
  update_channel_name_and_publicity s name new_name new_publicity =
      store_changed
        (λ c. record c {
          channel_name = take token_name_length new_name;
          publicity = new_publicity;
        })
        s name

  unfoldable pub add_users_on_channel : Server → Str → List Str → ℤ × Server
  unfolding store_changed add_users
  add_users_on_channel s name users_to_add =
      store_changed (λ c. record c { user_list = add_users c.user_list users_to_add }) s name
