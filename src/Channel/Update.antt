-- ===== src/Channel/Update.antt =====
-- src/server.c: `read_and_update_channel`, in the stages that its body has: the parsing of the body,
-- the tests of the names, and the update with its reply.
use datacomm_chat_server.Database.Update.{update_channel_name_and_publicity, add_users_on_channel}
use datacomm_chat_server.Prelude.Partial.{is_some}
use datacomm_chat_server.Database.{get_channel_info, check_duplicate_display_name, success}
use datacomm_chat_server.Channel.{channel_head, list_section, one}
use datacomm_chat_server.Records.{Server, ChannelInfo, default_list_size, token_name_length}
use datacomm_chat_server.Ndbm.{Ndbm}
use datacomm_chat_server.CString.{Str, strtol, strtok, to_int, streq, codes}
use datacomm_chat_server.Request.{
  token_or, read_body, reject, copy_token, or_exit, Reply, require, finish, strncpy,
}
use datacomm_chat_server.Prelude.{
  ℕ, ℤ, Option, List, Flow, Bool, [], ◌++◌, pos, next, if◌then◌else◌, replicate, true, negsuc, some,
  ltb, ◌∷◌, ◌||◌, not, suc, none, ◌-◌, length, is_code, false, zero,
}
use datacomm_chat_server.Prelude.Ends.{◌>>=◌, ◌>>◌}

-- A list of names: the loop of `count` rounds, into an array of `room` places. A round without a
-- token ends the request; a round behind the last place overruns the array.
unfoldable pub read_names : ℕ → ℕ → Str → Flow (List Str × Str)
read_names zero room text = next ([], text)
read_names (suc count) room text = do
  (token, rest) ← token_or 400 text
  require (ltb 0 room)
  (names, after) ← read_names count (room - 1) rest
  next (strncpy token_name_length token ∷ names, after)

-- A count that is negative makes no round.
abbrev rounds_of : ℤ → ℕ
rounds_of (pos n) = n
rounds_of (negsuc n) = 0

unfoldable pub read_counted : Str → Flow (List Str × Str)
unfolding read_names token_or strtol to_int
read_counted text = do
  (token, rest) ← token_or 400 text
  read_names (rounds_of (to_int (strtol token))) default_list_size rest

-- What a request says of one of the three lists of a channel.
pub record Alter : Type 0 where
  pub flag : Str
  pub added : List Str
  pub removed : List Str

-- The switch on the flag: "0" has no lists, "1" a list to add, "2" one to remove, and "3" both. With
-- any other flag the default branch goes on without reading a list.
unfoldable pub read_alter : Str → Flow (Alter × Str)
unfolding read_counted token_or
read_alter text = do
  (flag, rest) ← token_or 400 text
  reject (ltb 1 (length flag)) 400
  (added, rest1) ←
      if streq flag one || streq flag (codes "3") then read_counted rest else next ([], rest)
  (removed, rest2) ←
      if streq flag (codes "2") || streq flag (codes "3")
      then read_counted rest1
      else next ([], rest1)
  next (record { flag = flag; added = added; removed = removed }, rest2)

pub record UpdateRequest : Type 0 where
  pub channel_name : Str
  pub is_change_name : Bool
  pub new_channel_name : Str
  pub is_change_publicity : Bool
  pub new_publicity : Bool
  pub users : Alter
  pub admins : Alter
  pub banned : Alter

-- A flag, and where it is "1" the value behind it.
unfoldable pub read_optional : Str → Flow (Option Str × Str)
unfolding token_or
read_optional text = do
  (flag, rest) ← token_or 400 text
  if streq flag one
      then (do (value, after) ← token_or 400 rest; next (some value, after))
      else next (none, rest)

abbrev pub text_or_empty : Option Str → Str
text_or_empty none = []
text_or_empty (some t) = t

unfoldable pub parse_update : Str → Flow UpdateRequest
unfolding read_optional read_alter token_or strtok
parse_update body = do
  (token1, rest1) ← token_or 400 body
  channel_name ← copy_token token_name_length token1
  (new_name, rest2) ← read_optional rest1
  (new_publicity, rest3) ← read_optional rest2
  (users, rest4) ← read_alter rest3
  (admins, rest5) ← read_alter rest4
  (banned, rest6) ← read_alter rest5
  reject (is_some (strtok rest6)) 400
  next (record {
    channel_name = channel_name;
    is_change_name = is_some new_name;
    new_channel_name = strncpy token_name_length (text_or_empty new_name);
    is_change_publicity = is_some new_publicity;
    new_publicity = streq (text_or_empty new_publicity) one;
    users = users;
    admins = admins;
    banned = banned;
  })

-- The places of an array of names.
abbrev pub places : List Str → List Str
places names = names ++ replicate (default_list_size - length names) []

module _ ⦃N : Ndbm⦄ where
  -- Every name of the list is the display name of a user.
  unfoldable pub all_known : Server → List Str → Bool
  all_known s [] = true
  all_known s (name ∷ names) =
      let rest = all_known s names in if check_duplicate_display_name s name then rest else false

  -- The tests behind the parsing, all with the result 404.
  unfoldable pub check_update : Server → UpdateRequest → Flow (Unit {0})
  unfolding all_known
  check_update s r = do
    or_exit (get_channel_info s r.channel_name) 404 >>= λ channel. next tt
    reject (not (all_known s r.users.added)) 404
    reject (not (all_known s r.users.removed)) 404
    reject (not (all_known s r.admins.added)) 404
    reject (not (all_known s r.admins.removed)) 404
    reject (not (all_known s r.banned.added)) 404
    reject (not (all_known s r.banned.removed)) 404

  -- The two writes. Both go by the channel's old name. A write that fails ends the request with 500.
  unfoldable pub write_name : Server → UpdateRequest → ℤ × Server
  write_name s r =
      if r.is_change_name || r.is_change_publicity
      then update_channel_name_and_publicity s r.channel_name r.new_channel_name r.new_publicity
      else (success, s)

  unfoldable pub write_users : Server → UpdateRequest → ℤ × Server
  write_users s r =
      if not (streq r.users.flag (codes "0"))
      then add_users_on_channel s r.channel_name (places r.users.added)
      else (success, s)

  abbrev failed_update : Server → Reply
  failed_update s = record { result = pos 500; token = []; server = s }

  -- The reply: the channel under its new name, with its three lists.
  unfoldable pub updated_text : ChannelInfo → Str
  updated_text c =
      channel_head c
      ++ (list_section c.user_list ++ (list_section c.admin_list ++ list_section c.banned_list))

  unfoldable pub updated : Server → Option ChannelInfo → Reply
  updated s none = failed_update s
  updated s (some channel) = record { result = success; token = updated_text channel; server = s }

  unfoldable pub reply_updated : Server → UpdateRequest → Flow Reply
  unfolding updated get_channel_info
  reply_updated s r = do
    let name = if r.is_change_name then r.new_channel_name else r.channel_name
    require (ltb (length name) token_name_length)
    next (updated s (get_channel_info s name))

  unfoldable pub apply_update : Server → UpdateRequest → Flow Reply
  unfolding write_name write_users reply_updated
  apply_update s r =
      let (named, s1) = write_name s r in
      let (added, s2) = write_users s1 r in
      if not (is_code named 0)
      then next (failed_update s1)
      else if not (is_code added 0)
      then next (failed_update s2)
      else reply_updated s2 r

  unfoldable pub update_channel : Server → Str → Flow Reply
  unfolding parse_update check_update apply_update
  update_channel s body = do
    request ← parse_update body
    check_update s request
    apply_update s request

  unfoldable pub read_and_update_channel : Server → Str → ℕ → Option Reply
  unfolding read_body update_channel
  read_and_update_channel s input body_size =
      finish s (do body ← read_body (pos 500) input body_size; update_channel s body)
