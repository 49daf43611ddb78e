-- ===== src/Channel/Create.antt =====
-- What a request to create a channel is answered, and the channel that it stores.
use datacomm_chat_server.Prelude.{
  ℕ, ◌≡◌, refl, Bool, true, false, not, ◌&&◌, some, ◌++◌, ◌∷◌, [], ◌+◌, ◌<◌, if◌then◌else◌, pos,
  exits, next, arith, Bool-cases, Option-cases, inl, inr, length, replicate, take_all, List, suc,
  zero,
}
use datacomm_chat_server.Prelude.Partial.{is_some}
use datacomm_chat_server.CString.{Str, etx, streq}
use datacomm_chat_server.CString.Tokens.{streq_refl, eq_of_streq, IsField, strtok-field}
use datacomm_chat_server.Ndbm.{Ndbm, Reliable}
use datacomm_chat_server.Records.{Server, Env, ConnectedUser, ChannelInfo}
use datacomm_chat_server.Accounts.{admin_name}
use datacomm_chat_server.Cache.{get_display_name_in_cache, first_among, get_num_connected_users}
use datacomm_chat_server.Database.{
  success, check_duplicate_display_name, check_duplicate_channel_name, insert_channel_info,
}
use datacomm_chat_server.Database.Laws.{fetch_record-store_record, store_record-success}
use datacomm_chat_server.Database.Channels.{
  StoredAt, get_channel_info-is_some, check_duplicate-get_channel_info,
}
use datacomm_chat_server.Request.{Reply, token_or}
use datacomm_chat_server.Request.Fields.{
  Fits, token_or_fault-field, token_or_fault_last, copy_token-Fits, strncpy-Fits,
}
use datacomm_chat_server.Channel.{
  create_channel, create_channel_request, store_channel, publicity_digit, check_creator,
  read_publicity,
}

-- The body of a request to create a channel.
abbrev pub create_channel_body : Str → Str → Bool → Str
create_channel_body channel_name display_name publicity =
    channel_name ++ etx ∷ (display_name ++ etx ∷ publicity_digit publicity)

digit-IsField : (b : Bool) → IsField (publicity_digit b)
digit-IsField true = (refl, ((ground arith, ground arith), tt))
digit-IsField false = (refl, ((ground arith, ground arith), tt))

read_publicity-digit : (b : Bool) → read_publicity (publicity_digit b) ≡ next b
unfolding read_publicity streq
read_publicity-digit true = refl
read_publicity-digit false = refl

token_or_field :
    (code : ℕ) (f rest : Str) → IsField f → token_or code (f ++ etx ∷ rest) ≡ next (f, rest)
unfolding token_or
token_or_field code f rest h = rw (strtok-field f rest h, token_or)

-- A name that was found among the connected users is the name that was looked for.
first_among-name :
    (addr name : Str) (n : ℕ) (us : List ConnectedUser) (u : ConnectedUser)
    → first_among (λ u. streq u.ip_address addr && streq u.dsply_name name) n us ≡ some u
    → u.dsply_name ≡ name
unfolding first_among
first_among-name addr name zero us u e = absurd (cc)
first_among-name addr name (suc n) [] u e = absurd (cc)
first_among-name addr name (suc n) (v ∷ us) u e =
    elim (Bool-cases (streq v.ip_address addr && streq v.dsply_name name)) [
      | inl found ↦ ground (arith, found, e, eq_of_streq v.dsply_name name)
      | inr other ↦ first_among-name addr name n us u (ground (arith, other, e))
    ]

get_display_name-same :
    (cache : List ConnectedUser) (addr name found : Str)
    → get_display_name_in_cache cache addr name ≡ some found
    → found ≡ name
unfolding get_display_name_in_cache
get_display_name-same cache addr name found e =
    let test = λ (u : ConnectedUser). streq u.ip_address addr && streq u.dsply_name name in
    let n = get_num_connected_users cache in
    elim (Option-cases (first_among test n cache)) [
      | inl gone ↦ absurd (ground (arith, gone, e))
      | inr (u, there) ↦ ground (arith, there, e, first_among-name addr name n cache u there)
    ]

module _ ⦃N : Ndbm⦄ where
  -- For fields that fit: a sender whose name is not connected from the sender's address is refused
  -- with 500, the administrator whose name is stored nowhere with 404, and a taken channel name
  -- with 409; otherwise the channel is handed to `store_channel`. The answer 403 is never given.
  pub create_channel_request_cases :
      (env : Env) (addr : Str) (s : Server) (c d : Str) (publicity : Bool)
      → Fits 21 c
      → Fits 21 d
      → create_channel_request env addr s (create_channel_body c d publicity) ≡ (
          if not (is_some (get_display_name_in_cache s.cache addr d))
          then exits (pos 500)
          else if streq d admin_name && not (check_duplicate_display_name s d)
          then exits (pos 404)
          else if check_duplicate_channel_name s c
          then exits (pos 409)
          else store_channel env s c d publicity)
  unfolding create_channel_request check_creator
  create_channel_request_cases env addr s c d publicity hc hd =
      elim (Option-cases (get_display_name_in_cache s.cache addr d)) [
        | inl unknown ↦ ground (
          arith,
          token_or_fault-field c (d ++ etx ∷ publicity_digit publicity) hc.field,
          token_or_field 400 d (publicity_digit publicity) hd.field,
          token_or_fault_last (publicity_digit publicity) (digit-IsField publicity),
          copy_token-Fits 21 c hc,
          copy_token-Fits 21 d hd,
          unknown,
          read_publicity-digit publicity,
        )
        | inr (found, known) ↦ ground (
          arith,
          token_or_fault-field c (d ++ etx ∷ publicity_digit publicity) hc.field,
          token_or_field 400 d (publicity_digit publicity) hd.field,
          token_or_fault_last (publicity_digit publicity) (digit-IsField publicity),
          copy_token-Fits 21 c hc,
          copy_token-Fits 21 d hd,
          known,
          get_display_name-same s.cache addr d found known,
          streq_refl d,
          read_publicity-digit publicity,
        )
      ]

-- A new channel: its creator is its only member and its only administrator.
abbrev pub new_channel : Str → Str → Str → Bool → ChannelInfo
new_channel uuid c d publicity = record {
  channel_id = uuid;
  creator = d;
  user_list = d ∷ replicate 63 [];
  admin_list = d ∷ replicate 63 [];
  banned_list = replicate 64 [];
  channel_name = c;
  publicity = publicity;
}

channel_built :
    (uuid c d : Str) (publicity : Bool)
    → length uuid < 37
    → length c < 21
    → Fits 21 d
    → create_channel uuid c d publicity ≡ new_channel uuid c d publicity
unfolding create_channel
channel_built uuid c d publicity hu hc hd =
    rw (take_all 37 uuid (omega arith), take_all 21 c (omega arith), strncpy-Fits 21 d hd)

module _ ⦃N : Ndbm⦄ ⦃R : Reliable⦄ where
  -- On a disk that works, for a generated identifier of less than 37 bytes, a name of less than 20
  -- bytes and a creator's name that fits: the channel is stored as the record under its identifier,
  -- with its creator as the only member and administrator, the reply is its name and ETX, and its
  -- name is taken from then on.
  pub store_channel-found :
      (env : Env) (s : Server) (c d : Str) (publicity : Bool)
      → length env.uuid < 37
      → length c + 1 < 21
      → Fits 21 d
      → (r : Reply) × (store_channel env s c d publicity ≡ next r)
        × (r.result ≡ success)
        × (r.token ≡ c ++ etx ∷ [])
        × StoredAt r.server env.uuid (new_channel env.uuid c d publicity)
        × (check_duplicate_channel_name r.server c ≡ true)
  unfolding store_channel insert_channel_info
  store_channel-found env s c d publicity hu hc hd =
      let channel = new_channel env.uuid c d publicity in
      let after : Server = (insert_channel_info s channel).1 in
      let stored : StoredAt after env.uuid channel = ground (
        arith,
        fetch_record-store_record s.channels env.uuid env.uuid channel,
        streq_refl env.uuid,
      ) in
      let named = get_channel_info-is_some after env.uuid channel stored in
      (
        record { result = success; token = c ++ etx ∷ []; server = after },
        rw (channel_built env.uuid c d publicity hu (omega arith) hd) (
            rw (store_record-success s.channels env.uuid channel, take_all 21 c (omega arith))
              (ground arith)),
        refl,
        refl,
        stored,
        ground (arith, named, check_duplicate-get_channel_info after c),
      )
