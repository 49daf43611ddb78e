-- ===== src/Tests/Channels.antt =====
-- The requests on channels, and the start of a server, at concrete values.
use datacomm_chat_server.Request.{Reply}
use datacomm_chat_server.Channel.Adding.{adding, update_channel-adds}
use datacomm_chat_server.Channel.Request.{IsNames, render, request_of, parse_update-render}
use datacomm_chat_server.Request.Fields.{Fits-of}
use datacomm_chat_server.Prelude.{
  ◌≡◌, refl, true, false, some, [], ◌∷◌, ◌++◌, pos, arith, exits, if◌then◌else◌, not, ◌&&◌, List,
  next,
}
use datacomm_chat_server.Prelude.Partial.{is_some}
use datacomm_chat_server.CString.{codes, streq, Str, etx}
use datacomm_chat_server.Records.{Server, ChannelInfo}
use datacomm_chat_server.Ndbm.Assoc.{table_ndbm, table_reliable, lookup, keys}
use datacomm_chat_server.Database.{
  check_duplicate_display_name, check_duplicate_channel_name, success, get_channel_info,
  find_channel, fetch_record,
}
use datacomm_chat_server.Database.Channels.{StoredAt}
use datacomm_chat_server.Database.Update.{user_in_list, update_channel_name_and_publicity}
use datacomm_chat_server.Accounts.{admin_name}
use datacomm_chat_server.Cache.{get_display_name_in_cache}
use datacomm_chat_server.Channel.{create_channel_request, store_channel, occupied}
use datacomm_chat_server.Channel.Create.{create_channel_body, create_channel_request_cases}
use datacomm_chat_server.Channel.Members.{free-IsFilled}
use datacomm_chat_server.Channel.Update.{
  update_channel, Alter, UpdateRequest, parse_update, all_known,
}
use datacomm_chat_server.Channel.Rename.{update_channel_name-stores}
use datacomm_chat_server.Startup.{prepare}
use datacomm_chat_server.Startup.Admin.{prepare_again}
use datacomm_chat_server.Tests.Data.{alice, lobby, quiet, busy, env_with}

create_channel_request_cases_example :
    create_channel_request
      (env_with [])
      (codes "10.0.0.7")
      busy
      (create_channel_body (codes "dev") alice true)
    ≡ (if not (is_some (get_display_name_in_cache busy.cache (codes "10.0.0.7") alice))
        then exits (pos 500)
        else if streq alice admin_name && not (check_duplicate_display_name busy alice)
        then exits (pos 404)
        else if check_duplicate_channel_name busy (codes "dev")
        then exits (pos 409)
        else store_channel (env_with []) busy (codes "dev") alice true)
create_channel_request_cases_example =
    create_channel_request_cases (env_with []) (codes "10.0.0.7") busy (codes "dev") alice true
      (Fits-of 21 (codes "dev") refl) (Fits-of 21 alice refl)

-- A list of members with three places.
abbrev members : List Str
members = alice ∷ [] ∷ [] ∷ []

update_channel_name-stores_example :
    (after : Server) × (update_channel_name_and_publicity busy (codes "lobby") (codes "hall") false
      ≡ (success, after))
    × ((j : Str)
        → fetch_record after.channels j ≡ (
            if streq (codes "id-lobby") j
            then some (record lobby { channel_name = codes "hall"; publicity = false })
            else fetch_record busy.channels j))
unfolding get_channel_info find_channel streq lookup keys
update_channel_name-stores_example =
    update_channel_name-stores busy (codes "lobby") (codes "hall") false lobby (omega arith) refl

-- A request to make the channel private: no change of the name, and no change of a list.
abbrev private_body : Str
private_body =
    codes "lobby"
    ++ etx
      ∷ (codes "0"
          ++ etx
            ∷ (codes "1"
                ++ etx ∷ (codes "0" ++ etx ∷ (codes "0" ++ etx ∷ (codes "0" ++ etx ∷ codes "0")))))

abbrev private_request : UpdateRequest
private_request =
    let nothing : Alter = record { flag = codes "0"; added = []; removed = [] } in
    record {
      channel_name = codes "lobby";
      is_change_name = false;
      new_channel_name = [];
      is_change_publicity = true;
      new_publicity = false;
      users = nothing;
      admins = nothing;
      banned = nothing;
    }

prepare_again_example :
    (after : Server) × (prepare (env_with []) quiet ≡ some after)
    × (prepare (env_with []) after ≡ some after)
prepare_again_example = prepare_again (env_with []) (env_with []) quiet

-- The lobby gets a second member, by the request that the server reads from its body.
abbrev bob : Str
bob = codes "bob"

abbrev two_users : Server
two_users = record busy { names = some ((alice, codes "id-alice") ∷ (bob, codes "id-bob") ∷ []) }

bob-IsNames : IsNames (bob ∷ [])
bob-IsNames = record { room = omega arith; fits = (Fits-of 21 bob refl, tt) }

parse_update-render_example :
    parse_update (render (adding (codes "lobby") (bob ∷ [])))
    ≡ next (request_of (adding (codes "lobby") (bob ∷ [])))
parse_update-render_example = parse_update-render (adding (codes "lobby") (bob ∷ [])) (record {
  name_fits = Fits-of 21 (codes "lobby") refl;
  new_name_fits = tt;
  users_fit = bob-IsNames;
  admins_fit = tt;
  banned_fit = tt;
})

update_channel-adds_example :
    (r : Reply) × (d : ChannelInfo) × (update_channel two_users
        (render (adding (codes "lobby") (bob ∷ [])))
      ≡ next r)
    × (r.result ≡ success)
    × StoredAt r.server (codes "id-lobby") d
    × (occupied d.user_list ≡ alice ∷ bob ∷ [])
    × (d.channel_name ≡ codes "lobby")
unfolding get_channel_info find_channel streq lookup keys all_known occupied user_in_list
    check_duplicate_display_name
update_channel-adds_example =
    update_channel-adds two_users (codes "lobby") (bob ∷ []) lobby (Fits-of 21 (codes "lobby") refl)
      bob-IsNames refl refl ((λ e. absurd (cc e)), free-IsFilled 63) (refl, tt) (omega arith)
