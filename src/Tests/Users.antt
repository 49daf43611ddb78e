-- ===== src/Tests/Users.antt =====
-- The requests on users at a concrete server.
use datacomm_chat_server.Request.Fields.{Fits-of}
use datacomm_chat_server.Prelude.{
  ◌≡◌, refl, false, some, none, [], ◌∷◌, ◌++◌, pos, arith, exits, next, if◌then◌else◌, not, ◌&&◌,
  ◌==◌, List,
}
use datacomm_chat_server.CString.{codes, streq, Str}
use datacomm_chat_server.Records.{Server, ConnectedUser}
use datacomm_chat_server.Request.{Reply}
use datacomm_chat_server.Ndbm.Assoc.{table_ndbm, table_reliable, lookup}
use datacomm_chat_server.Database.{
  get_login_info, get_uuid_with_display_name, get_user_account, success,
}
use datacomm_chat_server.Cache.{
  get_connected_user_by_fd, remove_user_in_cache, insert_user_in_cache, initial_users, no_user,
}
use datacomm_chat_server.Cache.View.{
  IsCache, connected, remove_first, initial_users-IsCache, insert_user_in_cache-connected,
  remove_user_in_cache-connected,
}
use datacomm_chat_server.User.{create_user, destroy_user, drop_user}
use datacomm_chat_server.User.Create.{create_body, create_user_once, new_login, new_account}
use datacomm_chat_server.User.Destroy.{
  destroy_body, destroy_outcome, is_stranger, destroy_user_cases, drop_user-get,
  destroy_user_own_name,
}
use datacomm_chat_server.Auth.{logout_user}
use datacomm_chat_server.Auth.Logout.{logout_user_cases, logged_out}
use datacomm_chat_server.Tests.Data.{
  alice, alice_login, alice_account, alice_entry, one_user, one_user-IsCache, quiet, busy, env_with,
}

abbrev bob : Str
bob = codes "bob"

abbrev bob_body : Str
bob_body = create_body (codes "bo1") bob (codes "secret")

create_user_once_example :
    (after : Server) × (create_user (env_with []) quiet bob_body
      ≡ next (record { result = success; token = codes "bo1"; server = after }))
    × (get_login_info after (codes "bo1")
        ≡ some (new_login (codes "id-new") (codes "bo1") (codes "secret")))
    × (get_uuid_with_display_name after bob ≡ some (codes "id-new"))
    × (get_user_account after (codes "id-new") ≡ some (new_account (codes "id-new") bob))
    × (create_user (env_with []) after (create_body (codes "bo1") bob (codes "other"))
        ≡ exits (pos 3))
unfolding streq get_login_info get_uuid_with_display_name lookup
create_user_once_example =
    create_user_once (env_with []) (env_with []) quiet (codes "bo1") bob (codes "secret")
      (codes "other") (omega arith) (Fits-of 21 (codes "bo1") refl) (Fits-of 21 bob refl)
      (Fits-of 31 (codes "secret") refl) (Fits-of 31 (codes "other") refl) refl refl

logout_user_cases_example : logout_user (codes "10.0.0.7") busy alice ≡ (
    if 0 == 0 && not (streq (codes "0") (codes "10.0.0.7"))
    then exits (pos 2)
    else if not false
    then exits (pos 4)
    else next (record { result = success; token = alice; server = logged_out busy alice_account }))
unfolding streq get_uuid_with_display_name get_user_account lookup
logout_user_cases_example =
    logout_user_cases (codes "10.0.0.7") busy alice (codes "id-alice") alice_account
      (Fits-of 21 alice refl) refl refl refl (omega arith)

destroy_user_cases_example :
    destroy_user 5 busy (destroy_body alice (codes "al1") (codes "secret"))
    ≡ destroy_outcome busy alice
        (is_stranger alice_entry alice_login alice_account alice (codes "secret"))
        alice_account
        (get_login_info busy (codes "al1"))
unfolding streq get_login_info get_user_account lookup get_connected_user_by_fd no_user
destroy_user_cases_example =
    destroy_user_cases 5 busy alice (codes "al1") (codes "secret") alice_entry alice_login
      alice_account (Fits-of 21 alice refl) (Fits-of 21 (codes "al1") refl)
      (Fits-of 31 (codes "secret") refl) refl refl refl

destroy_user_own_name_example :
    (r : Reply) × (destroy_user 5 busy (destroy_body alice (codes "al1") (codes "wrong")) ≡ next r)
    × (get_login_info r.server (codes "al1") ≡ none)
    × (get_user_account r.server (codes "id-alice") ≡ none)
unfolding streq get_login_info get_user_account lookup get_connected_user_by_fd no_user
destroy_user_own_name_example =
    destroy_user_own_name 5 busy alice (codes "al1") (codes "wrong") alice_entry alice_login
      alice_login alice_account (Fits-of 21 alice refl) (Fits-of 21 (codes "al1") refl)
      (Fits-of 31 (codes "wrong") refl) refl refl refl refl refl refl

drop_user-get_example :
    (get_login_info (drop_user busy alice alice_login) (codes "al1")
      ≡ (if streq (codes "al1") (codes "al1") then none else get_login_info busy (codes "al1")))
    × (get_uuid_with_display_name (drop_user busy alice alice_login) (codes "al1") ≡ (
        if streq alice (codes "al1") then none else get_uuid_with_display_name busy (codes "al1")))
    × (get_user_account (drop_user busy alice alice_login) (codes "al1") ≡ (
        if streq (codes "id-alice") (codes "al1")
        then none
        else get_user_account busy (codes "al1")))
drop_user-get_example = drop_user-get busy alice alice_login (codes "al1")

insert_user_in_cache-connected_example :
    (after : List ConnectedUser) × (insert_user_in_cache alice_entry initial_users ≡ some after)
    × IsCache after
    × (connected after ≡ connected initial_users ++ alice_entry ∷ [])
unfolding connected initial_users no_user
insert_user_in_cache-connected_example =
    insert_user_in_cache-connected initial_users alice_entry initial_users-IsCache refl
      (omega arith)

remove_user_in_cache-connected_example :
    IsCache (remove_user_in_cache alice one_user)
    × (connected (remove_user_in_cache alice one_user) ≡ remove_first alice (connected one_user))
remove_user_in_cache-connected_example =
    remove_user_in_cache-connected one_user alice one_user-IsCache
