-- ===== src/Startup/Admin.antt =====
-- What a started server holds, and that a later start changes nothing.
use datacomm_chat_server.Prelude.{some, ◌≡◌, refl, true, false, Bool-cases, inl, inr, ◌∙◌}
use datacomm_chat_server.Channel.{create_channel}
use datacomm_chat_server.CString.{codes, streq}
use datacomm_chat_server.CString.Tokens.{streq_refl}
use datacomm_chat_server.Ndbm.{Ndbm, Reliable}
use datacomm_chat_server.Records.{Server, Env, UserAccount}
use datacomm_chat_server.Accounts.{admin_name, no_address, generate_user_account}
use datacomm_chat_server.Database.{
  check_duplicate_display_name, check_duplicate_channel_name, get_login_info, get_user_account,
  get_uuid_with_display_name, insert_channel_info, insert_user_login, insert_user_account,
  insert_display_name,
}
use datacomm_chat_server.Database.Laws.{fetch_record-store_record, store_record-success}
use datacomm_chat_server.Database.Channels.{
  StoredAt, get_channel_info-is_some, check_duplicate-get_channel_info,
}
use datacomm_chat_server.Startup.{
  admin_uuid, admin_login, create_admin, create_global_channel, prepare,
}

-- The administrator's account.
abbrev pub admin_account : UserAccount
admin_account = record {
  user_id = admin_uuid;
  display_name = admin_name;
  ip_addr = no_address;
  online_status = false;
  privilege_level = 1;
}

admin_account_built : generate_user_account admin_uuid admin_name ≡ admin_account
unfolding generate_user_account streq
admin_account_built = refl

module _ ⦃N : Ndbm⦄ ⦃R : Reliable⦄ where
  -- On a disk that works, a start on databases without the display name of an administrator makes
  -- one: the login token `admin` with the password `admin`, and an account of privilege level 1
  -- that is offline.
  pub create_admin-records :
      (s : Server)
      → check_duplicate_display_name s admin_name ≡ false
      → (after : Server) × (create_admin s ≡ some after)
        × (get_login_info after admin_name ≡ some admin_login)
        × (get_uuid_with_display_name after admin_name ≡ some admin_uuid)
        × (get_user_account after admin_uuid ≡ some admin_account)
        × (check_duplicate_display_name after admin_name ≡ true)
  unfolding create_admin insert_user_login insert_user_account insert_display_name get_login_info
      get_uuid_with_display_name get_user_account check_duplicate_display_name
  create_admin-records s fresh =
      let named : Server = (insert_display_name s admin_name admin_uuid).1 in
      let logged : Server = (insert_user_login named admin_login).1 in
      let name_there = fetch_record-store_record s.names admin_name admin_name admin_uuid in
      (
        (insert_user_account logged admin_account).1,
        rw (fresh, admin_account_built)
            (rw
              (
                store_record-success s.accounts admin_uuid admin_account,
                store_record-success s.logins admin_name admin_login,
                store_record-success s.names admin_name admin_uuid,
              )
              refl),
        rw
            (
              fetch_record-store_record s.logins admin_name admin_name admin_login,
              streq_refl admin_name,
            )
            refl,
        rw (name_there, streq_refl admin_name) refl,
        rw
            (
              fetch_record-store_record s.accounts admin_uuid admin_uuid admin_account,
              streq_refl admin_uuid,
            )
            refl,
        rw (name_there, streq_refl admin_name) refl,
      )

  -- The name of the global channel is taken after a start.
  create_global_channel-taken :
      (env : Env) (s : Server)
      → check_duplicate_channel_name (create_global_channel env s) (codes "global") ≡ true
  unfolding create_global_channel insert_channel_info create_channel
  create_global_channel-taken env s =
      elim (Bool-cases (check_duplicate_channel_name s (codes "global"))) [
        | inl taken ↦ rw taken taken
        | inr free ↦
            let channel = create_channel env.uuid (codes "global") admin_name false in
            let after : Server = (insert_channel_info s channel).1 in
            let stored : StoredAt after channel.channel_id channel =
              rw
                (
                  fetch_record-store_record s.channels channel.channel_id channel.channel_id
                      channel,
                  streq_refl channel.channel_id,
                )
                refl in
            rw free (
              check_duplicate-get_channel_info after (codes "global")
              ∙ get_channel_info-is_some after channel.channel_id channel stored)
      ]

  create_admin-known :
      (s : Server)
      → (after : Server) × (create_admin s ≡ some after)
        × (check_duplicate_display_name after admin_name ≡ true)
  unfolding create_admin
  create_admin-known s = elim (Bool-cases (check_duplicate_display_name s admin_name)) [
    | inl known ↦ (s, rw known refl, known)
    | inr fresh ↦
        let (after, made, login, uuid, account, known) = create_admin-records s fresh in
        (after, made, known)
  ]

  create_global_channel-names :
      (env : Env) (s : Server)
      → check_duplicate_display_name (create_global_channel env s) admin_name
        ≡ check_duplicate_display_name s admin_name
  unfolding create_global_channel check_duplicate_display_name insert_channel_info
  create_global_channel-names env s =
      elim (Bool-cases (check_duplicate_channel_name s (codes "global"))) [
        | inl taken ↦ rw taken refl
        | inr free ↦ rw free refl
      ]

  prepare_known :
      (env : Env) (s : Server)
      → check_duplicate_display_name s admin_name ≡ true
      → check_duplicate_channel_name s (codes "global") ≡ true
      → prepare env s ≡ some s
  unfolding prepare create_admin create_global_channel
  prepare_known env s known taken = rw known (rw taken refl)

  -- On a disk that works a start succeeds, and a later start, with whatever identifier its global
  -- channel would get, changes nothing.
  pub prepare_again :
      (env again : Env) (s : Server)
      → (after : Server) × (prepare env s ≡ some after) × (prepare again after ≡ some after)
  unfolding prepare
  prepare_again env again s =
      let (admin, made, known) = create_admin-known s in
      (
        create_global_channel env admin,
        rw made refl,
        prepare_known again (create_global_channel env admin)
            (create_global_channel-names env admin ∙ known) (create_global_channel-taken env admin),
      )
