-- ===== src/User/Create.antt =====
-- What the creation of a user does to the databases.
use datacomm_chat_server.CString.Tokens.{streq_refl}
use datacomm_chat_server.Database.Laws.{fetch_record-store_record}
use datacomm_chat_server.Accounts.{
  no_address, admin_name, generate_user_login, generate_user_account,
}
use datacomm_chat_server.Prelude.{
  ◌≡◌, ◌∷◌, ◌++◌, arith, if◌then◌else◌, exits, next, pos, length, false, ◌<◌, take_all, some, none,
  refl,
}
use datacomm_chat_server.Prelude.Partial.{is_some}
use datacomm_chat_server.CString.{Str, etx, streq}
use datacomm_chat_server.Ndbm.{Ndbm, Reliable}
use datacomm_chat_server.Records.{Server, Env, UserLogin, UserAccount}
use datacomm_chat_server.Database.{
  get_login_info, check_duplicate_display_name, success, get_uuid_with_display_name,
  get_user_account,
}
use datacomm_chat_server.Request.Fields.{
  Fits, token_or_fault-field, token_or_fault_last, copy_token-Fits, strncpy-Fits,
}
use datacomm_chat_server.User.{store_user, create_user}

-- The body of a request to create a user.
abbrev pub create_body : Str → Str → Str → Str
create_body login_token display_name password =
    login_token ++ etx ∷ (display_name ++ etx ∷ password)

module _ ⦃N : Ndbm⦄ where
  -- For fields that fit, the outcome is decided by the two look-ups: 3 where both the login token
  -- and the display name are taken, 1 for the token alone, 2 for the name alone; otherwise the user
  -- is stored and the reply carries the login token.
  pub create_user_cases :
      (env : Env) (s : Server) (t d p : Str)
      → Fits 21 t
      → Fits 21 d
      → Fits 31 p
      → create_user env s (create_body t d p) ≡ (
          if is_some (get_login_info s t)
          then (if check_duplicate_display_name s d then exits (pos 3) else exits (pos 1))
          else if check_duplicate_display_name s d
          then exits (pos 2)
          else next (record { result = success; token = t; server = store_user s env.uuid t d p }))
  unfolding create_user
  create_user_cases env s t d p ht hd hp = ground (
    arith,
    token_or_fault-field t (d ++ etx ∷ p) ht.field,
    token_or_fault-field d p hd.field,
    token_or_fault_last p hp.field,
    copy_token-Fits 21 t ht,
    copy_token-Fits 21 d hd,
    copy_token-Fits 31 p hp,
    strncpy-Fits 21 t ht,
  )

-- The records of a new user.
abbrev pub new_login : Str → Str → Str → UserLogin
new_login uuid t p = record { login_token = t; password = p; uuid = uuid }

abbrev pub new_account : Str → Str → UserAccount
new_account uuid d = record {
  user_id = uuid;
  display_name = d;
  ip_addr = no_address;
  online_status = false;
  privilege_level = if streq d admin_name then 1 else 0;
}

module _ ⦃N : Ndbm⦄ ⦃R : Reliable⦄ (s : Server) (uuid t d p : Str) (hu : length uuid < 37)
    (ht : Fits 21 t) (hd : Fits 21 d) (hp : Fits 31 p) where
  user_login_built : generate_user_login t p uuid ≡ new_login uuid t p
  unfolding generate_user_login
  user_login_built = rw (strncpy-Fits 21 t ht, strncpy-Fits 31 p hp, take_all 37 uuid (omega arith))

  user_account_built : generate_user_account uuid d ≡ new_account uuid d
  unfolding generate_user_account
  user_account_built = rw (strncpy-Fits 21 d hd, take_all 37 uuid (omega arith))

  -- Storing a user adds one record to each of three databases and leaves the other records and the
  -- array of connected users alone.
  pub store_user-get :
      (j : Str)
      → (get_login_info (store_user s uuid t d p) j
          ≡ (if streq t j then some (new_login uuid t p) else get_login_info s j))
        × (get_uuid_with_display_name (store_user s uuid t d p) j
            ≡ (if streq d j then some uuid else get_uuid_with_display_name s j))
        × (get_user_account (store_user s uuid t d p) j
            ≡ (if streq uuid j then some (new_account uuid d) else get_user_account s j))
        × ((store_user s uuid t d p).cache ≡ s.cache)
  unfolding store_user get_login_info get_uuid_with_display_name get_user_account
  store_user-get j = (
    rw user_login_built (fetch_record-store_record s.logins t j (new_login uuid t p)),
    fetch_record-store_record s.names d j uuid,
    rw user_account_built (fetch_record-store_record s.accounts uuid j (new_account uuid d)),
    refl,
  )

  -- The three records of the new user.
  pub store_user-there :
      (get_login_info (store_user s uuid t d p) t ≡ some (new_login uuid t p))
      × (get_uuid_with_display_name (store_user s uuid t d p) d ≡ some uuid)
      × (get_user_account (store_user s uuid t d p) uuid ≡ some (new_account uuid d))
  store_user-there = (
    ground (arith, (store_user-get t).0, streq_refl t),
    ground (arith, (store_user-get d).1, streq_refl d),
    ground (arith, (store_user-get uuid).2, streq_refl uuid),
  )

module _ ⦃N : Ndbm⦄ where
  -- The test for a taken display name agrees with the look-up of its identifier.
  pub check_duplicate-get_uuid :
      (s : Server) (d : Str)
      → check_duplicate_display_name s d ≡ is_some (get_uuid_with_display_name s d)
  unfolding check_duplicate_display_name get_uuid_with_display_name
  check_duplicate-get_uuid s d = refl

module _ ⦃N : Ndbm⦄ ⦃R : Reliable⦄ where
  -- On a disk that works, with a generated identifier of less than 37 bytes and fields that fit: a
  -- new user with a free login token and a free display name is stored, and the three databases
  -- lead to each other: the token to the password and the identifier, the name to the identifier,
  -- and the identifier to the account, which is offline. A second request with that token and name,
  -- whatever its password, is refused with 3.
  pub create_user_once :
      (env again : Env) (s : Server) (t d p q : Str)
      → length env.uuid < 37
      → Fits 21 t
      → Fits 21 d
      → Fits 31 p
      → Fits 31 q
      → get_login_info s t ≡ none
      → get_uuid_with_display_name s d ≡ none
      → (after : Server) × (create_user env s (create_body t d p)
          ≡ next (record { result = success; token = t; server = after }))
        × (get_login_info after t ≡ some (new_login env.uuid t p))
        × (get_uuid_with_display_name after d ≡ some env.uuid)
        × (get_user_account after env.uuid ≡ some (new_account env.uuid d))
        × (create_user again after (create_body t d q) ≡ exits (pos 3))
  create_user_once env again s t d p q hu ht hd hp hq free_t free_d = (
    after,
    rw (create_user_cases env s t d p ht hd hp, free_t, check_duplicate-get_uuid s d, free_d),
    there.0,
    there.1,
    there.2,
    rw (
      create_user_cases again after t d q ht hd hq,
      there.0,
      check_duplicate-get_uuid after d,
      there.1,
    ),
  )
    where
      after : Server
      after = store_user s env.uuid t d p

      there :
          (get_login_info after t ≡ some (new_login env.uuid t p))
          × (get_uuid_with_display_name after d ≡ some env.uuid)
          × (get_user_account after env.uuid ≡ some (new_account env.uuid d))
      there = store_user-there s env.uuid t d p hu ht hd hp
