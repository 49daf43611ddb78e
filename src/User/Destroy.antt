-- ===== src/User/Destroy.antt =====
-- What a request to destroy a user is answered, and what it deletes.
use datacomm_chat_server.Prelude.{
  ℕ, ◌≡◌, refl, Bool, not, ◌&&◌, none, some, ◌++◌, ◌∷◌, ◌==◌, if◌then◌else◌, pos, Flow, exits, next,
  fault, arith, Option, Option-cases, inl, inr,
}
use datacomm_chat_server.CString.{Str, etx, streq}
use datacomm_chat_server.CString.Tokens.{streq_refl}
use datacomm_chat_server.Ndbm.{Ndbm, Reliable}
use datacomm_chat_server.Records.{Server, UserLogin, UserAccount, ConnectedUser}
use datacomm_chat_server.Database.{
  success, get_login_info, get_user_account, get_uuid_with_display_name,
}
use datacomm_chat_server.Database.Laws.{fetch_record-delete_record}
use datacomm_chat_server.Cache.{get_connected_user_by_fd}
use datacomm_chat_server.Request.{Reply}
use datacomm_chat_server.Request.Fields.{
  Fits, token_or_fault-field, token_or_fault_last, copy_token-Fits, strncpy-Fits,
}
use datacomm_chat_server.User.{destroy_user, drop_user, wrong_credentials, reject_unknown}

-- The body of a request to destroy a user.
abbrev pub destroy_body : Str → Str → Str → Str
destroy_body display_name login_token password =
    display_name ++ etx ∷ (login_token ++ etx ∷ password)

-- The sender has neither the name nor the password of the request, and is not an administrator.
abbrev pub is_stranger : ConnectedUser → UserLogin → UserAccount → Str → Str → Bool
is_stranger u own a d p =
    not (streq u.dsply_name d) && not (streq own.password p) && a.privilege_level == 0

module _ ⦃N : Ndbm⦄ where
  wrong_credentials-is_stranger :
      (u : ConnectedUser) (own : UserLogin) (a : UserAccount) (d p : Str)
      → wrong_credentials d p u (some own) (some a) ≡ next (is_stranger u own a d p)
  unfolding wrong_credentials
  wrong_credentials-is_stranger u own a d p = ground arith

  -- The reply of a request that deletes a user.
  abbrev pub destroyed : Server → Str → UserLogin → Reply
  destroyed s d login = record { result = success; token = d; server = drop_user s d login }

  abbrev pub destroy_outcome : Server → Str → Bool → UserAccount → Option UserLogin → Flow Reply
  destroy_outcome s d stranger a none =
      if a.privilege_level == 1 then exits (pos 2) else if stranger then exits (pos 3) else fault
  destroy_outcome s d stranger a (some login) =
      if stranger then exits (pos 3) else next (destroyed s d login)

  -- For fields that fit, from a connected sender with a login and an account: a stranger to the
  -- display name and the password of the request is refused with 3, and otherwise the user of the
  -- login token is deleted. For a login token that no user has the answer is 2 to an administrator;
  -- a stranger is refused with 3, and any other sender ends the process.
  pub destroy_user_cases :
      (fd : ℕ) (s : Server) (d t p : Str) (u : ConnectedUser) (own : UserLogin) (a : UserAccount)
      → Fits 21 d
      → Fits 21 t
      → Fits 31 p
      → get_connected_user_by_fd s.cache fd ≡ some u
      → get_login_info s u.login_token ≡ some own
      → get_user_account s u.uuid ≡ some a
      → destroy_user fd s (destroy_body d t p)
        ≡ destroy_outcome s d (is_stranger u own a d p) a (get_login_info s t)
  unfolding destroy_user reject_unknown
  destroy_user_cases fd s d t p u own a hd ht hp eu el ea =
      elim (Option-cases (get_login_info s t)) [
        | inl unknown ↦ ground (
          arith,
          token_or_fault-field d (t ++ etx ∷ p) hd.field,
          token_or_fault-field t p ht.field,
          token_or_fault_last p hp.field,
          copy_token-Fits 21 d hd,
          copy_token-Fits 21 t ht,
          copy_token-Fits 31 p hp,
          strncpy-Fits 21 d hd,
          hd.field.0,
          ht.field.0,
          hp.field.0,
          eu,
          ea,
          el,
          wrong_credentials-is_stranger u own a d p,
          unknown,
        )
        | inr (login, known) ↦ ground (
          arith,
          token_or_fault-field d (t ++ etx ∷ p) hd.field,
          token_or_fault-field t p ht.field,
          token_or_fault_last p hp.field,
          copy_token-Fits 21 d hd,
          copy_token-Fits 21 t ht,
          copy_token-Fits 31 p hp,
          strncpy-Fits 21 d hd,
          hd.field.0,
          ht.field.0,
          hp.field.0,
          eu,
          ea,
          el,
          wrong_credentials-is_stranger u own a d p,
          known,
        )
      ]

module _ ⦃N : Ndbm⦄ ⦃R : Reliable⦄ where
  -- On a disk that works, deleting a user takes the login token, the display name and the account
  -- out of the three databases, and leaves the other records alone.
  pub drop_user-get :
      (s : Server) (d : Str) (login : UserLogin) (j : Str)
      → (get_login_info (drop_user s d login) j
          ≡ (if streq login.login_token j then none else get_login_info s j))
        × (get_uuid_with_display_name (drop_user s d login) j
            ≡ (if streq d j then none else get_uuid_with_display_name s j))
        × (get_user_account (drop_user s d login) j
            ≡ (if streq login.uuid j then none else get_user_account s j))
  unfolding drop_user get_login_info get_uuid_with_display_name get_user_account
  drop_user-get s d login j = (
    fetch_record-delete_record s.logins login.login_token j,
    fetch_record-delete_record s.names d j,
    fetch_record-delete_record s.accounts login.uuid j,
  )

  -- On a disk that works: a connected sender with a stored login and account who sends the own
  -- display name with the login token of any stored user, in fields that fit, succeeds, whatever
  -- the password is. That user's login and account are deleted.
  pub destroy_user_own_name :
      (fd : ℕ) (s : Server) (d t p : Str) (u : ConnectedUser) (own login : UserLogin)
      (a : UserAccount)
      → Fits 21 d
      → Fits 21 t
      → Fits 31 p
      → get_connected_user_by_fd s.cache fd ≡ some u
      → get_login_info s u.login_token ≡ some own
      → get_user_account s u.uuid ≡ some a
      → u.dsply_name ≡ d
      → get_login_info s t ≡ some login
      → login.login_token ≡ t
      → (r : Reply) × (destroy_user fd s (destroy_body d t p) ≡ next r)
        × (get_login_info r.server t ≡ none)
        × (get_user_account r.server login.uuid ≡ none)
  destroy_user_own_name fd s d t p u own login a hd ht hp eu el ea same stored token = (
    destroyed s d login,
    rw (destroy_user_cases fd s d t p u own a hd ht hp eu el ea, stored)
        (rw same (rw (streq_refl d) refl)),
    rw ((drop_user-get s d login t).0, token, streq_refl t) refl,
    rw ((drop_user-get s d login login.uuid).2, streq_refl login.uuid) refl,
  )
