-- ===== src/Auth/Login.antt =====
-- What a login does: the two refusals, and the new entry among the connected users.
use datacomm_chat_server.CString.Tokens.{streq_refl}
use datacomm_chat_server.Database.Laws.{get_user_account-cache, get_user_account-insert}
use datacomm_chat_server.Request.{Reply}
use datacomm_chat_server.Cache.View.{IsCache, connected, insert_user_in_cache-connected}
use datacomm_chat_server.Accounts.{login_user_account, admin_name}
use datacomm_chat_server.Cache.{
  get_num_connected_users, find_connected_user_with_same_cred, insert_user_in_cache,
}
use datacomm_chat_server.Util.Spaces.{compare_strings_refl, squeeze, compare_strings-squeeze}
use datacomm_chat_server.Util.{compare_strings}
use datacomm_chat_server.Database.{
  get_login_info, get_user_account, insert_user_account, success, get_all_channels,
}
use datacomm_chat_server.Request.Fields.{
  Fits, token_or_fault-field, token_or_fault_last, copy_token-Fits,
}
use datacomm_chat_server.Records.{UserAccount, Env, Server, ConnectedUser, UserLogin, max_clients}
use datacomm_chat_server.Auth.{
  connected_elsewhere, login_user, accept_login, login_response, or_empty,
}
use datacomm_chat_server.CString.{Str, etx, streq, is_empty}
use datacomm_chat_server.Ndbm.{Ndbm, Reliable}
use datacomm_chat_server.Prelude.{
  ◌≡◌, ◌++◌, ℕ, List, false, some, next, ◌∷◌, exits, true, suc, arith, pos, zero, refl, [],
  if◌then◌else◌, length, ◌<◌, take_all, ◌≢◌, ◌⊎◌, Bool-cases, inl, inr, ◌∙◌, subst,
}

-- An account that is offline is connected nowhere else.
connected_elsewhere_offline :
    (a : UserAccount) (addr : Str) (n : ℕ) (us : List ConnectedUser)
    → a.online_status ≡ false
    → connected_elsewhere (some a) addr n us ≡ next false
unfolding connected_elsewhere
connected_elsewhere_offline a addr zero us off = refl
connected_elsewhere_offline a addr (suc n) [] off = refl
connected_elsewhere_offline a addr (suc n) (u ∷ us) off =
    ground (arith, connected_elsewhere_offline a addr n us off)

abbrev pub login_body : Str → Str → Str
login_body login_token password = login_token ++ etx ∷ password

module _ ⦃N : Ndbm⦄ ⦃R : Reliable⦄ (env : Env) (fd : ℕ) (addr : Str) (s : Server) (t p : Str)
    (l : UserLogin) (a : UserAccount) (ht : Fits 21 t) (hp : Fits 31 p)
    (stored : get_login_info s t ≡ some l) (token : l.login_token ≡ t) where
  -- A wrong password is refused with 1.
  pub login_user_wrong :
      compare_strings l.password p ≡ false
      → login_user env fd addr s (login_body t p) ≡ exits (pos 1)
  unfolding login_user
  login_user_wrong wrong = ground (
    arith,
    token_or_fault-field t p ht.field,
    token_or_fault_last p hp.field,
    copy_token-Fits 21 t ht,
    copy_token-Fits 31 p hp,
  )

  module _ (right : compare_strings l.password p ≡ true)
      (account : get_user_account s l.uuid ≡ some a) (off : a.online_status ≡ false) where
    -- With the right password and an account that is offline the login is accepted.
    pub login_user-accept :
        login_user env fd addr s (login_body t p) ≡ accept_login env fd addr s a l
    unfolding login_user
    login_user-accept = ground (
      arith,
      token_or_fault-field t p ht.field,
      token_or_fault_last p hp.field,
      copy_token-Fits 21 t ht,
      copy_token-Fits 31 p hp,
      compare_strings_refl t,
      connected_elsewhere_offline a addr (get_num_connected_users s.cache) s.cache off,
    )

-- The account and the entry of a user who has logged in from an address.
abbrev pub online_at : UserAccount → Str → UserAccount
online_at a addr = record a {
  ip_addr = addr;
  online_status = true;
  privilege_level = if streq a.display_name admin_name then 1 else a.privilege_level;
}

abbrev pub entry : ℕ → ℕ → Str → UserAccount → UserLogin → ConnectedUser
entry fd now addr a l = record {
  fd = fd;
  dsply_name = a.display_name;
  ip_address = addr;
  login_token = l.login_token;
  uuid = a.user_id;
  privilege_level = (online_at a addr).privilege_level;
  access_time = now;
}

login_user_account-online_at :
    (a : UserAccount) (addr : Str) → length addr < 16 → login_user_account a addr ≡ online_at a addr
unfolding login_user_account
login_user_account-online_at a addr h = rw (take_all 16 addr (omega arith))

module _ ⦃N : Ndbm⦄ where
  pub cache-insert_user_account :
      (s : Server) (a : UserAccount) → (insert_user_account s a).1.cache ≡ s.cache
  unfolding insert_user_account
  cache-insert_user_account s a = refl

module _ ⦃N : Ndbm⦄ ⦃R : Reliable⦄ where
  -- The reply to a user who is not connected already.
  pub accept_login-fresh :
      (env : Env) (fd : ℕ) (addr : Str) (s : Server) (a : UserAccount) (l : UserLogin)
      (cache : List ConnectedUser)
      → length addr < 16
      → find_connected_user_with_same_cred (online_at a addr) s.cache fd ≡ false
      → insert_user_in_cache (entry fd env.time addr a l) s.cache ≡ some cache
      → let stored = (insert_user_account s (online_at a addr)).1 in
        accept_login env fd addr s a l
        ≡ next (record {
          result = success;
          token = login_response (online_at a addr) (or_empty (get_all_channels stored));
          server = record stored { cache = cache };
        })
  unfolding accept_login
  accept_login-fresh env fd addr s a l cache short unknown inserted = rw (
    login_user_account-online_at a addr short,
    cache-insert_user_account s (online_at a addr),
    unknown,
    inserted,
  )

  -- On a disk that works, for a user with a display name who is not connected already, from an
  -- address of less than 16 bytes, with a well-formed array of connected users that has room: an
  -- accepted login stores the account with the client's address and as online, and the user joins
  -- the connected ones, behind them.
  pub accept_login-connects :
      (env : Env) (fd : ℕ) (addr : Str) (s : Server) (a : UserAccount) (l : UserLogin)
      → length addr < 16
      → is_empty a.display_name ≡ false
      → IsCache s.cache
      → length (connected s.cache) < max_clients
      → find_connected_user_with_same_cred (online_at a addr) s.cache fd ≡ false
      → (r : Reply) × (accept_login env fd addr s a l ≡ next r)
        × (r.result ≡ success)
        × (get_user_account r.server a.user_id ≡ some (online_at a addr))
        × IsCache r.server.cache
        × (connected r.server.cache ≡ connected s.cache ++ entry fd env.time addr a l ∷ [])
  accept_login-connects env fd addr s a l short named ok room unknown =
      let online = online_at a addr in
      let stored = (insert_user_account s online).1 in
      let (cache, inserted, ok', grown) =
        insert_user_in_cache-connected s.cache (entry fd env.time addr a l) ok named room in
      (
        record {
          result = success;
          token = login_response online (or_empty (get_all_channels stored));
          server = record stored { cache = cache };
        },
        accept_login-fresh env fd addr s a l cache short unknown inserted,
        refl,
        get_user_account-cache stored cache a.user_id
            ∙ ground (arith, get_user_account-insert s online a.user_id, streq_refl a.user_id),
        ok',
        grown,
      )

module _ ⦃N : Ndbm⦄ ⦃R : Reliable⦄ where
  -- On a disk that works: a login decides by the password. With fields that fit, an address of less
  -- than 16 bytes, for a stored user with a display name who is offline and not among the connected
  -- ones from there, and with a well-formed array of connected users that has room, a password that
  -- differs in more than white space is refused with 1, and any other is accepted: the account
  -- becomes online at the client's address, and the user joins the connected ones.
  pub login_user-decides :
      (env : Env) (fd : ℕ) (addr : Str) (s : Server) (t p : Str) (l : UserLogin) (a : UserAccount)
      → Fits 21 t
      → Fits 31 p
      → length addr < 16
      → get_login_info s t ≡ some l
      → l.login_token ≡ t
      → get_user_account s l.uuid ≡ some a
      → a.user_id ≡ l.uuid
      → a.online_status ≡ false
      → is_empty a.display_name ≡ false
      → IsCache s.cache
      → length (connected s.cache) < max_clients
      → find_connected_user_with_same_cred (online_at a addr) s.cache fd ≡ false
      → ((squeeze l.password ≢ squeeze p)
          × (login_user env fd addr s (login_body t p) ≡ exits (pos 1)))
        ⊎ ((squeeze l.password ≡ squeeze p)
            × ((r : Reply) × (login_user env fd addr s (login_body t p) ≡ next r)
                × (r.result ≡ success)
                × (get_user_account r.server l.uuid ≡ some (online_at a addr))
                × IsCache r.server.cache
                × (connected r.server.cache
                    ≡ connected s.cache ++ entry fd env.time addr a l ∷ [])))
  login_user-decides env fd addr s t p l a ht hp short stored token account id off named ok room
        unknown =
      elim (Bool-cases (compare_strings l.password p)) [
        | inl right ↦
            let (r, accepted, result, online, ok', grown) =
              accept_login-connects env fd addr s a l short named ok room unknown in
            inr (
              (compare_strings-squeeze l.password p).0 right,
              (
                r,
                login_user-accept env fd addr s t p l a ht hp stored token right account off
                    ∙ accepted,
                result,
                subst (λ u. get_user_account r.server u ≡ some (online_at a addr)) id online,
                ok',
                grown,
              ),
            )
        | inr wrong ↦ inl (
          (λ e. cc (wrong, (compare_strings-squeeze l.password p).1 e)),
          login_user_wrong env fd addr s t p l a ht hp stored token wrong,
        )
      ]
