-- ===== src/Auth/Logout.antt =====
-- What a logout does: the refusals, and the entry that leaves the connected users.
use datacomm_chat_server.Request.{Reply}
use datacomm_chat_server.Auth.Login.{cache-insert_user_account}
use datacomm_chat_server.CString.Tokens.{streq_refl}
use datacomm_chat_server.Database.Laws.{get_user_account-cache, get_user_account-insert}
use datacomm_chat_server.Request.Fields.{Fits, token_or_fault_last, copy_token-Fits, strncpy-Fits}
use datacomm_chat_server.CString.{Str, streq}
use datacomm_chat_server.Cache.{remove_user_in_cache}
use datacomm_chat_server.Cache.View.{
  IsCache, connected, remove_first, remove_user_in_cache-connected,
}
use datacomm_chat_server.Database.{
  insert_user_account, get_user_account, get_uuid_with_display_name, success,
}
use datacomm_chat_server.Auth.{logout_user}
use datacomm_chat_server.Accounts.{no_address, logout_user_account}
use datacomm_chat_server.Ndbm.{Ndbm, Reliable}
use datacomm_chat_server.Records.{UserAccount, Server}
use datacomm_chat_server.Prelude.{
  ◌≡◌, false, some, ◌≤◌, if◌then◌else◌, ◌==◌, ◌&&◌, ◌∙◌, not, arith, exits, pos, next, true, ap,
  sym, refl,
}

-- The account of a user who has logged out.
abbrev pub offline : UserAccount → UserAccount
offline a = record a { ip_addr = no_address; online_status = false }

module _ ⦃N : Ndbm⦄ where
  -- The server after a logout that was accepted.
  abbrev pub logged_out : Server → UserAccount → Server
  logged_out s a = record (insert_user_account s (offline a)).1 {
    cache = remove_user_in_cache a.display_name s.cache;
  }

  -- For a display name that fits, of a stored user of privilege level 0 or 1 whose account has that
  -- name: a logout is refused with 2 where an ordinary user's address is not the one that the
  -- account holds, and with 4 where the account is not online; otherwise it is accepted. The
  -- address of an administrator is not tested.
  pub logout_user_cases :
      (addr : Str) (s : Server) (d u : Str) (a : UserAccount)
      → Fits 21 d
      → get_uuid_with_display_name s d ≡ some u
      → get_user_account s u ≡ some a
      → a.display_name ≡ d
      → a.privilege_level ≤ 1
      → logout_user addr s d ≡ (
          if a.privilege_level == 0 && not (streq a.ip_addr addr)
          then exits (pos 2)
          else if not a.online_status
          then exits (pos 4)
          else next (record { result = success; token = d; server = logged_out s a }))
  unfolding logout_user logout_user_account
  logout_user_cases addr s d u a hd uuid account name level = ground (
    arith,
    token_or_fault_last d hd.field,
    copy_token-Fits 21 d hd,
    strncpy-Fits 21 d hd,
    cache-insert_user_account s (offline a),
  )

module _ ⦃N : Ndbm⦄ ⦃R : Reliable⦄ where
  -- After a logout the account is offline, and the first connected user of its name is gone.
  pub logged_out-disconnects :
      (s : Server) (a : UserAccount)
      → IsCache s.cache
      → (get_user_account (logged_out s a) a.user_id ≡ some (offline a))
        × IsCache (logged_out s a).cache
        × (connected (logged_out s a).cache ≡ remove_first a.display_name (connected s.cache))
  logged_out-disconnects s a ok =
      let stored = (insert_user_account s (offline a)).1 in
      let (ok', fewer) = remove_user_in_cache-connected s.cache a.display_name ok in
      (
        get_user_account-cache stored (remove_user_in_cache a.display_name s.cache) a.user_id
            ∙ ground (arith, get_user_account-insert s (offline a) a.user_id, streq_refl a.user_id),
        ok',
        fewer,
      )

  -- On a disk that works, with a well-formed array of connected users: a logout of a stored user of
  -- privilege level 0 or 1 who is online, from the address of the account or of an administrator,
  -- with a display name that fits and that is the account's, succeeds. The account is offline and
  -- keeps its other fields but the address, and the first connected user of the name is gone from
  -- the array, which stays well-formed.
  pub logout_user-disconnects :
      (addr : Str) (s : Server) (d u : Str) (a : UserAccount)
      → Fits 21 d
      → get_uuid_with_display_name s d ≡ some u
      → get_user_account s u ≡ some a
      → a.display_name ≡ d
      → a.user_id ≡ u
      → a.privilege_level ≤ 1
      → (a.privilege_level == 0 && not (streq a.ip_addr addr)) ≡ false
      → a.online_status ≡ true
      → IsCache s.cache
      → (r : Reply) × (logout_user addr s d ≡ next r)
        × (r.result ≡ success)
        × (get_user_account r.server u ≡ some (offline a))
        × IsCache r.server.cache
        × (connected r.server.cache ≡ remove_first d (connected s.cache))
  logout_user-disconnects addr s d u a hd uuid account name id level here online ok =
      let (gone, ok', fewer) = logged_out-disconnects s a ok in
      (
        record { result = success; token = d; server = logged_out s a },
        rw (logout_user_cases addr s d u a hd uuid account name level) (rw (here, online) refl),
        refl,
        ap (get_user_account (logged_out s a)) (sym id) ∙ gone,
        ok',
        fewer ∙ ap (λ n. remove_first n (connected s.cache)) name,
      )
