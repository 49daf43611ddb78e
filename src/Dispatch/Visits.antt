-- ===== src/Dispatch/Visits.antt =====
-- A whole visit: a login and a logout, each from the bytes at the socket on.
use datacomm_chat_server.Prelude.{
  ℕ, ◌≡◌, refl, ◌<◌, ◌≤◌, ◌∷◌, ◌++◌, ◌∙◌, [], some, pos, false, length, arith, ap, All, inl, inr,
}
use datacomm_chat_server.CString.{Str, codes, etx, streq}
use datacomm_chat_server.Ndbm.{Ndbm, Reliable}
use datacomm_chat_server.Header.{word_bytes, create_response_header}
use datacomm_chat_server.Records.{
  Env, Server, UserAccount, UserLogin, wrote, closed, max_clients, all_written,
}
use datacomm_chat_server.Database.{
  get_login_info, get_user_account, get_uuid_with_display_name, get_all_channels, fetch_record,
}
use datacomm_chat_server.Util.Spaces.{squeeze}
use datacomm_chat_server.Cache.{find_connected_user_with_same_cred}
use datacomm_chat_server.Cache.View.{IsCache, connected, remove_first, remove_first-append}
use datacomm_chat_server.CString.Tokens.{streq_refl}
use datacomm_chat_server.Request.Fields.{Fits}
use datacomm_chat_server.Auth.{login_response, or_empty}
use datacomm_chat_server.Auth.Login.{online_at, login_body, entry}
use datacomm_chat_server.Auth.Logout.{offline}
use datacomm_chat_server.Dispatch.{handle_request}
use datacomm_chat_server.Dispatch.Logins.{handle_login_user, login_header, accepted_login}
use datacomm_chat_server.Dispatch.Logouts.{handle_logout_user, logout_header}

module _ ⦃N : Ndbm⦄ ⦃R : Reliable⦄ where
  -- On a disk that works and a socket that can be written: a stored user with a display name, of
  -- privilege level 0 or 1, who is offline, logs in with the password of the login and fields that
  -- fit, from an address of less than 16 bytes, and logs out from there by the display name. No
  -- connected user has that name, the array of connected users is well-formed and has room, and the
  -- list of channels fits the response. Both requests are served, the socket is closed behind the
  -- second, and the connected users are the same as before; the account is offline again.
  pub login_then_logout :
      (env env' : Env) (fd : ℕ) (addr : Str) (s : Server) (t p : Str) (l : UserLogin)
      (a : UserAccount)
      → env.input
        ≡ word_bytes (create_response_header (login_header (length (login_body t p))))
          ++ login_body t p
      → env'.input
        ≡ word_bytes (create_response_header (logout_header (length a.display_name)))
          ++ a.display_name
      → env.writable fd ≡ all_written
      → env'.writable fd ≡ all_written
      → Fits 21 t
      → Fits 31 p
      → Fits 21 a.display_name
      → length addr < 16
      → get_login_info s t ≡ some l
      → l.login_token ≡ t
      → squeeze l.password ≡ squeeze p
      → get_user_account s l.uuid ≡ some a
      → get_uuid_with_display_name s a.display_name ≡ some l.uuid
      → a.user_id ≡ l.uuid
      → a.online_status ≡ false
      → a.privilege_level ≤ 1
      → All (λ v. streq v.dsply_name a.display_name ≡ false) (connected s.cache)
      → IsCache s.cache
      → length (connected s.cache) < max_clients
      → find_connected_user_with_same_cred (online_at a addr) s.cache fd ≡ false
      → length (accepted_login (login_response (online_at a addr) (or_empty (get_all_channels s))))
        < 1024
      → (during : Server) × (after : Server) × (head : Str) × (handle_request env fd addr s
          ≡ some (pos 0, during))
        × (handle_request env' fd addr during ≡ some (pos 0, after))
        × (after.events
            ≡ closed fd
              ∷ wrote fd (codes "200" ++ etx ∷ a.display_name)
              ∷ wrote fd head
              ∷ during.events)
        × (connected during.cache ≡ connected s.cache ++ entry fd env.time addr a l ∷ [])
        × (connected after.cache ≡ connected s.cache)
        × (get_user_account after l.uuid ≡ some (offline (online_at a addr)))
  unfolding get_uuid_with_display_name
  login_then_logout env env' fd addr s t p l a input input' w w' ht hp hd short stored token same
        account name id off level others ok room unknown fits =
      elim (handle_login_user env fd addr s t p l a input w ht hp short stored token account id off
        hd.field.0 ok room unknown fits) [
          | inl (differs, refused) ↦ absurd (differs same)
          | inr (equal, (during, head, served, events, read, online, names, ok', grown)) ↦
              let (after, head', served', events', read', gone, fewer) =
                handle_logout_user env' fd addr during a.display_name l.uuid (online_at a addr)
                  input' w' hd (ap (λ f. fetch_record f a.display_name) names ∙ name) online refl id
                  (ground (arith, level)) (ground (arith, streq_refl addr)) refl ok' in
              (
                during,
                after,
                head',
                served,
                served',
                events',
                grown,
                fewer
                    ∙ ap (remove_first a.display_name) grown
                    ∙ remove_first-append (connected s.cache) (entry fd env.time addr a l) others,
                gone,
              )
        ]
