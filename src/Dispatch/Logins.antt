-- ===== src/Dispatch/Logins.antt =====
-- A login from the bytes at the socket to the bytes of the response.
use datacomm_chat_server.Prelude.{
  subst, ℕ, ◌≡◌, refl, ◌<◌, ◌+◌, ◌∷◌, ◌++◌, ◌∙◌, [], some, pos, next, length, length-append, arith,
  ap, false, inl, inr, ◌⊎◌, ◌≢◌, Bool-cases, ℤ,
}
use datacomm_chat_server.Prelude.Partial.{◌>>=◌}
use datacomm_chat_server.CString.{Str, codes, etx, is_empty}
use datacomm_chat_server.Ndbm.{Ndbm, Reliable}
use datacomm_chat_server.Header.{
  ChatHeader, IsHeader, read_header, word_bytes, create_response_header,
}
use datacomm_chat_server.Records.{
  Env, Server, UserAccount, UserLogin, wrote, max_clients, all_written,
}
use datacomm_chat_server.Database.{
  failure, success, get_login_info, get_user_account, insert_user_account, get_all_channels,
}
use datacomm_chat_server.Database.Laws.{get_user_account-cache, get_user_account-insert}
use datacomm_chat_server.Util.{compare_strings}
use datacomm_chat_server.Util.Spaces.{squeeze, compare_strings-squeeze}
use datacomm_chat_server.Cache.{find_connected_user_with_same_cred}
use datacomm_chat_server.Cache.View.{IsCache, connected, insert_user_in_cache-connected}
use datacomm_chat_server.CString.Tokens.{IsClean, streq_refl}
use datacomm_chat_server.Request.{Reply, finish}
use datacomm_chat_server.Request.Fields.{Fits, read_body_text}
use datacomm_chat_server.Auth.{login_user, read_and_login_user, login_response, or_empty}
use datacomm_chat_server.Auth.Login.{
  online_at, login_body, entry, login_user_wrong, login_user-accept, accept_login-fresh,
}
use datacomm_chat_server.Response.{send_login_user_response, send_response, login_user_body}
use datacomm_chat_server.Response.Frame.{write_response-framed}
use datacomm_chat_server.Dispatch.{handle_request, serve, select}
use datacomm_chat_server.Dispatch.Refusals.{handle_request-serve}
use datacomm_chat_server.Dispatch.Sessions.{IsText, field-IsText, IsClean-IsText}

-- The header of a request to log in with a body of a size.
abbrev pub login_header : ℕ → ChatHeader
login_header size = record { version = 1; type = 1; object = 4; body_size = size }

-- The bodies of the two responses.
abbrev pub refused_login : Str
refused_login = codes "403" ++ etx ∷ codes "Login Token and password does not match"

abbrev pub accepted_login : Str → Str
accepted_login response = codes "200" ++ etx ∷ response

login_body-IsText : (t p : Str) → IsClean t → IsClean p → IsText (login_body t p)
login_body-IsText t p ht hp =
    let password : IsText p = IsClean-IsText p hp in
    field-IsText t (etx ∷ p) ht (ground arith, password)

module _ ⦃N : Ndbm⦄ where
  -- A response to a login with a body that fits.
  send_login :
      (env : Env) (fd : ℕ) (h : ChatHeader) (result : ℤ) (token body : Str) (s : Server)
      → IsHeader h
      → env.writable fd ≡ all_written
      → login_user_body result token ≡ next body
      → length body < 1024
      → (head : Str) × (send_login_user_response env fd h result token s
          ≡ some (record s { events = wrote fd body ∷ wrote fd head ∷ s.events }))
        × (read_header head ≡ some (record h { body_size = length body }, []))
  unfolding send_login_user_response send_response
  send_login env fd h result token body s ok w e short =
      let (head, written, read) = write_response-framed env fd h body s ok w (omega arith) in
      (head, ground (arith, e, short, written), read)

  read_and_login_user-whole :
      (env : Env) (fd : ℕ) (addr : Str) (s : Server) (body : Str)
      → IsText body
      → 0 < length body
      → length body < 1024
      → read_and_login_user env fd addr s body (length body)
        ≡ finish s (login_user env fd addr s body)
  unfolding read_and_login_user
  read_and_login_user-whole env fd addr s body clean some_bytes room =
      let whole = read_body_text failure body clean some_bytes room in rw whole refl

  serve_login :
      (env : Env) (fd : ℕ) (addr body : Str) (size : ℕ) (s : Server) (r : Reply)
      → read_and_login_user env fd addr s body size ≡ some r
      → serve env fd addr (login_header size) body s (select (login_header size))
        ≡ send_login_user_response env fd (login_header size) r.result r.token r.server
  unfolding serve select
  serve_login env fd addr body size s r e = rw e refl

  -- The request as a whole, once it is known what the handler replies.
  handle_login :
      (env : Env) (fd : ℕ) (addr : Str) (s : Server) (t p body : Str) (r : Reply)
      → env.input
        ≡ word_bytes (create_response_header (login_header (length (login_body t p))))
          ++ login_body t p
      → env.writable fd ≡ all_written
      → Fits 21 t
      → Fits 31 p
      → finish s (login_user env fd addr s (login_body t p)) ≡ some r
      → login_user_body r.result r.token ≡ next body
      → length body < 1024
      → (head : Str) × (handle_request env fd addr s
          ≡ some
              (pos 0, record r.server { events = wrote fd body ∷ wrote fd head ∷ r.server.events }))
        × (read_header head ≡ some (login_header (length body), []))
  handle_login env fd addr s t p body r input w ht hp replied e short =
      let request = login_body t p in
      let size : length request ≡ length t + length p + 1 =
        omega (arith, length-append t (etx ∷ p)) in
      let h = login_header (length request) in
      let ok : IsHeader h = record {
        version_bits = omega arith;
        type_bits = omega arith;
        object_bits = omega arith;
        size_bits = omega (arith, size, ht.short, hp.short);
      } in
      let read =
        read_and_login_user-whole env fd addr s request
          (login_body-IsText t p ht.field.1 hp.field.1) (omega (arith, size))
          (omega (arith, size, ht.short, hp.short)) in
      let (head, sent, announced) =
        send_login env fd h r.result r.token body r.server ok w e short in
      (
        head,
        handle_request-serve env fd addr s h request ok input refl
            ∙ ap (λ o. o >>= λ after. some (pos 0, after))
                (serve_login env fd addr request (length request) s r (read ∙ replied) ∙ sent),
        announced,
      )

module _ ⦃N : Ndbm⦄ ⦃R : Reliable⦄ where
  pub handle_login_user :
      (env : Env) (fd : ℕ) (addr : Str) (s : Server) (t p : Str) (l : UserLogin) (a : UserAccount)
      → env.input
        ≡ word_bytes (create_response_header (login_header (length (login_body t p))))
          ++ login_body t p
      → env.writable fd ≡ all_written
      → Fits 21 t
      → Fits 31 p
      → length addr < 16
      → get_login_info s t ≡ some l
      → l.login_token ≡ t
      → get_user_account s l.uuid ≡ some a
      → a.user_id ≡ l.uuid
      → a.online_status ≡ false
      → is_empty a.display_name ≡ false
      → IsCache s.cache
      → length (connected s.cache) < max_clients
      → find_connected_user_with_same_cred (online_at a addr) s.cache fd ≡ false
      → length (accepted_login (login_response (online_at a addr) (or_empty (get_all_channels s))))
        < 1024
      → ((squeeze l.password ≢ squeeze p)
          × ((head : Str) × (handle_request env fd addr s
                ≡ some (
                  pos 0,
                  record s { events = wrote fd refused_login ∷ wrote fd head ∷ s.events },
                ))
              × (read_header head ≡ some (login_header (length refused_login), []))))
        ⊎ ((squeeze l.password ≡ squeeze p)
            × ((after : Server) × (head : Str) × (handle_request env fd addr s
                  ≡ some (pos 0, after))
                × (after.events
                    ≡ wrote fd (
                        accepted_login
                          (login_response (online_at a addr) (or_empty (get_all_channels s))))
                      ∷ wrote fd head
                      ∷ s.events)
                × (read_header head
                    ≡ some (
                      login_header (
                          length (
                            accepted_login
                              (login_response (online_at a addr) (or_empty (get_all_channels s))))),
                      [],
                    ))
                × (get_user_account after l.uuid ≡ some (online_at a addr))
                × (after.names ≡ s.names)
                × IsCache after.cache
                × (connected after.cache ≡ connected s.cache ++ entry fd env.time addr a l ∷ [])))
  unfolding login_user_body insert_user_account get_user_account get_all_channels
  handle_login_user env fd addr s t p l a input w ht hp short stored token account id off named ok
        room unknown fits =
      elim (Bool-cases (compare_strings l.password p)) [
        | inl right ↦
            let online = online_at a addr in
            let kept = (insert_user_account s online).1 in
            let (cache, inserted, ok', grown) =
              insert_user_in_cache-connected s.cache (entry fd env.time addr a l) ok named room in
            let r : Reply = record {
              result = success;
              token = login_response online (or_empty (get_all_channels s));
              server = record kept { cache = cache };
            } in
            let accepted =
              login_user-accept env fd addr s t p l a ht hp stored token right account off
              ∙ accept_login-fresh env fd addr s a l cache short unknown inserted in
            let (head, handled, read) =
              handle_login env fd addr s t p (accepted_login r.token) r input w ht hp
                (ap (finish s) accepted) refl fits in
            inr (
              (compare_strings-squeeze l.password p).0 right,
              (
                record (r.server) {
                  events = wrote fd (accepted_login r.token) ∷ wrote fd head ∷ s.events;
                },
                head,
                handled,
                refl,
                read,
                subst (λ u. get_user_account r.server u ≡ some online) id
                    (get_user_account-cache kept cache a.user_id
                      ∙ ground (
                        arith,
                        get_user_account-insert s online a.user_id,
                        streq_refl a.user_id,
                      )),
                refl,
                ok',
                grown,
              ),
            )
        | inr wrong ↦
            let (head, handled, read) =
              handle_login env fd addr s t p refused_login
                (record { result = pos 1; token = []; server = s }) input w ht hp
                (ap (finish s) (login_user_wrong env fd addr s t p l a ht hp stored token wrong))
                refl (omega arith) in
            inl
              ((λ e. cc (wrong, (compare_strings-squeeze l.password p).1 e)), (head, handled, read))
      ]
