-- ===== src/Dispatch/Logouts.antt =====
-- A logout from the bytes at the socket to the bytes of the response and the close of the socket.
use datacomm_chat_server.Prelude.{
  ℕ, ◌≡◌, refl, ◌<◌, ◌≤◌, ◌+◌, ◌∷◌, ◌++◌, ◌∙◌, [], some, pos, next, true, false, length, arith, ap,
  ◌==◌, ◌&&◌, not, subst,
}
use datacomm_chat_server.Prelude.Partial.{◌>>=◌}
use datacomm_chat_server.CString.{Str, codes, etx, streq}
use datacomm_chat_server.Ndbm.{Ndbm, Reliable}
use datacomm_chat_server.Header.{
  ChatHeader, IsHeader, read_header, word_bytes, create_response_header,
}
use datacomm_chat_server.Records.{Env, Server, UserAccount, wrote, closed, all_written}
use datacomm_chat_server.Database.{
  failure, success, get_user_account, get_uuid_with_display_name, insert_user_account,
}
use datacomm_chat_server.Cache.View.{IsCache, connected, remove_first}
use datacomm_chat_server.CString.Tokens.{IsField}
use datacomm_chat_server.Request.{Reply}
use datacomm_chat_server.Request.Fields.{Fits, read_body_text}
use datacomm_chat_server.Auth.{logout_user, read_and_logout_user}
use datacomm_chat_server.Auth.Logout.{
  offline, logged_out, logged_out-disconnects, logout_user_cases,
}
use datacomm_chat_server.Response.{send_logout_user_response, send_response, logout_user_body}
use datacomm_chat_server.Response.Frame.{write_response-framed}
use datacomm_chat_server.Dispatch.{handle_request, serve, select}
use datacomm_chat_server.Dispatch.Refusals.{handle_request-serve}
use datacomm_chat_server.Dispatch.Sessions.{IsText, IsClean-IsText}

-- The header of a request to log out with a body of a size.
abbrev pub logout_header : ℕ → ChatHeader
logout_header size = record { version = 1; type = 4; object = 4; body_size = size }

length-IsField : (d : Str) → IsField d → 0 < length d
length-IsField [] h = cc (h.0)
length-IsField (c ∷ d) h = omega arith

module _ ⦃N : Ndbm⦄ where
  -- The response 200 with the display name, behind which the socket is closed.
  send_logout :
      (env : Env) (fd : ℕ) (h : ChatHeader) (d : Str) (s : Server)
      → IsHeader h
      → env.writable fd ≡ all_written
      → length d < 21
      → (head : Str) × (send_logout_user_response env fd h (pos 0) d s
          ≡ some (record s {
            events = closed fd ∷ wrote fd (codes "200" ++ etx ∷ d) ∷ wrote fd head ∷ s.events;
          }))
        × (read_header head ≡ some (record h { body_size = length d + 4 }, []))
  unfolding send_logout_user_response send_response logout_user_body
  send_logout env fd h d s ok w short =
      let body : Str = codes "200" ++ etx ∷ d in
      let (head, written, read) = write_response-framed env fd h body s ok w (omega arith) in
      (
        head,
        ground (arith, short, written),
        read ∙ ap (λ n. some (record h { body_size = n }, [])) (omega arith),
      )

  serve_logout :
      (env : Env) (fd : ℕ) (addr body : Str) (s : Server) (r : Reply)
      → IsText body
      → 0 < length body
      → length body < 1024
      → logout_user addr s body ≡ next r
      → serve env fd addr
          (logout_header (length body))
          body
          s
          (select (logout_header (length body)))
        ≡ send_logout_user_response env fd (logout_header (length body)) r.result r.token r.server
  unfolding serve select read_and_logout_user
  serve_logout env fd addr body s r clean some_bytes room e =
      let whole = read_body_text failure body clean some_bytes room in rw whole (rw e refl)

module _ ⦃N : Ndbm⦄ ⦃R : Reliable⦄ where
  -- On a disk that works and a socket that can be written, with a well-formed array of connected users:
  -- the bytes of a request to log out, with a display name that fits and that is the one of a stored
  -- account of privilege level 0 or 1 that is online, from the address of the account or for an
  -- administrator, are answered with the status 200 and the display name, and then the socket is
  -- closed. The account is offline, and the first connected user of the name is gone.
  pub handle_logout_user :
      (env : Env) (fd : ℕ) (addr : Str) (s : Server) (d u : Str) (a : UserAccount)
      → env.input ≡ word_bytes (create_response_header (logout_header (length d))) ++ d
      → env.writable fd ≡ all_written
      → Fits 21 d
      → get_uuid_with_display_name s d ≡ some u
      → get_user_account s u ≡ some a
      → a.display_name ≡ d
      → a.user_id ≡ u
      → a.privilege_level ≤ 1
      → (a.privilege_level == 0 && not (streq a.ip_addr addr)) ≡ false
      → a.online_status ≡ true
      → IsCache s.cache
      → (after : Server) × (head : Str) × (handle_request env fd addr s ≡ some (pos 0, after))
        × (after.events ≡ closed fd ∷ wrote fd (codes "200" ++ etx ∷ d) ∷ wrote fd head ∷ s.events)
        × (read_header head ≡ some (logout_header (length d + 4), []))
        × (get_user_account after u ≡ some (offline a))
        × (connected after.cache ≡ remove_first d (connected s.cache))
  unfolding insert_user_account get_user_account
  handle_logout_user env fd addr s d u a input w hd uuid account name id level here online ok =
      let h = logout_header (length d) in
      let header_ok : IsHeader h = record {
        version_bits = omega arith;
        type_bits = omega arith;
        object_bits = omega arith;
        size_bits = omega (arith, hd.short);
      } in
      let server = logged_out s a in
      let r : Reply = record { result = success; token = d; server = server } in
      let accepted : logout_user addr s d ≡ next r =
        rw (logout_user_cases addr s d u a hd uuid account name level) (rw (here, online) refl) in
      let (gone, ok', fewer) = logged_out-disconnects s a ok in
      let clean : IsText d = IsClean-IsText d hd.field.1 in
      let (head, sent, read) = send_logout env fd h d server header_ok w hd.short in
      (
        record server {
          events = closed fd ∷ wrote fd (codes "200" ++ etx ∷ d) ∷ wrote fd head ∷ s.events;
        },
        head,
        handle_request-serve env fd addr s h d header_ok input refl
            ∙ ap (λ o. o >>= λ after. some (pos 0, after))
                (serve_logout env fd addr d s r clean (length-IsField d hd.field)
                    (omega (arith, hd.short)) accepted
                  ∙ sent),
        refl,
        read,
        subst (λ v. get_user_account server v ≡ some (offline a)) id gone,
        fewer ∙ ap (λ n. remove_first n (connected s.cache)) name,
      )
