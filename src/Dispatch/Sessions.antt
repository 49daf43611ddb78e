-- ===== src/Dispatch/Sessions.antt =====
-- A request from the bytes at the socket to the bytes of the response.
use datacomm_chat_server.Auth.{login_user}
use datacomm_chat_server.Auth.Login.{online_at, login_body, entry, login_user-decides}
use datacomm_chat_server.Cache.{find_connected_user_with_same_cred}
use datacomm_chat_server.Cache.View.{IsCache, connected}
use datacomm_chat_server.Prelude.{
  subst, append_nil, ℕ, ◌≡◌, refl, ◌<◌, ◌+◌, ◌∷◌, ◌++◌, ◌∙◌, [], none, some, pos, next, length,
  length-append, arith, All, ap, ◌≢◌, false, inl, inr,
}
use datacomm_chat_server.Prelude.Partial.{◌>>=◌}
use datacomm_chat_server.CString.{Str, codes, etx}
use datacomm_chat_server.Ndbm.{Ndbm, Reliable}
use datacomm_chat_server.Header.{
  ChatHeader, IsHeader, read_header, word_bytes, create_response_header,
}
use datacomm_chat_server.Records.{Env, Server, wrote, max_clients, all_written}
use datacomm_chat_server.Database.{
  failure, success, get_login_info, get_user_account, get_uuid_with_display_name,
}
use datacomm_chat_server.Request.{Reply}
use datacomm_chat_server.CString.Tokens.{IsClean}
use datacomm_chat_server.Request.Fields.{Fits, read_body_text}
use datacomm_chat_server.Response.{send_create_user_response, send_response, create_user_body}
use datacomm_chat_server.Response.Frame.{write_response-framed}
use datacomm_chat_server.User.{create_user, store_user, read_and_create_user}
use datacomm_chat_server.User.Create.{
  create_body, create_user_cases, check_duplicate-get_uuid, store_user-there, new_login,
  new_account,
}
use datacomm_chat_server.Dispatch.{handle_request, serve, select}
use datacomm_chat_server.Dispatch.Refusals.{handle_request-serve}

-- The header of a request to create a user with a body of a size.
abbrev pub create_user_header : ℕ → ChatHeader
create_user_header size = record { version = 1; type = 1; object = 1; body_size = size }

abbrev pub IsText : Str → Type 0
IsText = All (λ c. c ≢ 0)

pub field-IsText : (f rest : Str) → IsClean f → IsText rest → IsText (f ++ rest)
field-IsText [] rest h k = k
field-IsText (c ∷ f) rest h k = (h.0.1, field-IsText f rest h.1 k)

pub IsClean-IsText : (f : Str) → IsClean f → IsText f
IsClean-IsText f h = subst IsText (append_nil f) (field-IsText f [] h tt)

create_body-IsText : (t d p : Str) → IsClean t → IsClean d → IsClean p → IsText (create_body t d p)
create_body-IsText t d p ht hd hp =
    let password : IsText p = IsClean-IsText p hp in
    let name = field-IsText d (etx ∷ p) hd (ground arith, password) in
    field-IsText t (etx ∷ (d ++ etx ∷ p)) ht (ground arith, name)

length-create_body : (t d p : Str) → length (create_body t d p) ≡ length t + length d + length p + 2
length-create_body t d p =
    omega (arith, length-append t (etx ∷ (d ++ etx ∷ p)), length-append d (etx ∷ p))

module _ ⦃N : Ndbm⦄ where
  -- The reply 201 with a text.
  send_created :
      (env : Env) (fd : ℕ) (h : ChatHeader) (token : Str) (s : Server)
      → IsHeader h
      → env.writable fd ≡ all_written
      → length token < 21
      → (head : Str) × (send_create_user_response env fd h (pos 0) token s
          ≡ some (record s {
            events = wrote fd (codes "201" ++ etx ∷ token) ∷ wrote fd head ∷ s.events;
          }))
        × (read_header head ≡ some (record h { body_size = length token + 4 }, []))
  unfolding send_create_user_response send_response create_user_body
  send_created env fd h token s ok w short =
      let body : Str = codes "201" ++ etx ∷ token in
      let (head, written, read) = write_response-framed env fd h body s ok w (omega arith) in
      (
        head,
        ground (arith, short, written),
        read ∙ ap (λ n. some (record h { body_size = n }, [])) (omega arith),
      )

module _ ⦃N : Ndbm⦄ ⦃R : Reliable⦄ where
  read_and_create_user-free :
      (env : Env) (s : Server) (t d p : Str)
      → Fits 21 t
      → Fits 21 d
      → Fits 31 p
      → get_login_info s t ≡ none
      → get_uuid_with_display_name s d ≡ none
      → read_and_create_user env s (create_body t d p) (length (create_body t d p))
        ≡ some (record { result = success; token = t; server = store_user s env.uuid t d p })
  unfolding read_and_create_user
  read_and_create_user-free env s t d p ht hd hp free_t free_d =
      let body = create_body t d p in
      let size = length-create_body t d p in
      let whole =
        read_body_text failure body (create_body-IsText t d p ht.field.1 hd.field.1 hp.field.1)
          (omega (arith, size)) (omega (arith, size, ht.short, hd.short, hp.short)) in
      rw whole (
        rw (create_user_cases env s t d p ht hd hp, free_t, check_duplicate-get_uuid s d, free_d)
          refl)

  serve_create_user :
      (env : Env) (fd : ℕ) (addr body : Str) (size : ℕ) (s : Server) (r : Reply)
      → read_and_create_user env s body size ≡ some r
      → serve env fd addr (create_user_header size) body s (select (create_user_header size))
        ≡ send_create_user_response env fd (create_user_header size) r.result r.token r.server
  unfolding serve select
  serve_create_user env fd addr body size s r e = rw e refl

  -- On a disk that works and a socket that can be written: the bytes of a request to create a user,
  -- with fields that fit, a free login token and a free display name, are answered with the status
  -- 201 and the login token behind a header that announces them, and the user is stored: the token
  -- leads to the password and the identifier, the name to the identifier, and the identifier to the
  -- account. The identifier generated has less than 37 bytes.
  pub handle_create_user :
      (env : Env) (fd : ℕ) (addr : Str) (s : Server) (t d p : Str)
      → env.input
        ≡ word_bytes (create_response_header (create_user_header (length (create_body t d p))))
          ++ create_body t d p
      → env.writable fd ≡ all_written
      → length env.uuid < 37
      → Fits 21 t
      → Fits 21 d
      → Fits 31 p
      → get_login_info s t ≡ none
      → get_uuid_with_display_name s d ≡ none
      → (after : Server) × (head : Str) × (handle_request env fd addr s ≡ some (pos 0, after))
        × (after.events ≡ wrote fd (codes "201" ++ etx ∷ t) ∷ wrote fd head ∷ s.events)
        × (read_header head ≡ some (create_user_header (length t + 4), []))
        × (get_login_info after t ≡ some (new_login env.uuid t p))
        × (get_uuid_with_display_name after d ≡ some env.uuid)
        × (get_user_account after env.uuid ≡ some (new_account env.uuid d))
  unfolding store_user get_login_info get_uuid_with_display_name get_user_account
  handle_create_user env fd addr s t d p input w hu ht hd hp free_t free_d =
      let body = create_body t d p in
      let size = length-create_body t d p in
      let h = create_user_header (length body) in
      let ok : IsHeader h = record {
        version_bits = omega arith;
        type_bits = omega arith;
        object_bits = omega arith;
        size_bits = omega (arith, size, ht.short, hd.short, hp.short);
      } in
      let stored = store_user s env.uuid t d p in
      let (login, uuid, account) = store_user-there s env.uuid t d p hu ht hd hp in
      let (head, sent, read) = send_created env fd h t stored ok w ht.short in
      (
        record stored {
          events = wrote fd (codes "201" ++ etx ∷ t) ∷ wrote fd head ∷ stored.events;
        },
        head,
        handle_request-serve env fd addr s h body ok input refl
            ∙ ap (λ o. o >>= λ after. some (pos 0, after))
                (serve_create_user env fd addr body (length body) s
                    (record { result = success; token = t; server = stored })
                    (read_and_create_user-free env s t d p ht hd hp free_t free_d)
                  ∙ sent),
        refl,
        read,
        login,
        uuid,
        account,
      )

  -- On a disk that works, with a generated identifier of less than 37 bytes, fields that fit, a free
  -- login token and a free display name: a user who was created can log in with the same token and
  -- password from an address of less than 16 bytes, and joins the connected users, when the array of
  -- connected users is well-formed, has room, and has no entry of that name, address and socket.
  pub create_then_login :
      (env env' : Env) (fd : ℕ) (addr : Str) (s : Server) (t d p : Str)
      → length env.uuid < 37
      → Fits 21 t
      → Fits 21 d
      → Fits 31 p
      → length addr < 16
      → get_login_info s t ≡ none
      → get_uuid_with_display_name s d ≡ none
      → IsCache s.cache
      → length (connected s.cache) < max_clients
      → find_connected_user_with_same_cred (online_at (new_account env.uuid d) addr) s.cache fd
        ≡ false
      → (after : Server) × (r : Reply) × (create_user env s (create_body t d p)
          ≡ next (record { result = success; token = t; server = after }))
        × (login_user env' fd addr after (login_body t p) ≡ next r)
        × (r.result ≡ success)
        × (get_user_account r.server env.uuid ≡ some (online_at (new_account env.uuid d) addr))
        × (connected r.server.cache
            ≡ connected s.cache
              ++ entry fd env'.time addr (new_account env.uuid d) (new_login env.uuid t p) ∷ [])
  unfolding store_user
  create_then_login env env' fd addr s t d p hu ht hd hp short free_t free_d ok room unknown =
      let after : Server = store_user s env.uuid t d p in
      let (login, uuid, account) = store_user-there s env.uuid t d p hu ht hd hp in
      let created : create_user env s (create_body t d p)
          ≡ next (record { result = success; token = t; server = after }) =
        rw (create_user_cases env s t d p ht hd hp, free_t, check_duplicate-get_uuid s d, free_d)
          refl in
      elim (login_user-decides env' fd addr after t p (new_login env.uuid t p)
        (new_account env.uuid d) ht hp short login refl account refl refl hd.field.0 ok room
        unknown) [
          | inl (differs, refused) ↦ absurd (differs refl)
          | inr (same, (r, accepted, result, stored, ok', grown)) ↦
              (after, r, created, accepted, result, stored, grown)
        ]
