-- ===== src/Response/Frame.antt =====
-- A response as the client reads it: a header that announces the body behind it.
use datacomm_chat_server.Prelude.{
  ◌≡◌, ◌<◌, ◌^◌, ◌%◌, refl, true, some, [], ◌∷◌, length, ℕ, arith, take_all,
}
use datacomm_chat_server.CString.{Str}
use datacomm_chat_server.Ndbm.{Ndbm}
use datacomm_chat_server.Records.{Env, Server, wrote, all_written}
use datacomm_chat_server.Header.{
  ChatHeader, IsHeader, word_bytes, create_response_header, read_header,
}
use datacomm_chat_server.Header.RoundTrip.{read_header-create_response_header}
use datacomm_chat_server.Response.{write_response}

module _ ⦃N : Ndbm⦄ where
  -- For a header in range, a socket that can be written and a body of less than 2 ^ 16 bytes, a
  -- response is two writes, a header and the whole body. Read by the rules of the server, the
  -- header has the version, type and object of the request, and the size of the body.
  pub write_response-framed :
      (env : Env) (fd : ℕ) (header : ChatHeader) (body : Str) (s : Server)
      → IsHeader header
      → env.writable fd ≡ all_written
      → length body < 2 ^ 16
      → (head : Str) × (write_response env fd header body s
          ≡ (true, record s { events = wrote fd body ∷ wrote fd head ∷ s.events }))
        × (read_header head ≡ some (record header { body_size = length body }, []))
  unfolding write_response word_bytes
  write_response-framed env fd header body s ok w short =
      let sized = record header { body_size = length body } in
      let fits : IsHeader sized = record {
        version_bits = ok.version_bits;
        type_bits = ok.type_bits;
        object_bits = ok.object_bits;
        size_bits = short;
      } in
      let whole : length body % 2 ^ 16 ≡ length body = omega arith in
      (
        word_bytes (create_response_header sized),
        rw (w, write_response) (rw (whole, take_all (length body) body (omega arith)) refl),
        read_header-create_response_header sized [] fits,
      )
