-- ===== src/Tests/Texts.antt =====
-- Texts, headers, responses, the poll table and the menu at concrete values.
use datacomm_chat_server.Prelude.{ℕ, ◌≡◌, ◌↔◌, refl, true, some, [], ◌∷◌, ◌++◌, pos, arith, List}
use datacomm_chat_server.CString.{codes, decimal, strtol}
use datacomm_chat_server.CString.Decimal.{strtol-decimal}
use datacomm_chat_server.Util.{compare_strings}
use datacomm_chat_server.Util.Spaces.{squeeze, compare_strings-squeeze}
use datacomm_chat_server.Header.{
  ChatHeader, IsHeader, read_header, word_bytes, create_response_header,
}
use datacomm_chat_server.Header.RoundTrip.{read_header-create_response_header}
use datacomm_chat_server.Records.{wrote}
use datacomm_chat_server.Ndbm.Assoc.{table_ndbm}
use datacomm_chat_server.Response.{write_response}
use datacomm_chat_server.Response.Frame.{write_response-framed}
use datacomm_chat_server.Tests.Data.{busy, env_with}

strtol-decimal_example : strtol (decimal 4096) ≡ pos 4096
strtol-decimal_example = strtol-decimal 4096 (omega arith)

compare_strings-squeeze_example :
    (compare_strings (codes "pass word") (codes "password") ≡ true)
    ↔ (squeeze (codes "pass word") ≡ squeeze (codes "password"))
compare_strings-squeeze_example = compare_strings-squeeze (codes "pass word") (codes "password")

-- A header of the current version for CREATE USER with a body of 18 bytes.
abbrev header : ChatHeader
header = record { version = 1; type = 1; object = 1; body_size = 18 }

header-IsHeader : IsHeader header
header-IsHeader = record {
  version_bits = omega arith;
  type_bits = omega arith;
  object_bits = omega arith;
  size_bits = omega arith;
}

read_header-create_response_header_example :
    read_header (word_bytes (create_response_header header) ++ codes "body")
    ≡ some (header, codes "body")
read_header-create_response_header_example =
    read_header-create_response_header header (codes "body") header-IsHeader

write_response-framed_example :
    (head : List ℕ) × (write_response (env_with []) 5 header (codes "201") busy
      ≡ (true, record busy { events = wrote 5 (codes "201") ∷ wrote 5 head ∷ [] }))
    × (read_header head ≡ some (record header { body_size = 3 }, []))
write_response-framed_example =
    write_response-framed (env_with []) 5 header (codes "201") busy header-IsHeader refl
      (omega arith)
