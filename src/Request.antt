-- ===== src/Request.antt =====
-- How the handlers of src/server.c read the body of a request: the call of `read` into a zeroed
-- buffer of `DEFAULT_BUFFER` bytes, the tokens, and the copies of tokens into fixed arrays.
pub mod Fields
pub mod Keeps
pub mod Holds
use datacomm_chat_server.Prelude.{
  ℕ, Bool, true, false, Option, none, some, List, [], ◌∷◌, ◌==◌, ◌||◌, not, ltb, if◌then◌else◌,
  length, take, ℤ, pos, Flow, fault, exits, next,
}
use datacomm_chat_server.Prelude.Ends.{◌>>=◌}
use datacomm_chat_server.CString.{Str, c_str, strtok, is_empty}
use datacomm_chat_server.Ndbm.{Ndbm}
use datacomm_chat_server.Records.{Server, default_buffer}

-- `read(fd, buffer, body_size)` yields at most the bytes that wait at the socket, and none only where
-- the client has closed its side. A result that is
-- not positive, or not the size announced, is an error. More bytes than the buffer has overrun it;
-- as many leave it without a NUL, and every handler goes on to read it as a text.
unfoldable pub read_body : ℤ → Str → ℕ → Flow Str
unfolding c_str
read_body error input body_size =
    let received = take body_size input in
    let nread = length received in
    if ltb default_buffer nread
    then fault
    else if nread == 0 || not (nread == body_size)
    then exits error
    else if nread == default_buffer
    then fault
    else next (c_str received)

-- A token of which the length is taken at once: a null pointer is a fault.
unfoldable pub token_or_fault : Str → Flow (Str × Str)
unfolding strtok
token_or_fault text = elim (strtok text) [ none ↦ fault | some found ↦ next found ]

-- A token that is tested for null first.
unfoldable pub token_or : ℕ → Str → Flow (Str × Str)
unfolding strtok
token_or code text = elim (strtok text) [ none ↦ exits (pos code) | some found ↦ next found ]

-- `strncpy(array, token, strlen(token))` into a zeroed array of `size` bytes. A token of that many
-- bytes leaves no NUL in an array that is read as a text afterwards, and a longer one overruns it.
abbrev pub copy_token : ℕ → Str → Flow Str
copy_token size token = if ltb (length token) size then next token else fault

-- `strncpy(array, text, size)` into an array of `size` bytes.
abbrev pub strncpy : ℕ → Str → Str
strncpy size text = take size text

abbrev pub reject : Bool → ℕ → Flow (Unit {0})
reject true code = exits (pos code)
reject false code = next tt

abbrev pub require : Bool → Flow (Unit {0})
require true = next tt
require false = fault

abbrev pub deref {ℓ} : {A : Type ℓ} → Option A → Flow A
deref none = fault
deref (some a) = next a

abbrev pub or_exit {ℓ} : {A : Type ℓ} → Option A → ℕ → Flow A
or_exit none code = exits (pos code)
or_exit (some a) code = next a

-- What a handler returns: its status, the text that it left in `token_out`, and the server.
pub record Reply ⦃N : Ndbm⦄ : Type 0 where
  pub result : ℤ
  pub token : Str
  pub server : Server

module _ ⦃N : Ndbm⦄ where
  -- An early return leaves the server and the zeroed `token_out` as they were.
  abbrev pub finish : Server → Flow Reply → Option Reply
  finish s fault = none
  finish s (exits code) = some (record { result = code; token = []; server = s })
  finish s (next reply) = some reply
