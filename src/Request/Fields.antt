-- ===== src/Request/Fields.antt =====
-- Requests as a client writes them: the steps of the handlers on fields that fit their arrays.
use datacomm_chat_server.Prelude.{
  subst, append_nil, ℕ, ◌<◌, ◌≤◌, ◌≡◌, ◌≢◌, refl, [], ◌∷◌, ◌++◌, arith, length, take_all,
  take-append_self, ℤ, fault, exits, next, All, not, ◌&&◌, ltb, true,
}
use datacomm_chat_server.CString.{Str, etx, c_str, is_empty}
use datacomm_chat_server.CString.Tokens.{IsField, strtok-field, strtok_last, is_clean, IsField-of}
use datacomm_chat_server.Records.{default_buffer}
use datacomm_chat_server.Request.{read_body, token_or_fault, copy_token, strncpy, token_or}

-- A field of a request that an array of `size` bytes has room for, with its NUL.
pub record Fits (size : ℕ) (f : Str) : Type 0 where
  pub field : IsField f
  pub short : length f < size

pub token_or_fault-field :
    (f rest : Str) → IsField f → token_or_fault (f ++ etx ∷ rest) ≡ next (f, rest)
unfolding token_or_fault
token_or_fault-field f rest h = rw (strtok-field f rest h, token_or_fault)

pub token_or_fault_last : (f : Str) → IsField f → token_or_fault f ≡ next (f, [])
unfolding token_or_fault
token_or_fault_last f h = rw (strtok_last f h, token_or_fault)

pub token_or-field :
    (code : ℕ) (f rest : Str) → IsField f → token_or code (f ++ etx ∷ rest) ≡ next (f, rest)
unfolding token_or
token_or-field code f rest h = rw (strtok-field f rest h, token_or)

pub copy_token-Fits : (size : ℕ) (f : Str) → Fits size f → copy_token size f ≡ next f
copy_token-Fits size f h = ground (arith, h.short)

-- A token that the array has no room for.
pub copy_token_long : (size : ℕ) (f : Str) → size ≤ length f → copy_token size f ≡ fault
copy_token_long size f h = ground arith

pub strncpy-Fits : (size : ℕ) (f : Str) → Fits size f → strncpy size f ≡ f
strncpy-Fits size f h = take_all size f (omega (arith, h.short))

pub c_str_clean : (f : Str) → All (λ c. c ≢ 0) f → c_str f ≡ f
unfolding c_str
c_str_clean [] h = refl
c_str_clean (c ∷ f) h = ground (arith, c_str_clean f h.1)

-- A body without NULs that arrives whole is the text that the handler sees.
pub read_body-whole :
    (error : ℤ) (body later : Str)
    → All (λ c. c ≢ 0) body
    → 0 < length body
    → length body < default_buffer
    → read_body error (body ++ later) (length body) ≡ next body
unfolding read_body
read_body-whole error body later clean some_bytes room =
    rw take-append_self (ground (arith, c_str_clean body clean))

pub read_body_text :
    (error : ℤ) (body : Str)
    → All (λ c. c ≢ 0) body
    → 0 < length body
    → length body < default_buffer
    → read_body error body (length body) ≡ next body
read_body_text error body clean some_bytes room =
    subst (λ b. read_body error b (length body) ≡ next body) (append_nil body)
      (read_body-whole error body [] clean some_bytes room)

-- A body that has not arrived whole ends the request with the handler's error.
pub read_body_short :
    (error : ℤ) (input : Str) (size : ℕ)
    → length input < size
    → length input ≤ default_buffer
    → read_body error input size ≡ exits error
unfolding read_body
read_body_short error input size short room = rw (take_all size input (omega arith)) (ground arith)

-- A body longer than the buffer overruns it.
pub read_body_overrun :
    (error : ℤ) (body later : Str)
    → default_buffer < length body
    → read_body error (body ++ later) (length body) ≡ fault
unfolding read_body
read_body_overrun error body later long = rw take-append_self (ground arith)

-- A concrete field fits: the test computes.
pub Fits-of :
    (size : ℕ) (f : Str)
    → (not (is_empty f) && is_clean f && ltb (length f) size) ≡ true
    → Fits size f
Fits-of size f h = record { field = IsField-of f (ground (arith, h)); short = ground (arith, h) }
