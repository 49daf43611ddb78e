-- ===== src/Util/Tokenize.antt =====
-- `tokenize_malloc` of src/util.c: the array of tokens and its growth.
pub mod Runs
use datacomm_chat_server.Prelude.{
  ℕ, zero, suc, ◌+◌, ◌-◌, ◌%◌, ◌^◌, ◌<◌, ◌≡◌, ◌∙◌, refl, ap, Bool, true, false, ◌||◌, Option, none,
  some, List, [], ◌∷◌, ◌++◌, ◌==◌, if◌then◌else◌, length, ltb, arith, Bool-cases, Option-cases, inl,
  inr, length-append, append_assoc, append_nil, ◌≤◌,
}
use datacomm_chat_server.Prelude.Partial.{◌>>=◌}
use datacomm_chat_server.CString.{Str, is_empty}

unfoldable pub is_delimiter : Str → ℕ → Bool
is_delimiter [] c = false
is_delimiter (d ∷ delim) c = d == c || is_delimiter delim c

-- The token from a place on, and what lies behind the delimiter that ends it.
unfoldable pub split_any : Str → Str → Str × Str
unfolding is_delimiter
split_any delim [] = ([], [])
split_any delim (c ∷ s) =
    let rest = split_any delim s in if is_delimiter delim c then ([], s) else (c ∷ rest.0, rest.1)

-- `strtok(s, delim)` for a set of delimiters; `none` is the null pointer.
unfoldable pub strtok_any : Str → Str → Option (Str × Str)
unfolding split_any
strtok_any delim [] = none
strtok_any delim (c ∷ s) =
    let later = strtok_any delim s in
    let rest = split_any delim s in
    if is_delimiter delim c then later else some (c ∷ rest.0, rest.1)

-- The tokens stored so far, `ret_size`, and the places that were allocated.
pub record Ret : Type 0 where
  pub words : List Str
  pub ret_size : ℕ
  pub allocated : ℕ

abbrev pub default_args : ℕ
default_args = 10

-- A newline at the end of a token is cut off.
unfoldable pub chop_newline : Str → Str
chop_newline [] = []
chop_newline (c ∷ []) = if c == 10 then [] else c ∷ []
chop_newline (c ∷ d ∷ s) = c ∷ chop_newline (d ∷ s)

-- `ret_size` grows whether or not `realloc` succeeds.
unfoldable pub reserve : (ℕ → Bool) → ℕ → Ret → Ret
reserve realloc word_count ret =
    if word_count == ret.ret_size - 1
    then record ret {
      ret_size = ret.ret_size + ret.ret_size;
      allocated =
          if realloc (ret.ret_size + ret.ret_size)
          then ret.ret_size + ret.ret_size
          else ret.allocated;
    }
    else ret

-- A round of the loop. A store behind the places allocated is `none`.
unfoldable pub store_token : (ℕ → Bool) → Str → Ret → Option Ret
unfolding reserve chop_newline
store_token realloc token ret =
    let room = reserve realloc (length ret.words + 1) ret in
    if ltb (length ret.words) room.allocated
    then some (record room { words = ret.words ++ chop_newline token ∷ [] })
    else none

-- The loop from a token on. Each token is longer than nothing, so the length of the text behind it is
-- fuel enough.
unfoldable pub token_loop : ℕ → (ℕ → Bool) → Str → Str → Str → Ret → Option Ret
unfolding store_token strtok_any
token_loop zero realloc delim token rest ret = none
token_loop (suc fuel) realloc delim token rest ret = store_token realloc token ret >>= λ stored.
    elim (strtok_any delim rest) [
      | none ↦ some stored
      | some (next_token, later) ↦ token_loop fuel realloc delim next_token later stored
    ]

-- The tokens in front of the null pointer, and the 32 bits that are written to `out_count`.
pub record Tokenized : Type 0 where
  pub tokens : List Str
  pub out_count : Option ℕ

unfoldable pub tokenize_malloc : (ℕ → Bool) → Str → Str → Option Tokenized
unfolding token_loop strtok_any
tokenize_malloc realloc str delim = elim (strtok_any delim str) [
  | none ↦ some (record { tokens = []; out_count = none })
  | some (token, rest) ↦
      (token_loop (suc (length str)) realloc delim token rest
          (record { words = []; ret_size = default_args; allocated = default_args })
        >>= λ ret.
            if ltb (length ret.words) ret.allocated
            then some (record { tokens = ret.words; out_count = some (length ret.words % 2 ^ 32) })
            else none)
]
