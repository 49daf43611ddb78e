-- ===== src/Util/Tokenize/Runs.antt =====
-- What `tokenize_malloc` yields: the runs of characters between the delimiters.
use datacomm_chat_server.Util.Tokenize.{is_delimiter, chop_newline, Ret}
use datacomm_chat_server.Prelude.{
  ℕ, ◌+◌, ◌%◌, ◌^◌, ◌<◌, ◌≡◌, Option, none, some, List, [], ◌∷◌, if◌then◌else◌, length,
}
use datacomm_chat_server.CString.{Str}

-- The runs of characters that are no delimiters: the run that a text begins with, which may be empty,
-- and the runs behind it.
abbrev with_run : Str → List Str → List Str
with_run [] runs = runs
with_run (c ∷ run) runs = (c ∷ run) ∷ runs

abbrev first_runs : Str → Str → Str × List Str
first_runs delim [] = ([], [])
first_runs delim (c ∷ s) =
    let later = first_runs delim s in
    if is_delimiter delim c then ([], with_run later.0 later.1) else (c ∷ later.0, later.1)

abbrev pub runs : Str → Str → List Str
runs delim s = with_run (first_runs delim s).0 (first_runs delim s).1

abbrev pub chopped : List Str → List Str
chopped [] = []
chopped (token ∷ tokens) = chop_newline token ∷ chopped tokens

-- The token that `strtok` finds, and the runs behind it.
abbrev runs_from : Str → Option (Str × Str) → List Str
runs_from delim none = []
runs_from delim (some (token, rest)) = token ∷ runs delim rest

-- There is a place for the next token and for the null pointer behind it.
record HasRoom (ret : Ret) : Type 0 where
  whole : ret.allocated ≡ ret.ret_size
  room : length ret.words + 1 < ret.ret_size

-- What is written to `out_count` for a list of tokens.
abbrev pub count_of : List Str → Option ℕ
count_of [] = none
count_of (token ∷ tokens) = some (length (token ∷ tokens) % 2 ^ 32)
