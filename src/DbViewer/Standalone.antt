-- ===== src/DbViewer/Standalone.antt =====
-- db_viewer/main.c: a program of its own that prints the records of three databases. It declares the
-- structures with other sizes than include/my_ndbm.h, so it reads the fields of a record at other
-- places than the server has written them.
pub mod Accounts
pub mod Program
use datacomm_chat_server.Prelude.{
  ℕ, ◌+◌, ◌-◌, ◌<◌, ◌≤◌, ◌≡◌, ◌∙◌, refl, ap, Option, some, [], ◌∷◌, ◌++◌, All, length, drop,
  replicate, arith, ◌≢◌, suc, zero, length-append, length-replicate,
}
use datacomm_chat_server.CString.{Str, codes, c_str}
use datacomm_chat_server.Ndbm.{Ndbm}
use datacomm_chat_server.Records.{UserLogin}
use datacomm_chat_server.DbViewer.{print_keys, name_line, newline}

-- A text in an array that was cleared before.
abbrev pub padded : ℕ → Str → Str
padded size text = text ++ replicate (size - length text) 0

-- The bytes of the server's `user_login_t`: arrays of 21, 31 and 37 bytes.
unfoldable pub login_bytes : UserLogin → Str
login_bytes user = padded 21 user.login_token ++ (padded 31 user.password ++ padded 37 user.uuid)

-- `%s` of the array at a place of a record.
unfoldable pub text_at : ℕ → Str → Str
unfolding c_str
text_at place bytes = c_str (drop place bytes)

-- The line of a login: `TOKEN_NAME_LENGTH` is 20 and `PSWD_MAX_LENGTH` is 30 here.
unfoldable pub standalone_login_line : Str → Str
unfolding text_at
standalone_login_line bytes =
    text_at 0 bytes ++ codes ", " ++ text_at 20 bytes ++ codes ", " ++ text_at 50 bytes ++ newline

module _ ⦃N : Ndbm⦄ where
  open N use {File, dbm_open, dbm_fetch, dbm_keys}

  unfoldable pub standalone_login_infos : File UserLogin → Option Str
  unfolding standalone_login_line login_bytes print_keys
  standalone_login_infos db =
      print_keys db (λ key user. some (standalone_login_line (login_bytes user))) (dbm_keys db)

  unfoldable pub standalone_display_names : File Str → Option Str
  unfolding print_keys
  standalone_display_names db = print_keys db (λ key uuid. some (name_line key uuid)) (dbm_keys db)

pub c_str-padded :
    (text : Str) (pad : ℕ) (more : Str)
    → All (λ c. c ≢ 0) text
    → 0 < pad
    → c_str (text ++ replicate pad 0 ++ more) ≡ text
unfolding c_str
c_str-padded [] zero more clean room = absurd (omega arith)
c_str-padded [] (suc pad) more clean room = refl
c_str-padded (c ∷ text) pad more clean room =
    ground (arith, c_str-padded text pad more clean.1 room)

-- Inside the padding of an array a text is empty.
pub c_str-padding :
    (n : ℕ) (text : Str) (pad : ℕ) (more : Str)
    → length text ≤ n
    → n < length text + pad
    → c_str (drop n ((text ++ replicate pad 0) ++ more)) ≡ []
unfolding c_str
c_str-padding n [] zero more low high = absurd (omega arith)
c_str-padding zero [] (suc pad) more low high = refl
c_str-padding (suc n) [] (suc pad) more low high =
    c_str-padding n [] pad more (omega arith) (omega arith)
c_str-padding zero (c ∷ text) pad more low high = absurd (omega arith)
c_str-padding (suc n) (c ∷ text) pad more low high =
    c_str-padding n text pad more (omega arith) (omega arith)

pub drop-behind : (n m : ℕ) (xs ys : Str) → length xs + m ≡ n → drop n (xs ++ ys) ≡ drop m ys
drop-behind n m [] ys e = let same : n ≡ m = omega arith in ap (λ k. drop k ys) same
drop-behind zero m (x ∷ xs) ys e = absurd (omega arith)
drop-behind (suc n) m (x ∷ xs) ys e = drop-behind n m xs ys (omega arith)

pub length-padded : (size : ℕ) (text : Str) → length text ≤ size → length (padded size text) ≡ size
length-padded size text fits = omega (
  arith,
  length-append text (replicate (size - length text) 0),
  length-replicate {A = ℕ} (size - length text) 0,
)

-- Of every login that the server stores, with a token that its array has room for and a password of
-- less than 30 bytes, the program shows the token alone: where it reads the password and the
-- identifier it finds the NULs behind the token and behind the password.
pub standalone_login_line-token :
    (user : UserLogin)
    → All (λ c. c ≢ 0) user.login_token
    → length user.login_token < 21
    → length user.password < 30
    → standalone_login_line (login_bytes user)
      ≡ user.login_token ++ codes ", " ++ [] ++ codes ", " ++ [] ++ newline
unfolding standalone_login_line text_at login_bytes
standalone_login_line-token user clean short_token short_password =
    let t = user.login_token in
    let p = user.password in
    let rest = padded 31 p ++ padded 37 user.uuid in
    let token : c_str (padded 21 t ++ rest) ≡ t =
      c_str-padded t (21 - length t) rest clean (omega arith) in
    let password : c_str (drop 20 (padded 21 t ++ rest)) ≡ [] =
      c_str-padding 20 t (21 - length t) rest (omega arith) (omega arith) in
    let size = length-padded 21 t (omega arith) in
    let uuid : c_str (drop 50 (padded 21 t ++ rest)) ≡ [] =
      ap c_str (drop-behind 50 29 (padded 21 t) rest (omega (arith, size)))
      ∙ c_str-padding 29 p (31 - length p) (padded 37 user.uuid) (omega arith) (omega arith) in
    ap
      (λ a.
        a
        ++ codes ", "
        ++ c_str (drop 20 (padded 21 t ++ rest))
        ++ codes ", "
        ++ c_str (drop 50 (padded 21 t ++ rest))
        ++ newline)
      token
    ∙ ap
        (λ b.
          t ++ codes ", " ++ b ++ codes ", " ++ c_str (drop 50 (padded 21 t ++ rest)) ++ newline)
        password
    ∙ ap (λ c. t ++ codes ", " ++ [] ++ codes ", " ++ c ++ newline) uuid
