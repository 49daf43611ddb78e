-- ===== src/DbViewer/Standalone/Accounts.antt =====
-- The accounts in db_viewer/main.c, on the bytes of the server's `user_account_t`.
use datacomm_chat_server.Prelude.{
  ℕ, ◌+◌, ◌-◌, ◌<◌, ◌≤◌, ◌≡◌, ◌∙◌, ap, Option, some, [], ◌∷◌, ◌++◌, All, length, drop, arith, ◌≢◌,
  if◌then◌else◌, ltb, pos, get_elem?, ◌*◌, ◌^◌, take, zero, suc, length-append, replicate, none,
  append_assoc,
}
use datacomm_chat_server.CString.{Str, codes, c_str, decimal, show_int, to_int}
use datacomm_chat_server.Header.{word_bytes}
use datacomm_chat_server.Ndbm.{Ndbm}
use datacomm_chat_server.Records.{UserAccount}
use datacomm_chat_server.DbViewer.{print_keys, newline, flag}
use datacomm_chat_server.DbViewer.Standalone.{
  padded, text_at, c_str-padded, c_str-padding, drop-behind, length-padded,
}

-- The bytes of the server's `user_account_t`: arrays of 37, 21 and 16 bytes, a `bool`, a byte of
-- padding and an `int`.
unfoldable pub account_bytes : UserAccount → ℕ → Str
unfolding word_bytes
account_bytes user padding =
    padded 37 user.user_id
    ++ (padded 21 user.display_name
        ++ (padded 16 user.ip_addr
            ++ (flag user.online_status ∷ padding ∷ word_bytes user.privilege_level)))

-- A byte of memory.
unfoldable pub byte_at : ℕ → Str → ℕ
byte_at place bytes = elim (get_elem? bytes place) [ none ↦ 0 | some b ↦ b ]

-- `%d` of the four bytes at a place.
unfoldable pub int_at : ℕ → Str → Str
unfolding byte_at show_int to_int
int_at place bytes = show_int (
    to_int (
      pos (
        byte_at place bytes
        + byte_at (place + 1) bytes * 2 ^ 8
        + byte_at (place + 2) bytes * 2 ^ 16
        + byte_at (place + 3) bytes * 2 ^ 24)))

-- `strncpy` of 16 bytes of a text into an array where `malloc` left other bytes behind them.
unfoldable pub copied_address : Str → Str → Str
unfolding c_str
copied_address text residue = if ltb (length text) 16 then text else take 16 text ++ c_str residue

-- The line of an account: the fields of its structure are at 0, 37, 60, 76 and 80.
unfoldable pub standalone_account_line : Str → Str → Str
unfolding text_at int_at byte_at decimal copied_address
standalone_account_line bytes residue =
    text_at 0 bytes
    ++ codes ", "
    ++ text_at 37 bytes
    ++ codes ", "
    ++ copied_address (text_at 60 bytes) residue
    ++ codes ", "
    ++ decimal (byte_at 76 bytes)
    ++ codes ", "
    ++ int_at 80 bytes
    ++ newline

module _ ⦃N : Ndbm⦄ where
  open N use {File, dbm_keys}

  -- `behind` is what lies behind the record under a key, and `padding` its byte of padding.
  unfoldable pub standalone_user_accounts :
      (Str → ℕ) → (Str → Str) → Str → File UserAccount → Option Str
  unfolding standalone_account_line account_bytes print_keys
  standalone_user_accounts padding behind residue db =
      print_keys db
        (λ key user.
          some (standalone_account_line (account_bytes user (padding key) ++ behind key) residue))
        (dbm_keys db)

-- A place in an array before its first NUL but one.
c_str-dropped :
    (n : ℕ) (text : Str) (pad : ℕ) (more : Str)
    → All (λ c. c ≢ 0) text
    → 0 < pad
    → n < length text + pad
    → c_str (drop n ((text ++ replicate pad 0) ++ more)) ≡ drop n text
c_str-dropped zero text pad more clean room high = c_str-padded text pad more clean room
c_str-dropped (suc n) [] pad more clean room high =
    c_str-padding (suc n) [] pad more (omega arith) (omega arith)
c_str-dropped (suc n) (c ∷ text) pad more clean room high =
    c_str-dropped n text pad more clean.1 room (omega arith)

byte_at-behind : (n m : ℕ) (xs ys : Str) → length xs + m ≡ n → byte_at n (xs ++ ys) ≡ byte_at m ys
unfolding byte_at
byte_at-behind n m [] ys e = let same : n ≡ m = omega arith in ap (λ k. byte_at k ys) same
byte_at-behind zero m (x ∷ xs) ys e = absurd (omega arith)
byte_at-behind (suc n) m (x ∷ xs) ys e = byte_at-behind n m xs ys (omega arith)

int_at-behind : (n : ℕ) (xs ys : Str) → length xs ≡ n → int_at n (xs ++ ys) ≡ int_at 0 ys
unfolding int_at
int_at-behind n xs ys e = rw (
  byte_at-behind n 0 xs ys (omega (arith, e)),
  byte_at-behind (n + 1) 1 xs ys (omega (arith, e)),
  byte_at-behind (n + 2) 2 xs ys (omega (arith, e)),
  byte_at-behind (n + 3) 3 xs ys (omega (arith, e)),
)

length-drop_le : (n : ℕ) (xs : Str) → length (drop n xs) ≤ length xs
length-drop_le zero xs = omega arith
length-drop_le (suc n) [] = omega arith
length-drop_le (suc n) (x ∷ xs) = omega (arith, length-drop_le n xs)

-- An account whose texts are without a NUL and fit their arrays.
pub record IsStorable (user : UserAccount) : Type 0 where
  pub id_clean : All (λ c. c ≢ 0) user.user_id
  pub name_clean : All (λ c. c ≢ 0) user.display_name
  pub ip_clean : All (λ c. c ≢ 0) user.ip_addr
  pub id_fits : length user.user_id < 37
  pub name_fits : length user.display_name < 21
  pub ip_fits : length user.ip_addr < 16

module _ (user : UserAccount) (padding : ℕ) (behind : Str) (ok : IsStorable user) where
  tail_bytes : Str
  tail_bytes = flag user.online_status ∷ padding ∷ (word_bytes user.privilege_level ++ behind)

  from_ip : Str
  unfolding tail_bytes
  from_ip = padded 16 user.ip_addr ++ tail_bytes

  from_name : Str
  unfolding from_ip
  from_name = padded 21 user.display_name ++ from_ip

  account_bytes-append : account_bytes user padding ++ behind ≡ padded 37 user.user_id ++ from_name
  unfolding account_bytes from_name from_ip tail_bytes
  account_bytes-append = simp (append_assoc)

  length-account_bytes : length (account_bytes user padding) ≡ 80
  unfolding account_bytes word_bytes
  length-account_bytes = omega (
    arith,
    length-append (padded 37 user.user_id) (
        padded 21 user.display_name
        ++ (padded 16 user.ip_addr
            ++ (flag user.online_status ∷ padding ∷ word_bytes user.privilege_level))),
    length-append (padded 21 user.display_name) (
        padded 16 user.ip_addr
        ++ (flag user.online_status ∷ padding ∷ word_bytes user.privilege_level)),
    length-append (padded 16 user.ip_addr)
        (flag user.online_status ∷ padding ∷ word_bytes user.privilege_level),
    length-padded 37 user.user_id (omega (arith, ok.id_fits)),
    length-padded 21 user.display_name (omega (arith, ok.name_fits)),
    length-padded 16 user.ip_addr (omega (arith, ok.ip_fits)),
  )

  id_field : text_at 0 (padded 37 user.user_id ++ from_name) ≡ user.user_id
  unfolding text_at
  id_field =
      c_str-padded user.user_id (37 - length user.user_id) from_name ok.id_clean
        (omega (arith, ok.id_fits))

  name_field : text_at 37 (padded 37 user.user_id ++ from_name) ≡ user.display_name
  unfolding text_at from_name
  name_field =
      ap c_str (
        drop-behind 37 0 (padded 37 user.user_id) from_name
          (omega (arith, length-padded 37 user.user_id (omega (arith, ok.id_fits)))))
      ∙ c_str-padded user.display_name (21 - length user.display_name) from_ip ok.name_clean
          (omega (arith, ok.name_fits))

  ip_field : text_at 60 (padded 37 user.user_id ++ from_name) ≡ drop 2 user.ip_addr
  unfolding text_at from_name from_ip
  ip_field =
      ap c_str (
        drop-behind 60 23 (padded 37 user.user_id) from_name
          (omega (arith, length-padded 37 user.user_id (omega (arith, ok.id_fits))))
        ∙ drop-behind 23 2 (padded 21 user.display_name) from_ip
            (omega (arith, length-padded 21 user.display_name (omega (arith, ok.name_fits)))))
      ∙ c_str-dropped 2 user.ip_addr (16 - length user.ip_addr) tail_bytes ok.ip_clean
          (omega (arith, ok.ip_fits)) (omega (arith, ok.ip_fits))

  level_field :
      user.privilege_level < 256
      → byte_at 76 (padded 37 user.user_id ++ from_name) ≡ user.privilege_level
  unfolding from_name from_ip tail_bytes word_bytes byte_at
  level_field small =
      byte_at-behind 76 39 (padded 37 user.user_id) from_name
        (omega (arith, length-padded 37 user.user_id (omega (arith, ok.id_fits))))
      ∙ byte_at-behind 39 18 (padded 21 user.display_name) from_ip
          (omega (arith, length-padded 21 user.display_name (omega (arith, ok.name_fits))))
      ∙ byte_at-behind 18 2 (padded 16 user.ip_addr) tail_bytes
          (omega (arith, length-padded 16 user.ip_addr (omega (arith, ok.ip_fits))))
      ∙ omega (arith, small)

-- Of an account whose texts fit their arrays and have no NUL, and whose privilege level is 0 or 1,
-- the stand-alone viewer shows the identifier and the display name, the address without its first two
-- characters, the privilege level where the online status belongs, and as the privilege level four
-- bytes from behind the record.
pub standalone_account_line-shifted :
    (user : UserAccount) (padding : ℕ) (behind residue : Str)
    → IsStorable user
    → user.privilege_level ≤ 1
    → standalone_account_line (account_bytes user padding ++ behind) residue
      ≡ user.user_id
        ++ codes ", "
        ++ user.display_name
        ++ codes ", "
        ++ drop 2 user.ip_addr
        ++ codes ", "
        ++ decimal user.privilege_level
        ++ codes ", "
        ++ int_at 0 behind
        ++ newline
unfolding standalone_account_line copied_address
standalone_account_line-shifted user padding behind residue ok level =
    let whole = account_bytes-append user padding behind ok in
    let last : int_at 80 (account_bytes user padding ++ behind) ≡ int_at 0 behind =
      int_at-behind 80 (account_bytes user padding) behind
        (length-account_bytes user padding behind ok) in
    let short : length (drop 2 user.ip_addr) < 16 =
      omega (arith, length-drop_le 2 user.ip_addr, ok.ip_fits) in
    rw last (
      rw whole (
        rw
          (
            id_field user padding behind ok,
            name_field user padding behind ok,
            ip_field user padding behind ok,
            level_field user padding behind ok (omega arith),
            short,
          )
          (ground (arith, short))))
