-- ===== src/DbViewer.antt =====
-- src/db_viewer.c: the text that the database viewer prints.
pub mod Shows
pub mod Standalone
use datacomm_chat_server.Prelude.{
  ℕ, Bool, true, false, Option, none, some, List, [], ◌∷◌, ◌++◌, if◌then◌else◌,
}
use datacomm_chat_server.Prelude.Partial.{◌>>=◌}
use datacomm_chat_server.CString.{Str, codes, decimal, is_empty}
use datacomm_chat_server.Ndbm.{Ndbm}
use datacomm_chat_server.Records.{Server, UserLogin, UserAccount, ChannelInfo}

abbrev pub newline : Str
newline = 10 ∷ []

-- A `bool` under `%d`.
abbrev pub flag : Bool → ℕ
flag true = 1
flag false = 0

unfoldable pub account_line : UserAccount → Str
unfolding decimal
account_line user =
    user.user_id
    ++ codes ", "
    ++ user.display_name
    ++ codes ", "
    ++ user.ip_addr
    ++ codes ", "
    ++ decimal (flag user.online_status)
    ++ codes ", "
    ++ decimal user.privilege_level
    ++ newline

abbrev pub name_line : Str → Str → Str
name_line display_name uuid = display_name ++ codes ", " ++ uuid ++ newline

abbrev pub login_line : UserLogin → Str
login_line user =
    user.login_token ++ codes ", " ++ user.password ++ codes ", " ++ user.uuid ++ newline

-- The loop over a list of a channel tests the entry before the index: in a list without a free place
-- it reads behind the array, `none`.
unfoldable pub print_names : List Str → Option Str
print_names [] = none
print_names (name ∷ names) = elim (is_empty name) [
  | true ↦ some []
  | false ↦ (print_names names >>= λ rest. some (name ++ codes " " ++ rest))
]

unfoldable pub channel_lines : ChannelInfo → Option Str
unfolding print_names
channel_lines channel = do
  users ← print_names channel.user_list
  admins ← print_names channel.admin_list
  some (
      channel.channel_name
      ++ codes ", "
      ++ channel.creator
      ++ codes ", "
      ++ channel.channel_id
      ++ newline
      ++ codes "user list: "
      ++ newline
      ++ users
      ++ newline
      ++ codes "admin list: "
      ++ newline
      ++ admins
      ++ newline)

module _ ⦃N : Ndbm⦄ where
  open N use {File, dbm_open, dbm_fetch, dbm_keys}

  -- The loop of each `printAll*` over the keys. A key without a record is passed over.
  unfoldable pub print_keys : {V : Type 0} → File V → (Str → V → Option Str) → List Str → Option Str
  print_keys db line [] = some []
  print_keys db line (key ∷ keys) = elim (dbm_fetch db key) [
    | none ↦ print_keys db line keys
    | some value ↦
        (line key value >>= λ text. print_keys db line keys >>= λ rest. some (text ++ rest))
  ]

  unfoldable pub print_all_user_accounts : File UserAccount → Option Str
  unfolding print_keys account_line
  print_all_user_accounts db = print_keys db (λ key user. some (account_line user)) (dbm_keys db)

  unfoldable pub print_all_display_names : File Str → Option Str
  unfolding print_keys
  print_all_display_names db = print_keys db (λ key uuid. some (name_line key uuid)) (dbm_keys db)

  unfoldable pub print_all_login_infos : File UserLogin → Option Str
  unfolding print_keys
  print_all_login_infos db = print_keys db (λ key user. some (login_line user)) (dbm_keys db)

  unfoldable pub print_all_channel_infos : File ChannelInfo → Option Str
  unfolding print_keys channel_lines
  print_all_channel_infos db = print_keys db (λ key channel. channel_lines channel) (dbm_keys db)

  -- A section of `run_db_viewer`: its heading, and the records where the database opens.
  unfoldable pub section : {V : Type 0} → Str → File V → (File V → Option Str) → Option Str
  section heading file print = elim (dbm_open false file) [
    | none ↦ some (heading ++ newline ++ newline)
    | some db ↦ (print db >>= λ text. some (heading ++ newline ++ text ++ newline))
  ]

  unfoldable pub run_db_viewer : Server → Option Str
  unfolding section print_all_user_accounts print_all_display_names print_all_login_infos
      print_all_channel_infos
  run_db_viewer s = do
    accounts ← section (codes "UserAccounts DB") s.accounts print_all_user_accounts
    names ← section (codes "DisplayNames DB") s.names print_all_display_names
    logins ← section (codes "UserLoginInfo DB") s.logins print_all_login_infos
    channels ← section (codes "ChannelInfo DB") s.channels print_all_channel_infos
    some (accounts ++ names ++ logins ++ channels)
