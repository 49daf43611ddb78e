-- ===== src/Records.antt =====
-- The structures of include/my_ndbm.h and include/server.h, the limits of their arrays, and the
-- state of a running server. A `char` array is the text that it holds.
use datacomm_chat_server.Prelude.{ℕ, Bool, List}
use datacomm_chat_server.CString.{Str}
use datacomm_chat_server.Ndbm.{Ndbm}

abbrev pub token_name_length : ℕ
token_name_length = 21

abbrev pub big_token_name_length : ℕ
big_token_name_length = 4096

abbrev pub pswd_max_length : ℕ
pswd_max_length = 31

abbrev pub dsply_name_length : ℕ
dsply_name_length = 21

abbrev pub clnt_ip_addr_length : ℕ
clnt_ip_addr_length = 16

abbrev pub default_list_size : ℕ
default_list_size = 64

abbrev pub timestamp_size : ℕ
timestamp_size = 32

abbrev pub max_message_size : ℕ
max_message_size = 974

abbrev pub default_buffer : ℕ
default_buffer = 1024

abbrev pub max_clients : ℕ
max_clients = 255

pub record UserLogin : Type 0 where
  pub login_token : Str
  pub password : Str
  pub uuid : Str

pub record UserAccount : Type 0 where
  pub user_id : Str
  pub display_name : Str
  pub ip_addr : Str
  pub online_status : Bool
  pub privilege_level : ℕ

-- Each list has `default_list_size` places, of which the empty ones are free.
pub record ChannelInfo : Type 0 where
  pub channel_id : Str
  pub creator : Str
  pub user_list : List Str
  pub admin_list : List Str
  pub banned_list : List Str
  pub channel_name : Str
  pub publicity : Bool

-- `time_stamp` is read by its size and not as a text, so it keeps its NULs.
pub record MessageInfo : Type 0 where
  pub message_id : Str
  pub user_id : Str
  pub channel_id : Str
  pub message_content : Str
  pub time_stamp : Str

pub record ConnectedUser : Type 0 where
  pub fd : ℕ
  pub dsply_name : Str
  pub ip_address : Str
  pub login_token : Str
  pub uuid : Str
  pub privilege_level : ℕ
  pub access_time : ℕ

-- What a request makes the server do at its sockets.
pub data Event : Type 0 where
  wrote : ℕ → Str → Event
  closed : ℕ → Event

-- The five databases, the array `active_users`, and the socket calls made so far, the last first.
pub record Server ⦃N : Ndbm⦄ : Type 0 where
  pub logins : N.File UserLogin
  pub names : N.File Str
  pub accounts : N.File UserAccount
  pub channels : N.File ChannelInfo
  pub messages : N.File MessageInfo
  pub cache : List ConnectedUser
  pub events : List Event

-- Which of the two writes of a response, the header and the body, succeed.
pub data Writes : Type 0 where
  all_written only_header none_written : Writes

-- What the environment answers during a request: the bytes that the reads of the request get from the
-- client's socket, the identifier that libuuid generates, the clock, what uninitialised heap memory
-- holds, and for each file descriptor which writes to it succeed. A `read` that finds no byte
-- waits until there is one, or until the client has closed its side, where it yields none: an input
-- that ends in front of a `read` is that of a client that has closed its side.
pub record Env : Type 0 where
  pub input : Str
  pub uuid : Str
  pub time : ℕ
  pub residue : Str
  pub writable : ℕ → Writes
