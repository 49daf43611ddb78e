-- ===== src/Process/Paths.antt =====
-- `setup_db_paths` of src/main-chat-server.c.
use datacomm_chat_server.Prelude.{
  ℕ, ◌+◌, ◌≡◌, refl, Option, some, none, ◌∷◌, ◌++◌, length, length-append, leb, ltb, if◌then◌else◌,
  arith, Flow, fault, exits, next, pos,
}
use datacomm_chat_server.Prelude.Ends.{◌>>=◌}
use datacomm_chat_server.CString.{Str, codes}

-- The arrays `DB_*_PATH`.
pub record DbPaths : Type 0 where
  pub login_info : Str
  pub display_names : Str
  pub user_account : Str
  pub channel_info : Str
  pub message_info : Str

abbrev pub path_max : ℕ
path_max = 4096

-- `strcpy` of the home directory, and `strcat` of the slash and of a name, in an array of `PATH_MAX`
-- bytes. A text that does not fit overruns the array.
unfoldable pub db_path : Str → Str → Flow Str
db_path home_dir name =
    let path = home_dir ++ b'/' ∷ name in if ltb (length path) path_max then next path else fault

-- `getenv("HOME")` may be null. The lengths that are added to that of the home directory are those of
-- the arrays just cleared.
unfoldable pub setup_db_paths : Option Str → Flow DbPaths
unfolding db_path
setup_db_paths none = exits (pos 1)
setup_db_paths (some home_dir) =
    if leb path_max (length home_dir + 0 + 1) then exits (pos 1) else do
      login_info ← db_path home_dir (codes "user_login_info")
      display_names ← db_path home_dir (codes "display_names")
      user_account ← db_path home_dir (codes "user_account_info")
      channel_info ← db_path home_dir (codes "channel_info")
      message_info ← db_path home_dir (codes "messages_info")
      next (record {
        login_info = login_info;
        display_names = display_names;
        user_account = user_account;
        channel_info = channel_info;
        message_info = message_info;
      })

abbrev pub under : Str → Str → Str
under home_dir name = home_dir ++ b'/' ∷ name

db_path_cases :
    (home_dir name : Str)
    → db_path home_dir name
      ≡ (if ltb (length home_dir + 1 + length name) 4096 then next (under home_dir name) else fault)
unfolding db_path
db_path_cases home_dir name =
    let size : length (home_dir ++ b'/' ∷ name) ≡ length home_dir + 1 + length name =
      omega (arith, length-append home_dir (b'/' ∷ name)) in
    rw (db_path, size) refl

-- The paths are the five names under the home directory where that has at most 4077 bytes. A home
-- directory of 4078 to 4094 bytes passes the test, which adds the lengths of empty arrays, and overruns
-- an array; a longer one is refused.
pub setup_db_paths_cases :
    (home_dir : Str)
    → setup_db_paths (some home_dir) ≡ (
        if ltb (length home_dir) 4078
        then next (record {
          login_info = under home_dir (codes "user_login_info");
          display_names = under home_dir (codes "display_names");
          user_account = under home_dir (codes "user_account_info");
          channel_info = under home_dir (codes "channel_info");
          message_info = under home_dir (codes "messages_info");
        })
        else if ltb (length home_dir) 4095
        then fault
        else exits (pos 1))
unfolding setup_db_paths
setup_db_paths_cases home_dir =
    rw
      (
        setup_db_paths,
        db_path_cases home_dir (codes "user_login_info"),
        db_path_cases home_dir (codes "display_names"),
        db_path_cases home_dir (codes "user_account_info"),
        db_path_cases home_dir (codes "channel_info"),
        db_path_cases home_dir (codes "messages_info"),
      )
      (ground arith)
