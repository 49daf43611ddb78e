-- ===== src/Cache.antt =====
-- src/server.c: the functions on the array `active_users` of connected users. The entries in use
-- stand in front, and an entry with an empty display name ends them.
pub mod View
pub mod Viewer
use datacomm_chat_server.Prelude.{
  ℕ, zero, suc, ◌+◌, Bool, true, false, ◌&&◌, not, Option, none, some, List, [], ◌∷◌, ◌==◌, leb,
  ltb, if◌then◌else◌, set, length, replicate, take, ◌++◌,
}
use datacomm_chat_server.CString.{Str, streq, is_empty, codes, decimal}
use datacomm_chat_server.Records.{UserLogin, UserAccount, ConnectedUser, max_clients}

-- A place of the array that `memset` has cleared.
unfoldable pub no_user : ConnectedUser
no_user = record {
  fd = 0;
  dsply_name = [];
  ip_address = [];
  login_token = [];
  uuid = [];
  privilege_level = 0;
  access_time = 0;
}

-- The array as `main` clears it.
unfoldable pub initial_users : List ConnectedUser
unfolding no_user
initial_users = replicate max_clients no_user

-- The loop of `get_num_connected_users`, with its counter.
count_from : ℕ → List ConnectedUser → ℕ
count_from n [] = n
count_from n (u ∷ us) =
    let more = count_from (n + 1) us in
    let same = count_from n us in
    if leb n max_clients && is_empty u.dsply_name
    then n
    else if not (is_empty u.dsply_name)
    then more
    else same

unfoldable pub get_num_connected_users : List ConnectedUser → ℕ
unfolding count_from
get_num_connected_users cache = count_from 0 cache

-- The entry that a login writes.
unfoldable pub connection : ℕ → ℕ → UserAccount → UserLogin → ConnectedUser
connection fd now account login = record {
  fd = fd;
  dsply_name = account.display_name;
  ip_address = account.ip_addr;
  login_token = login.login_token;
  uuid = account.user_id;
  privilege_level = account.privilege_level;
  access_time = now;
}

-- `cache[num_active_users] = insert_user`: with all places taken the write is out of bounds.
unfoldable pub insert_user_in_cache :
    ConnectedUser → List ConnectedUser → Option (List ConnectedUser)
unfolding get_num_connected_users
insert_user_in_cache user cache =
    let n = get_num_connected_users cache in
    if ltb n max_clients then some (set cache n user) else none

-- The entries behind the one removed move up by one. The last one stays behind as a copy, and loses
-- its display name.
unfoldable pub shift_up : ℕ → List ConnectedUser → List ConnectedUser
shift_up zero us = us
shift_up (suc n) [] = []
shift_up (suc zero) (u ∷ us) = record u { dsply_name = [] } ∷ us
shift_up (suc (suc n)) (u ∷ []) = u ∷ []
shift_up (suc (suc n)) (u ∷ v ∷ us) = v ∷ shift_up (suc n) (v ∷ us)

-- The loop of `remove_user_in_cache` over the first n entries.
unfoldable pub remove_among : ℕ → Str → List ConnectedUser → List ConnectedUser
unfolding shift_up
remove_among zero name us = us
remove_among (suc n) name [] = []
remove_among (suc n) name (u ∷ us) =
    if streq u.dsply_name name then shift_up (suc n) (u ∷ us) else u ∷ remove_among n name us

unfoldable pub remove_user_in_cache : Str → List ConnectedUser → List ConnectedUser
unfolding remove_among get_num_connected_users
remove_user_in_cache name cache = remove_among (get_num_connected_users cache) name cache

-- The three look-ups walk over the first n entries, n the number of connected users.
unfoldable pub first_among : (ConnectedUser → Bool) → ℕ → List ConnectedUser → Option ConnectedUser
first_among test zero us = none
first_among test (suc n) [] = none
first_among test (suc n) (u ∷ us) = if test u then some u else first_among test n us

unfoldable pub get_connected_user_by_display_name : List ConnectedUser → Str → Option ConnectedUser
unfolding first_among get_num_connected_users
get_connected_user_by_display_name cache name =
    first_among (λ u. streq u.dsply_name name) (get_num_connected_users cache) cache

unfoldable pub get_connected_user_by_fd : List ConnectedUser → ℕ → Option ConnectedUser
unfolding first_among get_num_connected_users
get_connected_user_by_fd cache fd =
    first_among (λ u. u.fd == fd) (get_num_connected_users cache) cache

abbrev same_cred : UserAccount → ℕ → ConnectedUser → Bool
same_cred account fd u =
    streq account.ip_addr u.ip_address && streq account.display_name u.dsply_name && fd == u.fd

unfoldable pub find_connected_user_with_same_cred : UserAccount → List ConnectedUser → ℕ → Bool
unfolding first_among get_num_connected_users
find_connected_user_with_same_cred account cache fd =
    elim (first_among (same_cred account fd) (get_num_connected_users cache) cache) [
      | none ↦ false
      | some u ↦ true
    ]

-- The display name, found by name and address.
unfoldable pub get_display_name_in_cache : List ConnectedUser → Str → Str → Option Str
unfolding first_among get_num_connected_users
get_display_name_in_cache cache ip_addr name =
    elim (first_among (λ u. streq u.ip_address ip_addr && streq u.dsply_name name)
      (get_num_connected_users cache) cache) [ none ↦ none | some u ↦ some u.dsply_name ]

-- The loops of `find_duplicate_user` over the pairs of users, on the flag and on `min_fd`.
abbrev pub same_name_elsewhere : ConnectedUser → ConnectedUser → Bool
same_name_elsewhere u v = streq u.dsply_name v.dsply_name && not (streq u.ip_address v.ip_address)

abbrev pub lower : ℕ → ℕ → ℕ
lower a b = if ltb a b then a else b

unfoldable pub duplicates_of : ConnectedUser → List ConnectedUser → Bool × ℕ → Bool × ℕ
duplicates_of u [] found = found
duplicates_of u (v ∷ vs) (found, min_fd) =
    let fd = lower u.fd v.fd in
    duplicates_of u vs (
      if same_name_elsewhere u v
      then (true, if ltb fd min_fd then fd else min_fd)
      else (found, min_fd))

unfoldable pub duplicates : List ConnectedUser → Bool × ℕ → Bool × ℕ
unfolding duplicates_of
duplicates [] found = found
duplicates (u ∷ us) found = duplicates us (duplicates_of u us found)

-- The entries that are looked at are the first `active_users_count`. `none` stands for -1.
unfoldable pub find_duplicate_user : List ConnectedUser → ℕ → Option ℕ
unfolding duplicates
find_duplicate_user cache active_users_count =
    let found = duplicates (take active_users_count cache) (false, 4) in
    if found.0 then some found.1 else none

-- The lines of `view_active_users`, one of `printw` each.
abbrev pub user_line : ConnectedUser → Str
user_line u =
    codes "display_name: "
    ++ u.dsply_name
    ++ codes ", fd: "
    ++ decimal u.fd
    ++ codes ", uuid: "
    ++ u.uuid
    ++ codes ", privilege lvl: "
    ++ decimal u.privilege_level
    ++ 10 ∷ []

unfoldable pub user_lines : ℕ → List ConnectedUser → List Str
user_lines zero us = []
user_lines (suc n) [] = []
user_lines (suc n) (u ∷ us) = user_line u ∷ user_lines n us

abbrev pub first_is_free : List ConnectedUser → Bool
first_is_free [] = true
first_is_free (u ∷ us) = is_empty u.dsply_name

unfoldable pub view_active_users : List ConnectedUser → List Str
unfolding get_num_connected_users user_lines
view_active_users cache =
    let num_active_users = get_num_connected_users cache in
    if first_is_free cache
    then (codes "There are no active users." ++ 10 ∷ []) ∷ []
    else (10 ∷ codes "Active user count: " ++ decimal num_active_users ++ 10 ∷ [])
      ∷ user_lines num_active_users cache
