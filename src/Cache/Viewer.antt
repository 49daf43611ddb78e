-- ===== src/Cache/Viewer.antt =====
-- What `view_active_users` and `find_duplicate_user` of src/server.c say of the connected users.
use datacomm_chat_server.Prelude.{
  ◌≡◌, refl, ap, List, [], ◌∷◌, ◌++◌, length, arith, if◌then◌else◌, ◌==◌, Bool-cases, inl, inr,
}
use datacomm_chat_server.CString.{Str, codes, decimal, is_empty}
use datacomm_chat_server.Records.{ConnectedUser}
use datacomm_chat_server.Cache.{view_active_users, user_line, user_lines, first_is_free}
use datacomm_chat_server.Cache.View.{IsCache, connected, get_num-connected}

-- A line for each user.
pub lines_of : List ConnectedUser → List Str
lines_of [] = []
lines_of (u ∷ us) = user_line u ∷ lines_of us

user_lines-connected :
    (us : List ConnectedUser) → user_lines (length (connected us)) us ≡ lines_of (connected us)
unfolding user_lines connected lines_of
user_lines-connected [] = refl
user_lines-connected (u ∷ us) = elim (Bool-cases (is_empty u.dsply_name)) [
  | inl free ↦ rw (connected, free) refl
  | inr used ↦ rw (connected, used) (ap (λ l. user_line u ∷ l) (user_lines-connected us))
]

first_is_free-connected :
    (us : List ConnectedUser) → first_is_free us ≡ (length (connected us) == 0)
unfolding connected
first_is_free-connected [] = refl
first_is_free-connected (u ∷ us) = elim (Bool-cases (is_empty u.dsply_name)) [
  | inl free ↦ rw (connected, free) refl
  | inr used ↦ rw (connected, used) (ground arith)
]

-- The viewer shows how many users are connected and then each of them once, in the order of the
-- array; without any it says so.
pub view_active_users-connected :
    (cache : List ConnectedUser)
    → IsCache cache
    → view_active_users cache ≡ (
        if length (connected cache) == 0
        then (codes "There are no active users." ++ 10 ∷ []) ∷ []
        else (10 ∷ codes "Active user count: " ++ decimal (length (connected cache)) ++ 10 ∷ [])
          ∷ lines_of (connected cache))
unfolding view_active_users
view_active_users-connected cache ok =
    rw
      (
        view_active_users,
        first_is_free-connected cache,
        get_num-connected cache (omega (arith, ok.size)),
        user_lines-connected cache,
      )
      refl
