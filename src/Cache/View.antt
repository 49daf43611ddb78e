-- ===== src/Cache/View.antt =====
-- The array as a list of the connected users, and what the operations do to that list.
use datacomm_chat_server.CString.Tokens.{streq_refl}
use datacomm_chat_server.Prelude.{
  ℕ, zero, suc, ◌+◌, ◌≤◌, ◌<◌, ◌≡◌, refl, ap, ◌∙◌, true, false, none, some, List, [], ◌∷◌, ◌++◌,
  if◌then◌else◌, length, set, length-set, arith, Bool-cases, inl, inr, All, subst, replicate,
}
use datacomm_chat_server.CString.{Str, streq, is_empty}
use datacomm_chat_server.Records.{ConnectedUser, max_clients}
use datacomm_chat_server.Cache.{
  count_from, get_num_connected_users, insert_user_in_cache, shift_up, remove_among,
  remove_user_in_cache, no_user, initial_users,
}

-- The connected users: the entries in front of the first one without a name.
unfoldable pub connected : List ConnectedUser → List ConnectedUser
connected [] = []
connected (u ∷ us) = if is_empty u.dsply_name then [] else u ∷ connected us

abbrev IsFree : ConnectedUser → Type 0
IsFree u = is_empty u.dsply_name ≡ true

-- Behind the first entry without a name no entry has one.
abbrev pub IsCompact : List ConnectedUser → Type 0
IsCompact [] = Unit {0}
IsCompact (u ∷ us) = (is_empty u.dsply_name ≡ true → All IsFree us) × IsCompact us

-- The array as the server keeps it: of its declared size, and compact.
pub record IsCache (cache : List ConnectedUser) : Type 0 where
  pub size : length cache ≡ max_clients
  pub compact : IsCompact cache

count_from-connected :
    (n : ℕ) (us : List ConnectedUser)
    → n + length us ≤ max_clients
    → count_from n us ≡ n + length (connected us)
unfolding count_from connected
count_from-connected n [] h = omega arith
count_from-connected n (u ∷ us) h = ground (arith, count_from-connected (n + 1) us)

-- `get_num_connected_users` counts the connected users.
pub get_num-connected :
    (cache : List ConnectedUser)
    → length cache ≤ max_clients
    → get_num_connected_users cache ≡ length (connected cache)
unfolding get_num_connected_users
get_num-connected cache h = ground (arith, count_from-connected 0 cache)

length-connected : (us : List ConnectedUser) → length (connected us) ≤ length us
unfolding connected
length-connected [] = omega arith
length-connected (u ∷ us) = ground (arith, length-connected us)

connected_free : (us : List ConnectedUser) → All IsFree us → connected us ≡ []
unfolding connected
connected_free [] h = refl
connected_free (u ∷ us) h = rw h.0

-- Writing the entry behind the connected users appends it.
connected-set :
    (us : List ConnectedUser) (u : ConnectedUser)
    → IsCompact us
    → length (connected us) < length us
    → is_empty u.dsply_name ≡ false
    → (connected (set us (length (connected us)) u) ≡ connected us ++ u ∷ [])
      × IsCompact (set us (length (connected us)) u)
unfolding connected
connected-set [] u c h e = absurd (omega arith)
connected-set (v ∷ us) u c h e = elim (Bool-cases (is_empty v.dsply_name)) [
  | inl free ↦ rw free (rw (e, connected_free us (c.0 free)) refl, ((λ x. cc (e, x)), c.1))
  | inr taken ↦
      let (grown, compact) = connected-set us u c.1 (ground (arith, h, taken)) e in
      rw taken (rw (taken, grown), ((λ x. cc (taken, x)), compact))
]

-- An insert of a user with a name into a well-formed array that is not full puts the new user
-- behind the connected ones, and keeps the array well-formed.
pub insert_user_in_cache-connected :
    (cache : List ConnectedUser) (u : ConnectedUser)
    → IsCache cache
    → is_empty u.dsply_name ≡ false
    → length (connected cache) < max_clients
    → (after : List ConnectedUser) × (insert_user_in_cache u cache ≡ some after)
      × IsCache after
      × (connected after ≡ connected cache ++ u ∷ [])
unfolding insert_user_in_cache
insert_user_in_cache-connected cache u ok named room =
    let n = get_num-connected cache (omega (arith, ok.size)) in
    let (grown, compact) = connected-set cache u ok.compact (omega (arith, ok.size)) named in
    (
      set cache (length (connected cache)) u,
      ground (arith, n),
      record { size = length-set cache (length (connected cache)) u ∙ ok.size; compact = compact },
      grown,
    )

-- With every one of the 255 places taken the write is out of bounds.
pub insert_user_in_cache_full :
    (cache : List ConnectedUser) (u : ConnectedUser)
    → length cache ≡ max_clients
    → length (connected cache) ≡ max_clients
    → insert_user_in_cache u cache ≡ none
unfolding insert_user_in_cache
insert_user_in_cache_full cache u size full = ground (arith, get_num-connected cache (omega arith))

-- The connected users without the first one of a name.
pub remove_first : Str → List ConnectedUser → List ConnectedUser
remove_first name [] = []
remove_first name (u ∷ us) = if streq u.dsply_name name then us else u ∷ remove_first name us

-- A user who was added is the first of a new name.
pub remove_first-append :
    (us : List ConnectedUser) (u : ConnectedUser)
    → All (λ v. streq v.dsply_name u.dsply_name ≡ false) us
    → remove_first u.dsply_name (us ++ u ∷ []) ≡ us
unfolding remove_first
remove_first-append [] u other = rw (streq_refl u.dsply_name) refl
remove_first-append (v ∷ us) u other = rw (other.0, remove_first-append us u other.1) refl

-- Moving up: what was connected behind the first entry is connected, and the array stays compact.
shift_up-connected :
    (u : ConnectedUser) (us : List ConnectedUser)
    → IsCompact us
    → (connected (shift_up (suc (length (connected us))) (u ∷ us)) ≡ connected us)
      × IsCompact (shift_up (suc (length (connected us))) (u ∷ us))
unfolding connected shift_up
shift_up-connected u [] c = (refl, ((λ x. tt), tt))
shift_up-connected u (v ∷ us) c = elim (Bool-cases (is_empty v.dsply_name)) [
  | inl free ↦ rw free (refl, ((λ x. (free, c.0 free)), c))
  | inr taken ↦
      let (moved, compact) = shift_up-connected v us c.1 in
      rw taken (rw (taken, moved), ((λ x. cc (taken, x)), compact))
]

length-shift_up : (n : ℕ) (us : List ConnectedUser) → length (shift_up n us) ≡ length us
unfolding shift_up
length-shift_up zero us = refl
length-shift_up (suc n) [] = refl
length-shift_up (suc zero) (u ∷ us) = refl
length-shift_up (suc (suc n)) (u ∷ []) = refl
length-shift_up (suc (suc n)) (u ∷ v ∷ us) = ap suc (length-shift_up (suc n) (v ∷ us))

length-remove_among :
    (n : ℕ) (name : Str) (us : List ConnectedUser) → length (remove_among n name us) ≡ length us
unfolding remove_among
length-remove_among zero name us = refl
length-remove_among (suc n) name [] = refl
length-remove_among (suc n) name (u ∷ us) =
    ground (arith, length-shift_up (suc n) (u ∷ us), length-remove_among n name us)

remove_among-connected :
    (name : Str) (us : List ConnectedUser)
    → IsCompact us
    → (connected (remove_among (length (connected us)) name us) ≡ remove_first name (connected us))
      × IsCompact (remove_among (length (connected us)) name us)
unfolding connected remove_among remove_first
remove_among-connected name [] c = (refl, c)
remove_among-connected name (u ∷ us) c = elim (Bool-cases (is_empty u.dsply_name)) [
  | inl free ↦ rw free (rw free refl, c)
  | inr taken ↦ elim (Bool-cases (streq u.dsply_name name)) [
    | inl found ↦ rw (taken, found) (shift_up-connected u us c.1)
    | inr other ↦
        let (rest, compact) = remove_among-connected name us c.1 in
        rw (taken, other) (rw (taken, rest) refl, ((λ x. cc (taken, x)), compact))
  ]
]

-- A removal from a well-formed array takes the first connected user of the name off the list, if
-- there is one, keeps the others in their order, and keeps the array well-formed.
pub remove_user_in_cache-connected :
    (cache : List ConnectedUser) (name : Str)
    → IsCache cache
    → IsCache (remove_user_in_cache name cache)
      × (connected (remove_user_in_cache name cache) ≡ remove_first name (connected cache))
unfolding remove_user_in_cache
remove_user_in_cache-connected cache name ok =
    let n = get_num-connected cache (omega (arith, ok.size)) in
    let (fewer, compact) = remove_among-connected name cache ok.compact in
    rw n (
      record {
        size = length-remove_among (length (connected cache)) name cache ∙ ok.size;
        compact = compact;
      },
      fewer,
    )

IsCompact-set :
    (us : List ConnectedUser) (u : ConnectedUser)
    → IsCompact us
    → IsCompact (set us (length (connected us)) u)
unfolding connected
IsCompact-set [] u c = tt
IsCompact-set (v ∷ us) u c = elim (Bool-cases (is_empty v.dsply_name)) [
  | inl free ↦ rw free ((λ x. c.0 free), c.1)
  | inr taken ↦ rw taken ((λ x. cc (taken, x)), IsCompact-set us u c.1)
]

-- An insert that succeeds keeps the array well-formed, whatever the new entry is.
pub insert_user_in_cache-IsCache :
    (u : ConnectedUser) (cache after : List ConnectedUser)
    → IsCache cache
    → insert_user_in_cache u cache ≡ some after
    → IsCache after
unfolding insert_user_in_cache
insert_user_in_cache-IsCache u cache after ok e =
    let n = get_num-connected cache (omega (arith, ok.size)) in
    let written : set cache (length (connected cache)) u ≡ after = ground (arith, n, e) in
    subst IsCache written (record {
      size = length-set cache (length (connected cache)) u ∙ ok.size;
      compact = IsCompact-set cache u ok.compact;
    })

replicate-IsCompact : (n : ℕ) → IsCompact (replicate n no_user) × All IsFree (replicate n no_user)
unfolding no_user
replicate-IsCompact zero = (tt, tt)
replicate-IsCompact (suc n) =
    let (compact, free) = replicate-IsCompact n in (((λ x. free), compact), (refl, free))

-- The cleared array is well-formed.
pub initial_users-IsCache : IsCache initial_users
unfolding initial_users
initial_users-IsCache = record { size = refl; compact = (replicate-IsCompact max_clients).0 }
