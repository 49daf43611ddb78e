-- ===== src/Channel/Members.antt =====
-- src/my_ndbm.c, `add_users_on_channel`: the members of a channel after users were added.
use datacomm_chat_server.Prelude.{
  ◌≡◌, refl, true, false, ◌++◌, ◌∷◌, [], ◌+◌, ◌≤◌, arith, Bool-cases, inl, inr, length, List, All,
  ap, subst, ℕ, replicate, suc, zero, take_all,
}
use datacomm_chat_server.CString.{Str, streq, is_empty}
use datacomm_chat_server.CString.Tokens.{streq_refl, eq_of_streq}
use datacomm_chat_server.Database.Update.{
  user_in_list, blank_member, blank_members, fill_places, add_from_free, add_users,
}
use datacomm_chat_server.Channel.{occupied}

add_from_free-keeps :
    (members us : List Str)
    → (more : List Str) × (occupied (add_from_free members us) ≡ occupied members ++ more)
unfolding add_from_free occupied
add_from_free-keeps [] us = ([], refl)
add_from_free-keeps (m ∷ ms) us = elim (Bool-cases (is_empty m)) [
  | inl free ↦ (occupied (fill_places (m ∷ ms) us), rw free refl)
  | inr taken ↦
      let (more, e) = add_from_free-keeps ms us in (more, rw taken (rw taken (ap (◌∷◌ m) e)))
]

-- Adding writes only behind the members: whatever is added, those up to the first free place stay.
pub add_users-keeps :
    (members to_add : List Str)
    → (more : List Str) × (occupied (add_users members to_add) ≡ occupied members ++ more)
unfolding add_users
add_users-keeps members to_add = add_from_free-keeps members (blank_members members to_add)

length-fill_places : (ps us : List Str) → length (fill_places ps us) ≡ length ps
unfolding fill_places
length-fill_places [] us = refl
length-fill_places (p ∷ ps) [] = refl
length-fill_places (p ∷ ps) (u ∷ us) = ground (arith, length-fill_places ps us)

length-add_from_free : (members us : List Str) → length (add_from_free members us) ≡ length members
unfolding add_from_free
length-add_from_free [] us = refl
length-add_from_free (m ∷ ms) us =
    ground (arith, length-add_from_free ms us, length-fill_places (m ∷ ms) us)

-- The array keeps its number of places.
pub length-add_users :
    (members to_add : List Str) → length (add_users members to_add) ≡ length members
unfolding add_users
length-add_users members to_add = length-add_from_free members (blank_members members to_add)

-- The names to add, none of which is a member.
abbrev pub AreNew : List Str → List Str → Type 0
AreNew members to_add = All (λ m. user_in_list m to_add ≡ false) (occupied members)

blank_member_new :
    (m : Str) (us : List Str)
    → is_empty m ≡ false
    → user_in_list m us ≡ false
    → blank_member m us ≡ us
unfolding blank_member user_in_list
blank_member_new m [] h e = refl
blank_member_new m (u ∷ us) h e = ground (arith, blank_member_new m us h)

occupied_taken :
    (m : Str) (ms : List Str) → is_empty m ≡ false → occupied (m ∷ ms) ≡ m ∷ occupied ms
unfolding occupied
occupied_taken m ms taken = rw taken refl

blank_members_new : (members us : List Str) → AreNew members us → blank_members members us ≡ us
unfolding blank_members occupied
blank_members_new [] us h = refl
blank_members_new (m ∷ ms) us h = elim (Bool-cases (is_empty m)) [
  | inl free ↦ rw free refl
  | inr taken ↦
      let there : All (λ m. user_in_list m us ≡ false) (m ∷ occupied ms) =
        subst (All (λ m. user_in_list m us ≡ false)) (occupied_taken m ms taken) h in
      rw taken (rw (blank_member_new m us taken there.0) (blank_members_new ms us there.1))
]

-- The places behind the members are free.
abbrev pub IsFilled : List Str → Type 0
IsFilled [] = Unit {0}
IsFilled (m ∷ ms) = (is_empty m ≡ true → All (λ p. is_empty p ≡ true) ms) × IsFilled ms

-- Names that an array of 21 bytes holds.
abbrev pub AreShort : List Str → Type 0
AreShort = All (λ u. length u ≤ 21)

fill_places-occupied :
    (ps us : List Str)
    → AreShort us
    → All (λ p. is_empty p ≡ true) ps
    → length (occupied us) ≤ length ps
    → occupied (fill_places ps us) ≡ occupied us
unfolding fill_places occupied
fill_places-occupied [] [] short h room = refl
fill_places-occupied [] (u ∷ us) short h room = ground arith
fill_places-occupied (p ∷ ps) [] short h room = rw h.0 refl
fill_places-occupied (p ∷ ps) (u ∷ us) short h room =
    rw (take_all 21 u short.0) (ground (arith, h.0, fill_places-occupied ps us short.1 h.1))

add_from_free-occupied :
    (members us : List Str)
    → AreShort us
    → IsFilled members
    → length (occupied members) + length (occupied us) ≤ length members
    → occupied (add_from_free members us) ≡ occupied members ++ occupied us
unfolding add_from_free occupied
add_from_free-occupied [] [] short filled room = refl
add_from_free-occupied [] (u ∷ us) short filled room = ground arith
add_from_free-occupied (m ∷ ms) us short filled room = elim (Bool-cases (is_empty m)) [
  | inl free ↦
      rw free (fill_places-occupied (m ∷ ms) us short (free, filled.0 free) (ground (arith, free)))
  | inr taken ↦
      rw taken (
        rw taken (ap (◌∷◌ m) (add_from_free-occupied ms us short filled.1 (ground (arith, taken)))))
]

-- When the places behind the members are free, no name to add is a member or has more than 21 bytes,
-- and there is room for all of them: the members afterwards are the members before, followed by the names to add up to
-- the first empty one.
pub add_users-appends :
    (members to_add : List Str)
    → AreShort to_add
    → IsFilled members
    → AreNew members to_add
    → length (occupied members) + length (occupied to_add) ≤ length members
    → occupied (add_users members to_add) ≡ occupied members ++ occupied to_add
unfolding add_users
add_users-appends members to_add short filled new room =
    rw (blank_members_new members to_add new)
      (add_from_free-occupied members to_add short filled room)

blank_member_stops : (m : Str) (us : List Str) → blank_member m ([] ∷ us) ≡ [] ∷ us
unfolding blank_member
blank_member_stops m us = refl

blank_members_stops : (members us : List Str) → blank_members members ([] ∷ us) ≡ [] ∷ us
unfolding blank_members
blank_members_stops [] us = refl
blank_members_stops (m ∷ ms) us = ground (arith, blank_member_stops m us, blank_members_stops ms us)

streq_differs : (a b : Str) → streq b a ≡ false → streq a b ≡ false
streq_differs a b h = elim (Bool-cases (streq a b)) [
  | inl same ↦ absurd (cc (h, eq_of_streq a b same, streq_refl a))
  | inr other ↦ other
]

-- The first name becomes blank.
blank_members_first :
    (members : List Str) (name : Str) (us : List Str)
    → is_empty name ≡ false
    → user_in_list name (occupied members) ≡ true
    → (more : List Str) × (blank_members members (name ∷ us) ≡ [] ∷ more)
unfolding blank_members occupied user_in_list
blank_members_first [] name us named h = absurd (cc)
blank_members_first (m ∷ ms) name us named h = elim (Bool-cases (is_empty m)) [
  | inl free ↦ absurd (ground (arith, free, h))
  | inr taken ↦ elim (Bool-cases (streq name m)) [
    | inl same ↦
        let e = eq_of_streq name m same in
        (
          blank_member m us,
          rw (taken, named) (rw (e, streq_refl m) (blank_members_stops ms (blank_member m us))),
        )
    | inr other ↦
        let (more, e) =
          blank_members_first ms name (blank_member m us) named (ground (arith, taken, other, h)) in
        (more, rw (taken, named) (rw (streq_differs m name other) e))
  ]
]

add_from_free_blank : (members us : List Str) → add_from_free members ([] ∷ us) ≡ members
unfolding add_from_free fill_places
add_from_free_blank [] us = refl
add_from_free_blank (m ∷ ms) us = ground (arith, add_from_free_blank ms us)

-- When the first name to add is not empty and a member already, nothing is added, whatever else
-- there is to add.
pub add_users_first_member :
    (members : List Str) (name : Str) (to_add : List Str)
    → is_empty name ≡ false
    → user_in_list name (occupied members) ≡ true
    → add_users members (name ∷ to_add) ≡ members
unfolding add_users
add_users_first_member members name to_add named h =
    let (more, e) = blank_members_first members name to_add named h in
    rw e (add_from_free_blank members more)

All-free : (n : ℕ) → All (λ p. is_empty p ≡ true) (replicate n [])
All-free zero = tt
All-free (suc n) = (refl, All-free n)

-- A list without members.
pub free-IsFilled : (n : ℕ) → IsFilled (replicate n [])
free-IsFilled zero = tt
free-IsFilled (suc n) = ((λ e. All-free n), free-IsFilled n)
