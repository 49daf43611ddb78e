-- ===== src/Channel/Adding.antt =====
-- A request of a client that adds users to a channel, from its body to the record stored.
use datacomm_chat_server.CString.Tokens.{streq_refl}
use datacomm_chat_server.Prelude.{
  ℕ, arith, ◌+◌, ◌<◌, ◌≤◌, ◌-◌, ◌≡◌, ◌∙◌, refl, ap, sym, subst, true, none, some, List, [], ◌∷◌,
  ◌++◌, length, replicate, All, next, suc, zero, ltb, lt→ltb, Option-cases, inl, inr,
}
use datacomm_chat_server.Prelude.Partial.{is_some}
use datacomm_chat_server.CString.{Str, streq}
use datacomm_chat_server.Ndbm.{Ndbm, Reliable}
use datacomm_chat_server.Records.{Server, ChannelInfo}
use datacomm_chat_server.Request.{Reply}
use datacomm_chat_server.Request.Fields.{Fits}
use datacomm_chat_server.Database.{get_channel_info, success}
use datacomm_chat_server.Database.Channels.{
  StoredAt, get_channel_info-StoredAt, get_channel_info-is_some,
}
use datacomm_chat_server.Database.Update.{add_users, add_users_on_channel}
use datacomm_chat_server.Channel.{occupied}
use datacomm_chat_server.Channel.Members.{IsFilled, AreNew, AreShort, add_users-appends}
use datacomm_chat_server.Channel.Rename.{store_changed-stores}
use datacomm_chat_server.Channel.Update.{
  places, all_known, check_update, write_name, write_users, apply_update, reply_updated, updated,
  update_channel,
}
use datacomm_chat_server.Channel.Request.{
  Update, IsUpdate, IsNames, no_change, adds, render, request_of, parse_update-render, alter_of,
}

-- The request to add users to a channel, and nothing else.
abbrev pub adding : Str → List Str → Update
adding name names = record {
  name = name;
  new_name = none;
  publicity = none;
  users = adds names;
  admins = no_change;
  banned = no_change;
}

occupied_free : (n : ℕ) → occupied (replicate n []) ≡ []
unfolding occupied
occupied_free zero = refl
occupied_free (suc n) = refl

occupied-names :
    (names free : List Str)
    → All (Fits 21) names
    → occupied free ≡ []
    → occupied (names ++ free) ≡ names
unfolding occupied
occupied-names [] free h e = e
occupied-names (name ∷ names) free h e =
    let named = h.0.field.0 in
    rw (occupied, named) (ap (λ l. name ∷ l) (occupied-names names free h.1 e))

occupied-places : (names : List Str) → All (Fits 21) names → occupied (places names) ≡ names
occupied-places names h =
    occupied-names names (replicate (64 - length names) []) h (occupied_free (64 - length names))

free-AreShort : (n : ℕ) → AreShort (replicate n [])
free-AreShort zero = tt
free-AreShort (suc n) = (omega arith, free-AreShort n)

names-AreShort :
    (names free : List Str) → All (Fits 21) names → AreShort free → AreShort (names ++ free)
names-AreShort [] free h k = k
names-AreShort (name ∷ names) free h k =
    let short = h.0.short in (omega (arith, short), names-AreShort names free h.1 k)

module _ ⦃N : Ndbm⦄ where
  -- The tests of the names.
  check_update-adding :
      (s : Server) (name : Str) (names : List Str) (c : ChannelInfo)
      → get_channel_info s name ≡ some c
      → all_known s names ≡ true
      → check_update s (request_of (adding name names)) ≡ next tt
  unfolding check_update request_of alter_of all_known
  check_update-adding s name names c found known = rw found (rw known refl)

  write_name-adding :
      (s : Server) (name : Str) (names : List Str)
      → write_name s (request_of (adding name names)) ≡ (success, s)
  unfolding write_name request_of
  write_name-adding s name names = refl

  write_users-adding :
      (s : Server) (name : Str) (names : List Str)
      → write_users s (request_of (adding name names)) ≡ add_users_on_channel s name (places names)
  unfolding write_users request_of alter_of streq
  write_users-adding s name names = refl

  -- The reply, once the channel has been stored.
  apply_update-adding :
      (s after : Server) (name : Str) (names : List Str) (d : ChannelInfo)
      → length name < 21
      → add_users_on_channel s name (places names) ≡ (success, after)
      → get_channel_info after name ≡ some d
      → apply_update s (request_of (adding name names)) ≡ next (updated after (some d))
  unfolding apply_update reply_updated request_of
  apply_update-adding s after name names d short stored found =
      let room : ltb (length name) 21 ≡ true = lt→ltb (length name) 21 short in
      rw (write_name-adding s name names)
        (rw (write_users-adding s name names) (rw stored (rw (room, found) refl)))

module _ ⦃N : Ndbm⦄ ⦃R : Reliable⦄ where
  -- On a disk that works: a request to add users to a channel that exists, all of them users of the
  -- server and none a member yet, to a channel whose members stand in front of its free places and
  -- that has room for them, succeeds; the channel is stored under its identifier with the users behind
  -- its members, in the order of the request.
  pub update_channel-adds :
      (s : Server) (name : Str) (names : List Str) (c : ChannelInfo)
      → Fits 21 name
      → IsNames names
      → get_channel_info s name ≡ some c
      → all_known s names ≡ true
      → IsFilled c.user_list
      → AreNew c.user_list (places names)
      → length (occupied c.user_list) + length names ≤ length c.user_list
      → (r : Reply) × (d : ChannelInfo) × (update_channel s (render (adding name names)) ≡ next r)
        × (r.result ≡ success)
        × StoredAt r.server c.channel_id d
        × (occupied d.user_list ≡ occupied c.user_list ++ names)
        × (d.channel_name ≡ name)
  unfolding update_channel add_users_on_channel updated
  update_channel-adds s name names c fits list found known filled new room =
      let ok : IsUpdate (adding name names) = record {
        name_fits = fits;
        new_name_fits = tt;
        users_fit = list;
        admins_fit = tt;
        banned_fit = tt;
      } in
      let parsed = parse_update-render (adding name names) ok in
      let d : ChannelInfo = record c { user_list = add_users c.user_list (places names) } in
      let (after, stored, there) =
        store_changed-stores (λ k. record k { user_list = add_users k.user_list (places names) }) s
          name c found in
      let (id, at, named) = get_channel_info-StoredAt s name found in
      let kept : StoredAt after c.channel_id d =
        there c.channel_id ∙ rw (streq_refl c.channel_id) refl in
      let again = get_channel_info-is_some after c.channel_id d kept in
      let again_name : is_some (get_channel_info after name) ≡ true =
        subst (λ n. is_some (get_channel_info after n) ≡ true) named again in
      let names_there = occupied-places names list.fits in
      let enough : length (occupied c.user_list) + length (occupied (places names))
          ≤ length c.user_list =
        subst (λ l. length (occupied c.user_list) + length l ≤ length c.user_list) (sym names_there)
          room in
      elim (Option-cases (get_channel_info after name)) [
        | inl gone ↦ absurd (cc (again_name, gone))
        | inr (e, shown) ↦ (
          updated after (some e),
          d,
          rw parsed (
              rw (check_update-adding s name names c found known)
                (apply_update-adding s after name names e fits.short stored shown)),
          refl,
          kept,
          add_users-appends c.user_list (places names)
                (names-AreShort names (replicate (64 - length names) []) list.fits
                  (free-AreShort (64 - length names)))
                filled new enough
              ∙ ap (λ l. occupied c.user_list ++ l) names_there,
          named,
        )
      ]
