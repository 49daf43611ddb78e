-- ===== src/Database/Channels.antt =====
-- How a channel is found by its name, though the database is keyed by identifiers.
use datacomm_chat_server.Prelude.{
  ◌≡◌, refl, sym, ◌∙◌, true, false, some, List, [], ◌∷◌, arith, Option-cases, Bool-cases, inl, inr,
}
use datacomm_chat_server.Prelude.Partial.{is_some}
use datacomm_chat_server.CString.{Str, streq, member}
use datacomm_chat_server.CString.Tokens.{eq_of_streq, streq_refl, streq_iff}
use datacomm_chat_server.Ndbm.{Ndbm, Reliable}
use datacomm_chat_server.Records.{ChannelInfo, Server}
use datacomm_chat_server.Database.{
  fetch_record, find_channel, get_channel_info, check_duplicate_channel_name,
}
use datacomm_chat_server.Database.Laws.{fetch_record-dbm_fetch}

module _ ⦃N : Ndbm⦄ where
  open N use {File, dbm_open, dbm_fetch, dbm_keys}

  -- The channel stored under an identifier.
  abbrev pub StoredAt : Server → Str → ChannelInfo → Type 0
  StoredAt s id channel = fetch_record s.channels id ≡ some channel

  find_channel_sound :
      (db : File ChannelInfo) (ks : List Str) (name : Str) {c : ChannelInfo}
      → find_channel db ks name ≡ some c
      → (k : Str) × (dbm_fetch db k ≡ some c) × (c.channel_name ≡ name)
  unfolding find_channel
  find_channel_sound db [] name e = absurd (cc)
  find_channel_sound db (k ∷ ks) name {c} e = elim (Option-cases (dbm_fetch db k)) [
    | inl gone ↦ absurd (ground arith)
    | inr (d, there) ↦ elim (Bool-cases (streq d.channel_name name)) [
      | inl same ↦ (k, ground arith, ground (arith, eq_of_streq d.channel_name name))
      | inr other ↦ find_channel_sound db ks name (ground arith)
    ]
  ]

  -- The walk misses no key, as long as every key has a record.
  find_channel_complete :
      (db : File ChannelInfo) (ks : List Str) (k name : Str) (c : ChannelInfo)
      → ((j : Str) → member j ks ≡ true → (d : ChannelInfo) × (dbm_fetch db j ≡ some d))
      → member k ks ≡ true
      → dbm_fetch db k ≡ some c
      → c.channel_name ≡ name
      → is_some (find_channel db ks name) ≡ true
  unfolding find_channel member
  find_channel_complete db [] k name c all m e same = absurd (cc)
  find_channel_complete db (j ∷ ks) k name c all m e same =
      let (d, there) = all j (ground (arith, streq_refl j)) in
      rw (there, find_channel)
        (elim (Bool-cases (streq d.channel_name name)) [
          | inl hit ↦ rw hit refl
          | inr miss ↦ rw miss (
              find_channel_complete db ks k name c (λ i h. all i (ground arith))
                (ground (arith, eq_of_streq j k, streq_iff d.channel_name name)) e same)
        ])

module _ ⦃N : Ndbm⦄ ⦃R : Reliable⦄ where
  open N use {File, dbm_open, dbm_fetch, dbm_keys}

  -- On a disk that works, a channel that is found under a name is stored under some identifier, and
  -- has the name.
  pub get_channel_info-StoredAt :
      (s : Server) (name : Str) {c : ChannelInfo}
      → get_channel_info s name ≡ some c
      → (id : Str) × StoredAt s id c × (c.channel_name ≡ name)
  unfolding get_channel_info
  get_channel_info-StoredAt s name {c} e = elim (Option-cases (dbm_open false s.channels)) [
    | inl shut ↦ absurd (ground arith)
    | inr (db, opened) ↦
        let (k, there, same) =
          find_channel_sound db (dbm_keys db) name (ground (arith, opened, e)) in
        (
          k,
          fetch_record-dbm_fetch s.channels k
              ∙ sym (N.fetch-open false s.channels db k opened)
              ∙ there,
          same,
        )
  ]

  -- On a disk that works, a look-up of the name of a stored channel finds a channel.
  pub get_channel_info-is_some :
      (s : Server) (id : Str) (c : ChannelInfo)
      → StoredAt s id c
      → is_some (get_channel_info s c.channel_name) ≡ true
  unfolding get_channel_info
  get_channel_info-is_some s id c e = elim (Option-cases (dbm_open false s.channels)) [
    | inl shut ↦ absurd (cc (R.absent s.channels id shut, fetch_record-dbm_fetch s.channels id))
    | inr (db, opened) ↦
        let there : dbm_fetch db id ≡ some c =
          N.fetch-open false s.channels db id opened
          ∙ sym (fetch_record-dbm_fetch s.channels id)
          ∙ e in
        rw (opened, get_channel_info)
          (find_channel_complete db (dbm_keys db) id c.channel_name c (N.fetch-keys db)
            (N.keys-fetch db id c there) there refl)
  ]

  -- The test of `create_channel` agrees with the look-up.
  pub check_duplicate-get_channel_info :
      (s : Server) (name : Str)
      → check_duplicate_channel_name s name ≡ is_some (get_channel_info s name)
  unfolding check_duplicate_channel_name get_channel_info
  check_duplicate-get_channel_info s name = refl
