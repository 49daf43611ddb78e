-- ===== src/Database/Laws.antt =====
-- What a read of a database returns after a write to it, from the documented behaviour of ndbm.
use datacomm_chat_server.Records.{Server, UserAccount, ConnectedUser}
use datacomm_chat_server.Prelude.{
  ◌≡◌, sym, true, false, none, some, if◌then◌else◌, arith, Option-cases, inl, inr, List, refl,
}
use datacomm_chat_server.CString.{Str, streq}
use datacomm_chat_server.CString.Tokens.{eq_of_streq}
use datacomm_chat_server.Ndbm.{Ndbm, Reliable}
use datacomm_chat_server.Database.{
  success, fetch_record, store_record, delete_record, get_user_account, insert_user_account,
}

module _ ⦃N : Ndbm⦄ ⦃R : Reliable⦄ {V : Type 0} where
  open N use {File, dbm_open, dbm_fetch, dbm_store, dbm_delete}

  pub fetch_record-dbm_fetch : (f : File V) (k : Str) → fetch_record f k ≡ dbm_fetch f k
  unfolding fetch_record
  fetch_record-dbm_fetch f k = elim (Option-cases (dbm_open false f)) [
    | inl e ↦ rw (e, fetch_record) (sym (R.absent f k e))
    | inr (g, e) ↦ rw (e, fetch_record) (N.fetch-open false f g k e)
  ]

  pub store_record-success : (f : File V) (k : Str) (v : V) → (store_record true f k v).0 ≡ success
  unfolding store_record
  store_record-success f k v =
      let (g, opened) = R.creates f in
      let (h, stored) = R.stores g k v in rw (opened, store_record) (rw (stored, store_record))

  pub fetch_record-store_record :
      (f : File V) (k j : Str) (v : V)
      → fetch_record (store_record true f k v).1 j
        ≡ (if streq k j then some v else fetch_record f j)
  fetch_record-store_record f k j v =
      let (g, opened) = R.creates f in
      let (h, stored) = R.stores g k v in
      rw (fetch_record-dbm_fetch f j, fetch_record-dbm_fetch (store_record true f k v).1 j)
        (unfold store_record in
          rw (opened, store_record)
            (rw (stored, store_record)
              (ground (arith, N.fetch-store g h k j v, N.fetch-open true f g j))))

  -- A delete is refused only where there is no record.
  undeleted_absent : (g : File V) (k : Str) → dbm_delete g k ≡ none → dbm_fetch g k ≡ none
  undeleted_absent g k e = elim (Option-cases (dbm_fetch g k)) [
    | inl gone ↦ gone
    | inr (v, there) ↦ let (h, deleted) = R.deletes g k v there in absurd (cc (e, deleted))
  ]

  pub fetch_record-delete_record :
      (f : File V) (k j : Str)
      → fetch_record (delete_record f k).1 j ≡ (if streq k j then none else fetch_record f j)
  fetch_record-delete_record f k j =
      let (g, opened) = R.creates f in
      rw (fetch_record-dbm_fetch f j, fetch_record-dbm_fetch (delete_record f k).1 j)
        (unfold delete_record in
          rw (opened, delete_record)
            (elim (Option-cases (dbm_delete g k)) [
              | inl kept ↦ rw kept (
                  ground
                    (arith, eq_of_streq k j, N.fetch-open true f g j, undeleted_absent g k kept))
              | inr (h, gone) ↦
                  rw gone (ground (arith, N.fetch-delete g h k j, N.fetch-open true f g j))
            ]))

module _ ⦃N : Ndbm⦄ ⦃R : Reliable⦄ where
  pub get_user_account-insert :
      (s : Server) (a : UserAccount) (j : Str)
      → get_user_account (insert_user_account s a).1 j
        ≡ (if streq a.user_id j then some a else get_user_account s j)
  unfolding get_user_account insert_user_account
  get_user_account-insert s a j = fetch_record-store_record s.accounts a.user_id j a

module _ ⦃N : Ndbm⦄ where
  -- The connected users are not part of a database.
  pub get_user_account-cache :
      (s : Server) (us : List ConnectedUser) (j : Str)
      → get_user_account (record s { cache = us }) j ≡ get_user_account s j
  unfolding get_user_account
  get_user_account-cache s us j = refl
