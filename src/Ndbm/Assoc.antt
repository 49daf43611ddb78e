-- ===== src/Ndbm/Assoc.antt =====
-- A database as an association list, which shows that the documented behaviour of ndbm can be met.
use datacomm_chat_server.Prelude.{
  ◌≡◌, refl, Bool, true, false, Option, none, some, List, [], ◌∷◌, if◌then◌else◌, arith, Bool-cases,
  inl, inr,
}
use datacomm_chat_server.CString.{Str, streq, member}
use datacomm_chat_server.CString.Tokens.{streq_iff}
use datacomm_chat_server.Ndbm.{Ndbm, Reliable}

module _ {ℓ} {V : Type ℓ} where
  unfoldable pub lookup : Str → List (Str × V) → Option V
  lookup k [] = none
  lookup k ((j, v) ∷ l) = if streq j k then some v else lookup k l

  unfoldable pub insert : Str → V → List (Str × V) → List (Str × V)
  insert k v [] = (k, v) ∷ []
  insert k v ((j, w) ∷ l) = if streq j k then (k, v) ∷ l else (j, w) ∷ insert k v l

  unfoldable pub without : Str → List (Str × V) → List (Str × V)
  without k [] = []
  without k ((j, v) ∷ l) = let rest = without k l in if streq j k then rest else (j, v) ∷ rest

  unfoldable pub keys : List (Str × V) → List Str
  keys [] = []
  keys ((j, v) ∷ l) = j ∷ keys l

  lookup-insert :
      (k j : Str) (v : V) (l : List (Str × V))
      → lookup j (insert k v l) ≡ (if streq k j then some v else lookup j l)
  unfolding lookup insert
  lookup-insert k j v [] = refl
  lookup-insert k j v ((i, w) ∷ l) =
      ground (arith, streq_iff k j, streq_iff i k, streq_iff i j, lookup-insert k j v l)

  lookup-without :
      (k j : Str) (l : List (Str × V))
      → lookup j (without k l) ≡ (if streq k j then none else lookup j l)
  unfolding lookup without
  lookup-without k j [] = ground arith
  lookup-without k j ((i, w) ∷ l) =
      ground (arith, streq_iff k j, streq_iff i k, streq_iff i j, lookup-without k j l)

  pub keys-lookup :
      (k : Str) (v : V) (l : List (Str × V)) → lookup k l ≡ some v → member k (keys l) ≡ true
  unfolding lookup keys member
  keys-lookup k v [] h = cc
  keys-lookup k v ((i, w) ∷ l) h = ground (arith, keys-lookup k v l)

  pub lookup-keys :
      (k : Str) (l : List (Str × V)) → member k (keys l) ≡ true → (v : V) × (lookup k l ≡ some v)
  unfolding lookup keys member
  lookup-keys k [] h = absurd (cc)
  lookup-keys k ((i, w) ∷ l) h = elim (Bool-cases (streq i k)) [
    | inl same ↦ (w, rw same)
    | inr other ↦ rw other (lookup-keys k l (ground arith))
  ]

-- `none` is the absent database.
abbrev pub Table : Type 0 → Type 0
Table V = Option (List (Str × V))

abbrev pub rows : {V : Type 0} → Table V → List (Str × V)
rows none = []
rows (some l) = l

abbrev pub open_table : {V : Type 0} → Bool → Table V → Option (Table V)
open_table true none = some (some [])
open_table false none = none
open_table create (some l) = some (some l)

abbrev pub delete_row : {V : Type 0} → Table V → Str → Option (Table V)
delete_row t k = if member k (keys (rows t)) then some (some (without k (rows t))) else none

module _ {V : Type 0} where
  pub lookup-open :
      (create : Bool) (t u : Table V) (k : Str)
      → open_table create t ≡ some u
      → lookup k (rows u) ≡ lookup k (rows t)
  lookup-open true none u k h = ground (arith, h)
  lookup-open false none u k h = cc
  lookup-open true (some l) u k h = ground (arith, h)
  lookup-open false (some l) u k h = ground (arith, h)

  pub keys-open_table :
      (create : Bool) (t u : Table V) → open_table create t ≡ some u → keys (rows u) ≡ keys (rows t)
  keys-open_table true none u h = ground (arith, h)
  keys-open_table false none u h = cc
  keys-open_table true (some l) u h = ground (arith, h)
  keys-open_table false (some l) u h = ground (arith, h)

  pub lookup-store :
      (t u : Table V) (k j : Str) (v : V)
      → some (some (insert k v (rows t))) ≡ some u
      → lookup j (rows u) ≡ (if streq k j then some v else lookup j (rows t))
  lookup-store t u k j v h = ground (arith, h, lookup-insert k j v (rows t))

  pub lookup-delete :
      (t u : Table V) (k j : Str)
      → delete_row t k ≡ some u
      → lookup j (rows u) ≡ (if streq k j then none else lookup j (rows t))
  lookup-delete t u k j h = ground (arith, h, lookup-without k j (rows t))

instance abbrev pub table_ndbm : Ndbm
table_ndbm = record {
  File = Table;
  dbm_open = open_table;
  dbm_fetch = λ t k. lookup k (rows t);
  dbm_store = λ t k v. some (some (insert k v (rows t)));
  dbm_delete = delete_row;
  dbm_keys = λ t. keys (rows t);
  fetch-open = lookup-open;
  keys-open = keys-open_table;
  fetch-store = lookup-store;
  fetch-delete = lookup-delete;
  keys-fetch = λ t k v. keys-lookup k v (rows t);
  fetch-keys = λ t k. lookup-keys k (rows t);
}

module _ {V : Type 0} where
  pub table_creates : (t : Table V) → (u : Table V) × (open_table true t ≡ some u)
  table_creates none = (some [], refl)
  table_creates (some l) = (some l, refl)

  pub table_deletes :
      (t : Table V) (k : Str) (v : V)
      → lookup k (rows t) ≡ some v
      → (u : Table V) × (delete_row t k ≡ some u)
  table_deletes t k v h = (some (without k (rows t)), rw (keys-lookup k v (rows t) h))

  pub table_absent : (t : Table V) (k : Str) → open_table false t ≡ none → lookup k (rows t) ≡ none
  unfolding lookup
  table_absent none k h = refl
  table_absent (some l) k h = cc

instance abbrev pub table_reliable : Reliable ⦃N = table_ndbm⦄
table_reliable = record {
  creates = table_creates;
  stores = λ t k v. (some (insert k v (rows t)), refl);
  deletes = table_deletes;
  absent = table_absent;
}
