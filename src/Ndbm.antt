-- ===== src/Ndbm.antt =====
-- The ndbm library, which is not part of the repository: the operations that src/my_ndbm.c calls,
-- with their documented behaviour. Every module that reaches a database takes it as an instance.
pub mod Assoc
use datacomm_chat_server.Prelude.{◌≡◌, Bool, true, false, Option, none, some, List, if◌then◌else◌}
use datacomm_chat_server.CString.{Str, streq, member}

-- `File V` is the database at a path, absent or not, with records of type `V`. `none` stands for a
-- null `DBM*`, a null `dptr`, or a status that is not 0.
pub record Ndbm : Type 1 where
  pub File : Type 0 → Type 0
  -- The flag is `O_CREAT`.
  pub dbm_open : {V : Type 0} → Bool → File V → Option (File V)
  pub dbm_fetch : {V : Type 0} → File V → Str → Option V
  -- `dbm_store` with `DBM_REPLACE`.
  pub dbm_store : {V : Type 0} → File V → Str → V → Option (File V)
  pub dbm_delete : {V : Type 0} → File V → Str → Option (File V)
  -- The keys that `dbm_firstkey` and `dbm_nextkey` yield, in their order.
  pub dbm_keys : {V : Type 0} → File V → List Str
  -- Opening changes no record.
  pub fetch-open :
      {V : Type 0} (create : Bool) (f g : File V) (k : Str)
      → dbm_open create f ≡ some g
      → dbm_fetch g k ≡ dbm_fetch f k
  pub keys-open :
      {V : Type 0} (create : Bool) (f g : File V)
      → dbm_open create f ≡ some g
      → dbm_keys g ≡ dbm_keys f
  -- A store that succeeds replaces the record under its key, and a delete removes it.
  pub fetch-store :
      {V : Type 0} (f g : File V) (k j : Str) (v : V)
      → dbm_store f k v ≡ some g
      → dbm_fetch g j ≡ (if streq k j then some v else dbm_fetch f j)
  pub fetch-delete :
      {V : Type 0} (f g : File V) (k j : Str)
      → dbm_delete f k ≡ some g
      → dbm_fetch g j ≡ (if streq k j then none else dbm_fetch f j)
  -- The keys are those that have a record.
  pub keys-fetch :
      {V : Type 0} (f : File V) (k : Str) (v : V)
      → dbm_fetch f k ≡ some v
      → member k (dbm_keys f) ≡ true
  pub fetch-keys :
      {V : Type 0} (f : File V) (k : Str)
      → member k (dbm_keys f) ≡ true
      → (v : V) × (dbm_fetch f k ≡ some v)

-- The disk has room and the files are readable: creating, storing and deleting a record that is
-- there succeed, and only an absent database does not open.
pub record Reliable ⦃N : Ndbm⦄ : Type 1 where
  pub creates : {V : Type 0} (f : N.File V) → (g : N.File V) × (N.dbm_open true f ≡ some g)
  pub stores :
      {V : Type 0} (f : N.File V) (k : Str) (v : V) → (g : N.File V) × (N.dbm_store f k v ≡ some g)
  pub deletes :
      {V : Type 0} (f : N.File V) (k : Str) (v : V)
      → N.dbm_fetch f k ≡ some v
      → (g : N.File V) × (N.dbm_delete f k ≡ some g)
  pub absent :
      {V : Type 0} (f : N.File V) (k : Str) → N.dbm_open false f ≡ none → N.dbm_fetch f k ≡ none
