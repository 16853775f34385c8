-- ===== src/Lmdb/Package.antt =====
-- What src/lmdb_storage.rs uses of the package `heed`.
use async_wal_db.Prelude.{
  ℕ, ◌+◌, ◌≤◌, ◌≡◌, ◌≢◌, Bool, true, false, Option, none, some, length, ◌==◌, if◌then◌else◌,
  bytes_eq,
}
use async_wal_db.Entry.{Bytes}

-- An environment, with the data that it holds, and its transactions, with what they have written.
-- `none` and `false` are errors. `open_env` is given the size of the map and the number of databases.
pub record Heed : Type 1 where
  pub Env : Type 0
  pub RoTxn : Type 0
  pub RwTxn : Type 0
  pub open_env : (map_size max_dbs : ℕ) → Bytes → Option Env
  pub read_txn : Env → Option RoTxn
  pub write_txn : Env → Option RwTxn
  pub create_database : RwTxn → Option RwTxn
  pub get : Bytes → RoTxn → Option (Option Bytes)
  pub put : Bytes → Bytes → RwTxn → Option RwTxn
  pub delete : Bytes → RwTxn → Option (RwTxn × Bool)
  pub commit : RwTxn → Env → Env × Bool

abbrev pub is_some {ℓ} : {A : Type ℓ} → Option A → Bool
is_some none = false
is_some (some a) = true

-- What the documentation promises of a call that succeeds: a transaction begins with what the
-- environment holds; `put` and `delete` change one key in it; the environment changes by a commit
-- that succeeds and by nothing else.
pub record IsLawful (h : Heed) : Type 0 where
  pub held : h.Env → Bytes → Option Bytes
  pub seen : h.RwTxn → Bytes → Option Bytes
  pub shown : h.RoTxn → Bytes → Option Bytes
  pub read_txn_shows :
      (env : h.Env) (t : h.RoTxn) → h.read_txn env ≡ some t → (k : Bytes) → shown t k ≡ held env k
  pub write_txn_sees :
      (env : h.Env) (t : h.RwTxn) → h.write_txn env ≡ some t → (k : Bytes) → seen t k ≡ held env k
  pub create_database_sees :
      (t u : h.RwTxn) → h.create_database t ≡ some u → (k : Bytes) → seen u k ≡ seen t k
  pub get_shown :
      (k : Bytes) (t : h.RoTxn) (found : Option Bytes) → h.get k t ≡ some found → found ≡ shown t k
  pub put_sees :
      (k v : Bytes) (t u : h.RwTxn)
      → h.put k v t ≡ some u
      → (j : Bytes) → seen u j ≡ (if k == j then some v else seen t j)
  pub delete_sees :
      (k : Bytes) (t u : h.RwTxn) (deleted : Bool)
      → h.delete k t ≡ some (u, deleted)
      → (deleted ≡ is_some (seen t k))
        × ((j : Bytes) → seen u j ≡ (if k == j then none else seen t j))
  pub commit_holds :
      (t : h.RwTxn) (env after : h.Env)
      → h.commit t env ≡ (after, true)
      → (k : Bytes) → held after k ≡ seen t k
  pub commit_fails :
      (t : h.RwTxn) (env after : h.Env)
      → h.commit t env ≡ (after, false)
      → (k : Bytes) → held after k ≡ held env k

-- A key that LMDB takes has from 1 to 511 bytes.
abbrev pub IsKey : Bytes → Type 0
IsKey k = (1 ≤ length k) × (length k ≤ 511)

-- A device that works. `free` and `left` are bytes of the map that are free, and a write takes at
-- most its cost of them, copied pages included: a write on such a key succeeds where its cost is
-- left. `MDB_MAP_FULL` can come where it is not.
pub record IsReliable (h : Heed) : Type 0 where
  pub free : h.Env → ℕ
  pub left : h.RwTxn → ℕ
  pub put_cost : Bytes → Bytes → ℕ
  pub delete_cost : Bytes → ℕ
  pub reads : (env : h.Env) → h.read_txn env ≢ none
  pub gets : (k : Bytes) (t : h.RoTxn) → IsKey k → h.get k t ≢ none
  pub writes : (env : h.Env) → (t : h.RwTxn) × (h.write_txn env ≡ some t) × (free env ≤ left t)
  pub puts :
      (k v : Bytes) (t : h.RwTxn)
      → IsKey k
      → put_cost k v ≤ left t
      → (u : h.RwTxn) × (h.put k v t ≡ some u) × (left t ≤ left u + put_cost k v)
  pub deletes :
      (k : Bytes) (t : h.RwTxn)
      → IsKey k
      → delete_cost k ≤ left t
      → (u : h.RwTxn) × (gone : Bool) × (h.delete k t ≡ some (u, gone))
        × (left t ≤ left u + delete_cost k)
  pub commits :
      (t : h.RwTxn) (env : h.Env)
      → (after : h.Env) × (h.commit t env ≡ (after, true)) × (left t ≤ free after)
