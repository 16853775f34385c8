-- ===== src/Database.antt =====
-- `Database` and `DatabaseConfig` of src/database.rs, and the form of a method that may fail: it
-- returns the database that it leaves beside its result, so what was written before an error stays.
pub mod Config
pub mod Chain
pub mod Leaves
use Config.{DatabaseConfig}
use async_wal_db.Prelude.{ℕ, List, [], Bool, Option, none, some}
use async_wal_db.Errors.{WalError, Result, ok, err, panic, unfinished}
use async_wal_db.Entry.{Bytes}
use async_wal_db.Frame.{Tail, eof, fault, Reader}
use async_wal_db.Prelude.{take}
use async_wal_db.Prelude.Map
use async_wal_db.Store.{Store}
use async_wal_db.Recovery.{Memory, RecoveryStats, recover}
use async_wal_db.Frame.{Codec}
use async_wal_db.Prelude.{bytes_eq}
use async_wal_db.Wal
use async_wal_db.Wal.{WalStorage, Disk, Files, contents}
use async_wal_db.Wal.Closing.{stop_flusher}

-- `next_tx_id` is the static `NEXT_TX_ID` of src/lib.rs, which all databases of a process share.
pub record Database : Type 0 where
  pub store : Store
  pub wal : WalStorage
  pub next_tx_id : ℕ

-- `DatabaseConfig::build`; the files and the counter are those of the process.
unfoldable pub build : Files → ℕ → DatabaseConfig → Database
build files next_tx_id config = record {
  store = [];
  wal = Wal.with_config files config.wal_path config.max_queue_size;
  next_tx_id = next_tx_id;
}

-- `Database::new`
unfoldable pub new : Files → ℕ → Bytes → Database
unfolding build Config.new
new files next_tx_id wal_path = build files next_tx_id (Config.new wal_path)

abbrev pub Action : Type 0 → Type 0
Action A = Database → Database × Result A

continue : {A B : Type 0} → Database → Result A → (A → Action B) → Database × Result B
continue db (ok a) f = f a db
continue db (err e) f = (db, err e)
continue db panic f = (db, panic)
continue db unfinished f = (db, unfinished)

infixl 5 ◌>>=◌ ◌>>◌
-- `?`: an error ends the method.
unfoldable pub ◌>>=◌ : {A B : Type 0} → Action A → (A → Action B) → Action B
unfolding continue
◌>>=◌ m f db = let (db', r) = m db in continue db' r f

abbrev pub ◌>>◌ : {B : Type 0} → Action (Unit {0}) → Action B → Action B
m >> k = m >>= λ _. k

unfoldable pub pure : {A : Type 0} → A → Action A
pure a db = (db, ok a)

unfoldable pub raise : {A : Type 0} → WalError → Action A
raise e db = (db, err e)

-- A method of the log, and one of the store.
unfoldable pub on_wal : {A : Type 0} → (WalStorage → WalStorage × Result A) → Action A
on_wal f db = let (wal, r) = f db.wal in (record db { wal = wal }, r)

unfoldable pub on_store : {A : Type 0} → (Store → Store × Result A) → Action A
on_store f db = let (store, r) = f db.store in (record db { store = store }, r)

-- How `File::open` and the reads that follow turn out: refused, or every byte is read, or the
-- device fails behind the first `n` bytes.
pub data Opening : Type 0 where
  refused : Opening
  opened : Opening
  failing : ℕ → Opening

open_bytes : Option Bytes → Opening → Option Reader
open_bytes none how = none
open_bytes (some bytes) refused = none
open_bytes (some bytes) opened = some (record { bytes = bytes; tail = eof })
open_bytes (some bytes) (failing n) = some (record { bytes = take n bytes; tail = fault })

-- `File::open(&self.wal.path)`
unfoldable pub open_log : Opening → WalStorage → Option Reader
unfolding open_bytes
open_log how w = open_bytes (Map.get w.path w.files) how

remember : Database → Memory × Result RecoveryStats → Database × Result RecoveryStats
remember db (m, r) = (record db { store = m.store; next_tx_id = m.next_tx_id }, r)

-- `Database::recover` on the log file as it stands
unfoldable pub recover_from_log : Codec → Opening → Action RecoveryStats
unfolding remember
recover_from_log c how db =
    remember db
      (recover c (open_log how db.wal) (record { store = db.store; next_tx_id = db.next_tx_id }))

-- `Database::shutdown`
unfoldable pub shutdown : Codec → Bool → List (Option Disk) → Disk → Action (Unit {0})
unfolding on_wal
shutdown c stored bs disk = on_wal (stop_flusher c stored bs disk)
