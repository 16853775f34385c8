-- ===== src/Transaction/Tests.antt =====
-- Transactions at a full queue, and the theorems about the store at them.
use async_wal_db.Prelude.{◌≡◌, refl, [], ◌∷◌, none, some}
use async_wal_db.Prelude.Map
use async_wal_db.Errors.{unfinished}
use async_wal_db.Entry.{WalEntry}
use async_wal_db.Frame
use async_wal_db.Header
use async_wal_db.Frame.Sample.{sample}
use async_wal_db.Wal
use async_wal_db.Wal.{Disk, write_fails}
use async_wal_db.Wal.Tests.{full, bad}
use async_wal_db.Database.{Database, on_wal, ◌>>=◌}
use async_wal_db.Transaction.{Transaction, active, World, append_op, write_marker, commit, abort}
use async_wal_db.Transaction.Laws.{uncommitted-store, commit-store}

-- The disk fails as long as the task waits.
abbrev stormy : World
stormy = record {
  timestamp = 100;
  while_waiting = some bad ∷ none ∷ [];
  while_polling = [];
  disk = bad;
}

abbrev db : Database
db = record { store = (107 ∷ [], 1 ∷ []) ∷ []; wal = full; next_tx_id = 3 }

abbrev tx : Transaction
tx = record { id = 2; state = active; entries = WalEntry.delete 2 100 (107 ∷ []) (1 ∷ []) ∷ [] }

uncommitted-store_example :
    ((append_op sample stormy tx (WalEntry.insert 0 0 (108 ∷ []) (2 ∷ [])) db).0.store ≡ db.store)
    × ((abort sample stormy tx db).0.store ≡ db.store)
uncommitted-store_example =
    uncommitted-store sample stormy tx (WalEntry.insert 0 0 (108 ∷ []) (2 ∷ [])) db

waits : (write_marker sample stormy (WalEntry.commit 2 100) db).1 ≡ unfinished
unfolding write_marker on_wal ◌>>=◌ Wal.append Wal.drain_and_flush Wal.encode_batch Frame.frame
    sample Header.new Header.to_bytes Map.get Map.insert
waits = refl

commit-store_example : (commit sample stormy tx db).0.store ≡ db.store
commit-store_example = commit-store sample stormy tx db (λ _ p. cc (waits, p))
