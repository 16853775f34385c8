-- ===== src/Store.antt =====
-- The in-memory `HashMap<String, Vec<u8>>` of src/database.rs, and the replay of log entries on it
-- that recovery and the checkpoint share.
use mathlib.Core.List.{foldl}
use async_wal_db.Prelude.{List, not, bytes_eq, filter}
use async_wal_db.Prelude.Map
use async_wal_db.Prelude.Map.{Map}
use async_wal_db.Entry.{Bytes, WalEntry, is_marker}

abbrev pub Store : Type 0
Store = Map Bytes Bytes

-- The `match entry` of the replay: an update of an absent key inserts it.
unfoldable pub redo : Store → WalEntry → Store
redo store (WalEntry.insert i t key value) = Map.insert key value store
redo store (WalEntry.update i t key old_value new_value) = Map.insert key new_value store
redo store (WalEntry.delete i t key old_value) = Map.remove key store
redo store (WalEntry.commit i t) = store
redo store (WalEntry.abort i t) = store

-- The inner loop of the replay: the entries of one transaction that are no markers.
unfoldable pub redo_all : Store → List WalEntry → Store
unfolding redo
redo_all store entries = foldl redo store (filter (λ e. not (is_marker e)) entries)
