-- ===== src/Entry.antt =====
-- `WalEntry` of src/lib.rs, and the accesses to its fields that the other files make by matching.
use async_wal_db.Prelude.{ℕ, List, Bool, true, false}

abbrev pub Bytes : Type 0
Bytes = List ℕ

pub data WalEntry : Type 0 where
  insert : (tx_id timestamp : ℕ) (key value : Bytes) → WalEntry
  update : (tx_id timestamp : ℕ) (key old_value new_value : Bytes) → WalEntry
  delete : (tx_id timestamp : ℕ) (key old_value : Bytes) → WalEntry
  commit : (tx_id timestamp : ℕ) → WalEntry
  abort : (tx_id timestamp : ℕ) → WalEntry

-- The `match &entry` that reads the transaction's number, in recovery and in the checkpoint.
abbrev pub tx_id_of : WalEntry → ℕ
tx_id_of (insert i t k v) = i
tx_id_of (update i t k o v) = i
tx_id_of (delete i t k o) = i
tx_id_of (commit i t) = i
tx_id_of (abort i t) = i

-- `matches!(e, WalEntry::Commit { .. } | WalEntry::Abort { .. })`
abbrev pub is_marker : WalEntry → Bool
is_marker (commit i t) = true
is_marker (abort i t) = true
is_marker (insert i t k v) = false
is_marker (update i t k o v) = false
is_marker (delete i t k o) = false
