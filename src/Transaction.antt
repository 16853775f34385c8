-- ===== src/Transaction.antt =====
-- `Transaction` of src/transaction.rs.
pub mod Steps
pub mod Laws
pub mod Success
pub mod Tests
use async_wal_db.Prelude.{
  ℕ, ◌+◌, ◌%◌, ◌^◌, List, [], ◌∷◌, ◌++◌, Bool, true, false, not, Option, none, some, if◌then◌else◌,
  bytes_eq,
}
use async_wal_db.Prelude.Map
use async_wal_db.Errors.{Result, ok, err, invalid_state, apply_store, codes}
use async_wal_db.Entry.{Bytes, WalEntry}
use async_wal_db.Frame.{Codec}
use async_wal_db.Store.{Store}
use async_wal_db.Wal
use async_wal_db.Wal.{Disk}
use async_wal_db.Database.{Database, Action, pure, raise, on_wal, on_store, ◌>>◌}

pub data TxState : Type 0 where
  active committed aborted : TxState

-- `self.state == TxState::Active`
abbrev pub is_active : TxState → Bool
is_active active = true
is_active committed = false
is_active aborted = false

pub record Transaction : Type 0 where
  pub id : ℕ
  pub state : TxState
  pub entries : List WalEntry

-- `Transaction::new` and `begin_transaction`: `fetch_add` on the static counter, a `u64`.
unfoldable pub begin_transaction : Database → Database × Transaction
begin_transaction db = (
  record db { next_tx_id = (db.next_tx_id + 1) % 2 ^ 64 },
  record { id = db.next_tx_id; state = active; entries = [] },
)

unfoldable pub add_entry : Transaction → WalEntry → Transaction
add_entry tx entry = record tx { entries = tx.entries ++ entry ∷ [] }

-- What the world does during one call: the clock, what the flusher does while `append` waits and
-- while `flush` polls, and how the disk takes a flush by the caller.
pub record World : Type 0 where
  pub timestamp : ℕ
  pub while_waiting : List (Option Disk)
  pub while_polling : List (Option Disk)
  pub disk : Disk

-- The `match &mut op` of `append_op`
unfoldable pub stamp : ℕ → ℕ → WalEntry → Option WalEntry
stamp id now (WalEntry.insert i t key value) = some (WalEntry.insert id now key value)
stamp id now (WalEntry.update i t key old_value new_value) =
    some (WalEntry.update id now key old_value new_value)
stamp id now (WalEntry.delete i t key old_value) = some (WalEntry.delete id now key old_value)
stamp id now (WalEntry.commit i t) = none
stamp id now (WalEntry.abort i t) = none

stamped : Codec → World → Transaction → Option WalEntry → Action Transaction
stamped c world tx none = raise (invalid_state (codes "Cannot append non-operation entry"))
stamped c world tx (some op) = do
  on_wal (Wal.append c world.while_waiting op)
  pure (add_entry tx op)

-- `append_op` returns the transaction with the operation in its buffer. The source adds it before
-- the append, which never fails; a task whose append waits has not returned.
unfoldable pub append_op : Codec → World → Transaction → WalEntry → Action Transaction
unfolding stamped
append_op c world tx op = stamped c world tx (stamp tx.id world.timestamp op)

update_present : Store → Bytes → Bytes → Option Bytes → Store × Result (Unit {0})
update_present store key new_value none =
    (store, err (apply_store (codes "Update on non-existent key: " ++ key)))
update_present store key new_value (some v) = (Map.insert key new_value store, ok tt)

unfoldable pub apply_to_store : WalEntry → Store → Store × Result (Unit {0})
unfolding update_present
apply_to_store (WalEntry.insert i t key value) store = (Map.insert key value store, ok tt)
apply_to_store (WalEntry.update i t key old_value new_value) store =
    update_present store key new_value (Map.get key store)
apply_to_store (WalEntry.delete i t key old_value) store = (Map.remove key store, ok tt)
apply_to_store (WalEntry.commit i t) store =
    (store, err (invalid_state (codes "Cannot apply non-operation entry to store")))
apply_to_store (WalEntry.abort i t) store =
    (store, err (invalid_state (codes "Cannot apply non-operation entry to store")))

-- The loop of `commit`
unfoldable pub apply_entries : List WalEntry → Action (Unit {0})
unfolding apply_to_store
apply_entries [] = pure tt
apply_entries (e ∷ entries) = do on_store (apply_to_store e); apply_entries entries

-- The marker is appended and the log is flushed.
unfoldable pub write_marker : Codec → World → WalEntry → Action (Unit {0})
write_marker c world marker = do
  on_wal (Wal.append c world.while_waiting marker)
  on_wal (Wal.flush c world.while_polling world.disk)

-- `commit` and `abort` take the transaction by value: only the database is left.
unfoldable pub commit : Codec → World → Transaction → Action (Unit {0})
unfolding write_marker apply_entries
commit c world tx =
    if not (is_active tx.state)
    then raise (invalid_state (codes "Cannot commit non-active transaction"))
    else do write_marker c world (WalEntry.commit tx.id world.timestamp); apply_entries tx.entries

unfoldable pub abort : Codec → World → Transaction → Action (Unit {0})
unfolding write_marker
abort c world tx =
    if not (is_active tx.state)
    then raise (invalid_state (codes "Cannot abort non-active transaction"))
    else write_marker c world (WalEntry.abort tx.id world.timestamp)
