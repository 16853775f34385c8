-- ===== src/Transaction/Laws.antt =====
-- What a transaction may do to the store.
use async_wal_db.Prelude.{◌≡◌, ◌≢◌, refl, ap, ◌∙◌, Option, none, some}
use async_wal_db.Errors.{ok}
use async_wal_db.Entry.{WalEntry}
use async_wal_db.Frame.{Codec}
use async_wal_db.Wal
use async_wal_db.Database.{Database, pure, raise, on_wal}
use async_wal_db.Database.Leaves.{LeavesStore, >>=-LeavesStore, on_wal-LeavesStore, >>=-fails}
use async_wal_db.Transaction.{
  Transaction, TxState, active, committed, aborted, World, add_entry, stamp, stamped, append_op,
  apply_entries, write_marker, commit, abort,
}

write_marker-LeavesStore :
    (c : Codec) (world : World) (m : WalEntry) → LeavesStore (write_marker c world m)
unfolding write_marker
write_marker-LeavesStore c world m =
    >>=-LeavesStore (on_wal (Wal.append c world.while_waiting m))
      (λ _. on_wal (Wal.flush c world.while_polling world.disk))
      (on_wal-LeavesStore (Wal.append c world.while_waiting m))
      (λ _. on_wal-LeavesStore (Wal.flush c world.while_polling world.disk))

stamped-LeavesStore :
    (c : Codec) (world : World) (tx : Transaction) (o : Option WalEntry)
    → LeavesStore (stamped c world tx o)
unfolding stamped raise pure
stamped-LeavesStore c world tx none = λ db. (refl, refl)
stamped-LeavesStore c world tx (some op) =
    >>=-LeavesStore (on_wal (Wal.append c world.while_waiting op)) (λ _. pure (add_entry tx op))
      (on_wal-LeavesStore (Wal.append c world.while_waiting op)) (λ _ db. (refl, refl))

-- The operations of a transaction are not visible before its commit, nor after its abort: `append_op`
-- and `abort` leave the store as it is on every branch, whatever the disk does.
pub uncommitted-store :
    (c : Codec) (world : World) (tx : Transaction) (op : WalEntry) (db : Database)
    → ((append_op c world tx op db).0.store ≡ db.store) × ((abort c world tx db).0.store ≡ db.store)
unfolding append_op abort raise
uncommitted-store c world tx op db =
    ((stamped-LeavesStore c world tx (stamp tx.id world.timestamp op) db).0, aborting tx.state)
  where
    aborting : (s : TxState) → ((abort c world (record tx { state = s }) db).0.store ≡ db.store)
    aborting active = (write_marker-LeavesStore c world (WalEntry.abort tx.id world.timestamp) db).0
    aborting committed = refl
    aborting aborted = refl

-- A commit changes the store only if the transaction is active and its marker was appended and
-- flushed without an error; in all other cases the store is as before.
pub commit-store :
    (c : Codec) (world : World) (tx : Transaction) (db : Database)
    → (tx.state ≡ active
        → (write_marker c world (WalEntry.commit tx.id world.timestamp) db).1 ≢ ok tt)
    → (commit c world tx db).0.store ≡ db.store
unfolding commit raise
commit-store c world tx db refused = by_state tx.state refl
  where
    by_state : (s : TxState) → tx.state ≡ s → (commit c world tx db).0.store ≡ db.store
    by_state active e = rw e (
        ap (λ (d : Database). d.store)
          (>>=-fails (write_marker c world (WalEntry.commit tx.id world.timestamp))
            (λ _. apply_entries tx.entries) db (λ _ p. refused e p))
        ∙ (write_marker-LeavesStore c world (WalEntry.commit tx.id world.timestamp) db).0)
    by_state committed e = rw e refl
    by_state aborted e = rw e refl
