-- ===== src/Transaction/Success.antt =====
-- The methods of a transaction where the calls of the log return without an error.
use async_wal_db.Prelude.{◌≡◌, ◌∙◌, some}
use async_wal_db.Errors.{Result, ok}
use async_wal_db.Entry.{WalEntry}
use async_wal_db.Frame.{Codec}
use async_wal_db.Wal
use async_wal_db.Wal.{WalStorage}
use async_wal_db.Database.{Database, pure, on_wal}
use async_wal_db.Database.Chain.{>>=-ok}
use async_wal_db.Transaction.{
  Transaction, active, World, add_entry, stamp, stamped, append_op, write_marker, apply_entries,
  commit,
}

on_wal-ok :
    (f : WalStorage → WalStorage × Result (Unit {0})) (db : Database) (w : WalStorage)
    → f db.wal ≡ (w, ok tt)
    → on_wal f db ≡ (record db { wal = w }, ok tt)
unfolding on_wal
on_wal-ok f db w h = rw h

module _ (c : Codec) (world : World) (tx : Transaction) (db : Database) where
  pub append_op-ok :
      (op entry : WalEntry) (w : WalStorage)
      → stamp tx.id world.timestamp op ≡ some entry
      → Wal.append c world.while_waiting entry db.wal ≡ (w, ok tt)
      → append_op c world tx op db ≡ (record db { wal = w }, ok (add_entry tx entry))
  unfolding append_op stamped pure
  append_op-ok op entry w s h = rw s (
      >>=-ok (on_wal (Wal.append c world.while_waiting entry)) (λ _. pure (add_entry tx entry)) db
        (record db { wal = w }) tt (on_wal-ok (Wal.append c world.while_waiting entry) db w h))

  write_marker-ok :
      (marker : WalEntry) (w w' : WalStorage)
      → Wal.append c world.while_waiting marker db.wal ≡ (w, ok tt)
      → Wal.flush c world.while_polling world.disk w ≡ (w', ok tt)
      → write_marker c world marker db ≡ (record db { wal = w' }, ok tt)
  unfolding write_marker
  write_marker-ok marker w w' h f =
      let queued : Database = record db { wal = w } in
      >>=-ok (on_wal (Wal.append c world.while_waiting marker))
        (λ _. on_wal (Wal.flush c world.while_polling world.disk)) db queued tt
        (on_wal-ok (Wal.append c world.while_waiting marker) db w h)
      ∙ on_wal-ok (Wal.flush c world.while_polling world.disk) queued w' f

  pub commit-ok :
      (w w' : WalStorage) (db' : Database)
      → tx.state ≡ active
      → Wal.append c world.while_waiting (WalEntry.commit tx.id world.timestamp) db.wal ≡ (w, ok tt)
      → Wal.flush c world.while_polling world.disk w ≡ (w', ok tt)
      → apply_entries tx.entries (record db { wal = w' }) ≡ (db', ok tt)
      → commit c world tx db ≡ (db', ok tt)
  unfolding commit
  commit-ok w w' db' a h f applied =
      let marker = WalEntry.commit tx.id world.timestamp in
      rw a (
        >>=-ok (write_marker c world marker) (λ _. apply_entries tx.entries) db
          (record db { wal = w' }) tt (write_marker-ok marker w w' h f)
        ∙ applied)
