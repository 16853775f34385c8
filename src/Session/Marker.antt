-- ===== src/Session/Marker.antt =====
-- The end of a transaction that succeeds, on disks that do not fail.
use mathlib.Core.List.{foldl}
use async_wal_db.Prelude.{◌≡◌, refl, sym, ap, ◌∙◌, List, [], ◌∷◌, ◌++◌, All, All-append}
use async_wal_db.Errors.{ok}
use async_wal_db.Entry.{WalEntry}
use async_wal_db.Frame.{Codec}
use async_wal_db.Store.{redo}
use async_wal_db.Wal
use async_wal_db.Wal.Holds.{CanEncode, Holds, append-Holds, flush-Holds}
use async_wal_db.Database.{Database, on_wal}
use async_wal_db.Database.Chain.{Chain-ok, on_wal_ok}
use async_wal_db.Transaction.{
  Transaction, active, World, write_marker, apply_entries, commit, abort,
}
use async_wal_db.Transaction.Steps.{apply_entries-redo}
use async_wal_db.Session.Open.{IsCalm}

-- The marker stands behind the other entries, and all of them are in the log file.
pub record Marked (c : Codec) (total : List WalEntry) (m : WalEntry) (db db' : Database)
    : Type 0 where
  pub same_store : db'.store ≡ db.store
  pub same_counter : db'.next_tx_id ≡ db.next_tx_id
  pub holds : Holds c db'.wal (total ++ m ∷ [])
  pub emptied : db'.wal.pending ≡ []

Marked-record :
    (c : Codec) (total : List WalEntry) (m : WalEntry) (db mid db' : Database) (w : Wal.WalStorage)
    → mid ≡ record db { wal = w }
    → db' ≡ mid
    → Holds c w (total ++ m ∷ [])
    → w.pending ≡ []
    → Marked c total m db db'
Marked-record c total m db mid db' w p q h e =
    rw (q, p) record { same_store = refl; same_counter = refl; holds = h; emptied = e }

module _ (c : Codec) (world : World) (total : List WalEntry) (db : Database)
    (calm : IsCalm world) where
  pub write_marker-Marked :
      (m : WalEntry)
      → Holds c db.wal total
      → All (CanEncode c) total
      → CanEncode c m
      → (write_marker c world m db).1 ≡ ok tt
      → Marked c total m db (write_marker c world m db).0
  unfolding write_marker on_wal
  write_marker-Marked m h all can r =
      let chain =
        Chain-ok (on_wal (Wal.append c world.while_waiting m))
          (λ _. on_wal (Wal.flush c world.while_polling world.disk)) db tt r in
      let (queued, mid) = on_wal_ok (Wal.append c world.while_waiting m) db chain.mid chain.first in
      let appended = append-Holds c world.while_waiting m db.wal total calm.waiting h all queued in
      let (done, emptied, flushed) =
        flush-Holds c world.while_polling world.disk (Wal.append c world.while_waiting m db.wal).0
          (total ++ m ∷ []) calm.polling calm.flushing appended
          (All-append (CanEncode c) total (m ∷ []) all (can, tt)) in
      Marked-record c total m db _ _
        (Wal.flush c world.while_polling world.disk (Wal.append c world.while_waiting m db.wal).0).0
        refl (ap (λ p. p.0) chain.rest ∙ rw mid) flushed emptied

  -- A commit that succeeds has written its marker, and then replayed the buffer on the store.
  pub commit-Marked :
      (tx : Transaction)
      → tx.state ≡ active
      → Holds c db.wal total
      → All (CanEncode c) total
      → CanEncode c (WalEntry.commit tx.id world.timestamp)
      → (commit c world tx db).1 ≡ ok tt
      → (marked : Database) × Marked c total (WalEntry.commit tx.id world.timestamp) db marked
        × ((commit c world tx db).0 ≡ record marked { store = foldl redo db.store tx.entries })
  unfolding commit
  commit-Marked tx a h all can r =
      let m = WalEntry.commit tx.id world.timestamp in
      let chain =
        Chain-ok (write_marker c world m) (λ _. apply_entries tx.entries) db tt (rw a at r) in
      let at_mid = ap (λ p. p.0) chain.first in
      let marked : Marked c total m db chain.mid =
        rw (sym at_mid) (write_marker-Marked m h all can (ap (λ p. p.1) chain.first)) in
      let applied =
        apply_entries-redo tx.entries chain.mid (sym (ap (λ p. p.1) chain.rest) ∙ rw a at r) in
      (
        chain.mid,
        marked,
        rw a (ap (λ p. p.0) chain.rest ∙ applied)
            ∙ ap (λ s. record chain.mid { store = foldl redo s tx.entries }) marked.same_store,
      )

  pub abort-Marked :
      (tx : Transaction)
      → tx.state ≡ active
      → Holds c db.wal total
      → All (CanEncode c) total
      → CanEncode c (WalEntry.abort tx.id world.timestamp)
      → (abort c world tx db).1 ≡ ok tt
      → Marked c total (WalEntry.abort tx.id world.timestamp) db (abort c world tx db).0
  unfolding abort
  abort-Marked tx a h all can r =
      rw a (write_marker-Marked (WalEntry.abort tx.id world.timestamp) h all can (rw a at r))
