-- ===== src/Session/Refused.antt =====
-- A commit that the store refuses after the log has accepted it.
pub mod Tests
use mathlib.Core.List.{foldl, append_assoc}
use async_wal_db.Prelude.{
  ℕ, ◌+◌, ◌^◌, ◌<◌, ◌≡◌, refl, sym, ap, ◌∙◌, arith, List, [], ◌∷◌, ◌++◌, Option, none, some, not,
  if◌then◌else◌, length, bytes_eq, bytes_beq_iff, All, All-append,
}
use async_wal_db.Prelude.Map
use async_wal_db.Errors.{ok, err, apply_store, codes}
use async_wal_db.Entry.{Bytes, WalEntry}
use async_wal_db.Frame.{Codec, IsLawful, eof}
use async_wal_db.Frame.RoundTrip.{reader}
use async_wal_db.Store.{redo}
use async_wal_db.Wal.{log_file}
use async_wal_db.Wal.Holds.{CanEncode}
use async_wal_db.Recovery.{Memory, recover_with_validation}
use async_wal_db.Database.{Database}
use async_wal_db.Database.Chain.{>>=-ok}
use async_wal_db.Transaction.{Transaction, World, write_marker, apply_entries, commit}
use async_wal_db.Transaction.Steps.{apply_entries-refused}
use async_wal_db.Session.Open.{IsCalm, IsOpen}
use async_wal_db.Session.Consistent.{Consistent, Before, committed-Consistent}
use async_wal_db.Session.Marker.{Marked, write_marker-Marked}
use async_wal_db.Session.Replay.{Consistent-recover}

module _ {c : Codec} (l : IsLawful c) (world : World) (calm : IsCalm world) where
  -- The commit returns the error and leaves the database as the flush of the marker left it.
  commit-refused :
      (tx : Transaction) (db : Database) (before : List WalEntry) (t : ℕ) (k o v : Bytes)
      → IsOpen c tx.id (tx.id + 1) db.store before (WalEntry.update tx.id t k o v ∷ []) db tx
      → Map.get k db.store ≡ none
      → (write_marker c world (WalEntry.commit tx.id world.timestamp) db).1 ≡ ok tt
      → Map.get k (write_marker c world (WalEntry.commit tx.id world.timestamp) db).0.store ≡ none
      → commit c world tx db ≡ (
        (write_marker c world (WalEntry.commit tx.id world.timestamp) db).0,
        err (apply_store (codes "Update on non-existent key: " ++ k)),
      )
  unfolding commit
  commit-refused tx db before t k o v open' absent written absent' =
      let m = WalEntry.commit tx.id world.timestamp in
      let mid = (write_marker c world m db).0 in
      rw (open'.is_active) (
        >>=-ok (write_marker c world m) (λ _. apply_entries tx.entries) db mid tt
          (ap (λ r. (mid, r)) written)
        ∙ ap (λ es. apply_entries es mid) open'.buffered
        ∙ apply_entries-refused tx.id t k o v [] mid absent')

  committed_log :
      (tx : Transaction) (db : Database) (before ops : List WalEntry) (ids : List ℕ)
      → IsOpen c tx.id (tx.id + 1) db.store before ops db tx
      → Before tx.id before db.store ids
      → (mid : Database) → Marked c (before ++ ops) (WalEntry.commit tx.id world.timestamp) db mid
      → CanEncode c (WalEntry.commit tx.id world.timestamp)
      → (total : List WalEntry) × Consistent c total
          (record mid { store = foldl redo db.store ops })
  committed_log tx db before ops ids o b mid done can =
      let m = WalEntry.commit tx.id world.timestamp in
      let place : before ++ ops ++ m ∷ [] ≡ before ++ (ops ++ m ∷ []) =
        append_assoc before ops (m ∷ []) in
      (
        before ++ (ops ++ m ∷ []),
        committed-Consistent c tx.id before db.store ids world.timestamp ops
            (record mid { store = foldl redo db.store ops }) b o.own o.changes refl
            (done.same_counter ∙ o.same_counter) (rw (sym place) done.holds)
            (rw (sym place)
              (All-append (CanEncode c) (before ++ ops) (m ∷ []) o.writable (can, tt))),
      )

  -- A transaction of one update of an absent key is committed on a disk that does not fail, after
  -- transactions with smaller numbers. Once the marker is appended and flushed without an error, the
  -- commit returns an error and leaves the whole store as it was, in which the key is absent; but the
  -- log says that the transaction is committed, and recovery of it by another process, into an empty
  -- store, makes the same store with the key inserted.
  pub commit_refused :
      (tx : Transaction) (db : Database) (before : List WalEntry) (ids : List ℕ) (t : ℕ)
      (k o v : Bytes) (m : Memory)
      → IsOpen c tx.id (tx.id + 1) db.store before (WalEntry.update tx.id t k o v ∷ []) db tx
      → Before tx.id before db.store ids
      → Map.get k db.store ≡ none
      → CanEncode c (WalEntry.commit tx.id world.timestamp)
      → (write_marker c world (WalEntry.commit tx.id world.timestamp) db).1 ≡ ok tt
      → m.store ≡ []
      → length (log_file (commit c world tx db).0.wal) < 2 ^ 64
      → ((commit c world tx db).1 ≡ err (apply_store (codes "Update on non-existent key: " ++ k)))
        × ((commit c world tx db).0.store ≡ db.store)
        × ((recover_with_validation c
              (some (reader (log_file (commit c world tx db).0.wal) eof))
              m).0.store
            ≡ Map.insert k v db.store)
  unfolding redo
  commit_refused tx db before ids t k o v m open' b absent can written blank small =
      let ops = WalEntry.update tx.id t k o v ∷ [] in
      let mark = WalEntry.commit tx.id world.timestamp in
      let mid = (write_marker c world mark db).0 in
      let done : Marked c (before ++ ops) mark db mid =
        write_marker-Marked c world (before ++ ops) db calm mark open'.holds open'.writable can
          written in
      let still_absent : Map.get k mid.store ≡ none = rw (done.same_store) absent in
      let returned = commit-refused tx db before t k o v open' absent written still_absent in
      let (total, log) = committed_log tx db before ops ids open' b mid done can in
      rw (returned) (
        refl,
        done.same_store,
        Consistent-recover l total (record mid { store = foldl redo db.store ops }) m log blank
            done.emptied (rw (returned) at small),
      )
