-- ===== src/Session/Closing.antt =====
-- What a new process recovers after a shutdown, and after a truncation of the log.
pub mod Tests
use async_wal_db.Prelude.{
  ℕ, ◌^◌, ◌<◌, ◌≡◌, ◌≢◌, refl, sym, ap, ◌∙◌, arith, List, [], true, Option, none, some, All, length,
  bytes_eq,
}
use async_wal_db.Prelude.Map
use async_wal_db.Errors.{ok}
use async_wal_db.Entry.{Bytes, WalEntry}
use async_wal_db.Frame.{Codec, IsLawful, eof}
use async_wal_db.Frame.RoundTrip.{reader}
use async_wal_db.Wal.{WalStorage, Disk, fine, Files, contents, log_file}
use async_wal_db.Wal.Encode.{Encodes}
use async_wal_db.Wal.Durable.{IsFine}
use async_wal_db.Wal.Holds.{CanEncode, Holds}
use async_wal_db.Wal.Closing.{stop_flusher, old_path, truncate_wal}
use async_wal_db.Wal.Closing.Kept.{
  stop_flusher-ok, stop_flusher-Holds, Truncated, truncate_wal-Truncated,
}
use async_wal_db.Recovery.{Memory, recover_with_validation}
use async_wal_db.Database
use async_wal_db.Database.{Database, opened, open_log, recover_from_log, on_wal, shutdown}
use async_wal_db.Database.Chain.{recover_from_log-reader}
use async_wal_db.Session.Consistent.{Consistent}
use async_wal_db.Session.Start.{new-store, new-idle, log_file-new, open_log-new, new-Consistent}
use async_wal_db.Session.Replay.{Consistent-recover}

-- The store of a new process that recovers the log.
abbrev pub recovered : Codec → ℕ → WalStorage → Database
recovered c n w = (recover_from_log c opened (Database.new w.files n w.path)).0

pub recovered-store :
    (c : Codec) (n : ℕ) (w : WalStorage)
    → let db = Database.new w.files n w.path in
      (recovered c n w).store
      ≡ (recover_with_validation c
          (some (reader (log_file w) eof))
          (record { store = db.store; next_tx_id = db.next_tx_id })).0.store
recovered-store c n w =
    ap (λ p. p.0.store)
      (recover_from_log-reader c opened (Database.new w.files n w.path) (reader (log_file w) eof)
        (open_log-new w.files n w.path))

pub Consistent-recovered :
    {c : Codec}
    → IsLawful c
    → (total : List WalEntry) (db : Database) (n : ℕ) → Consistent c total db
    → db.wal.pending ≡ []
    → length (log_file db.wal) < 2 ^ 64
    → (recovered c n db.wal).store ≡ db.store
Consistent-recovered {c} l total db n k idle small =
    recovered-store c n db.wal
    ∙ Consistent-recover l total db _ k (new-store db.wal.files n db.wal.path) idle small

-- `shutdown` on disks that do not fail, of a database whose store follows from what was appended,
-- with the flusher's handle stored: it returns without an error, nothing is pending, and a new
-- process that recovers the log has the store of the old one.
pub shutdown-recover :
    {c : Codec}
    → IsLawful c
    → (total : List WalEntry) (db : Database) (bs : List (Option Disk)) (disk : Disk) (n : ℕ)
    → Consistent c total db
    → All IsFine bs
    → disk.outcome ≡ fine
    → length (log_file (shutdown c true bs disk db).0.wal) < 2 ^ 64
    → ((shutdown c true bs disk db).1 ≡ ok tt)
      × ((shutdown c true bs disk db).0.wal.pending ≡ [])
      × ((recovered c n (shutdown c true bs disk db).0.wal).store ≡ db.store)
unfolding shutdown on_wal
shutdown-recover {c} l total db bs disk n k f fd small =
    let w = (stop_flusher c true bs disk db.wal).0 in
    let (idle, holds) = stop_flusher-Holds c bs disk db.wal total f fd k.holds k.writable in
    let after : Database = record db { wal = w } in
    let same : Consistent c total after = record {
      holds = holds;
      writable = k.writable;
      ids = k.ids;
      committed = k.committed;
      replayed = k.replayed;
      below = k.below;
    } in
    (stop_flusher-ok c bs disk db.wal, idle, Consistent-recovered l total after n same idle small)

-- `truncate_wal` at the path of the log, on disks that do not fail and with a rename that works: it
-- returns without an error; all that was appended, and nothing else, stands in the old file; the new
-- log is empty, so a new process that recovers it has an empty store, whatever was committed.
pub truncate_wal-recover :
    {c : Codec}
    → IsLawful c
    → (total : List WalEntry) (w : WalStorage) (bs : List (Option Disk)) (disk : Disk) (n : ℕ)
    → Holds c w total
    → All (CanEncode c) total
    → Map.get w.path w.files ≢ none
    → All IsFine bs
    → disk.outcome ≡ fine
    → let (w', result) = truncate_wal c bs disk true w.path w in
      (result ≡ ok tt)
      × ((bytes : Bytes) × (Map.get (old_path w) w'.files ≡ some bytes) × Encodes c total bytes)
      × (log_file w' ≡ [])
      × ((recovered c n w').store ≡ [])
truncate_wal-recover {c} l total w bs disk n holds all there f fd =
    let (bytes, encoded, done, t) = truncate_wal-Truncated c bs disk w total f fd holds all there in
    let w' = (truncate_wal c bs disk true w.path w).0 in
    let fresh = Database.new w'.files n w'.path in
    let same : log_file fresh.wal ≡ [] = log_file-new w'.files n w'.path ∙ t.new_log in
    (
      done,
      (bytes, t.old_log, encoded),
      t.new_log,
      recovered-store c n w'
          ∙ ap
              (λ b.
                (recover_with_validation c (some (reader b eof))
                  (record { store = fresh.store; next_tx_id = fresh.next_tx_id })).0.store)
              (t.new_log ∙ sym same)
          ∙ Consistent-recover l [] fresh _ (new-Consistent w'.files n w'.path c t.new_log)
              (new-store w'.files n w'.path) (new-idle w'.files n w'.path)
              (omega (arith, ap (length {A = ℕ}) same))
          ∙ new-store w'.files n w'.path,
    )
