-- ===== src/Session/Settled.antt =====
-- What a new process recovers when the counter of the log was 0, however the disk behaved before.
pub mod Tests
use async_wal_db.Prelude.{ℕ, ◌^◌, ◌<◌, ◌≡◌, ap, ◌∙◌, arith, List, [], ◌++◌, some, length, bytes_eq}
use async_wal_db.Prelude.Map
use mathlib.Core.List.{foldl}
use async_wal_db.Entry.{Bytes}
use async_wal_db.Store.{redo}
use async_wal_db.Frame.{Codec, IsLawful, eof}
use async_wal_db.Frame.RoundTrip.{reader}
use async_wal_db.Wal.{Files, contents, with_config, log_file}
use async_wal_db.Wal.Simulation.Calls.{Call, run}
use async_wal_db.Wal.Simulation.Settled.{count_zero-OnDisk}
use async_wal_db.Recovery.{recover_with_validation}
use async_wal_db.Recovery.Serial.{serial, Committed, recover-serial}
use async_wal_db.Database
use async_wal_db.Session.Start.{new-store}
use async_wal_db.Session.Closing.{recovered, recovered-store}

-- Any calls on a new log in an empty file, on any disks and with any turns of the flusher: if the
-- counter is 0 after them, a new process recovers the changes of the transactions whose last marker
-- among the admitted entries is a commit, one transaction after the other.
pub count_zero-recover :
    {c : Codec}
    → IsLawful c
    → (files : Files) (path : Bytes) (n k : ℕ) (calls : List Call) → n < 2 ^ 64
    → contents (Map.get path files) ≡ []
    → (let r = run c calls (with_config files path n) [] in
        r.0.pending_count ≡ 0
        → length (log_file r.0) < 2 ^ 64
        → (ids : List ℕ) × Committed r.1 ids
          × ((recovered c k r.0).store ≡ foldl redo [] (serial ids r.1)))
count_zero-recover {c} l files path n k calls small new zero fits =
    let r = run c calls (with_config files path n) [] in
    let d = count_zero-OnDisk c files path n calls small zero in
    let db = Database.new r.0.files k r.0.path in
    let file : log_file r.0 ≡ d.frames = d.file ∙ ap (λ b. b ++ d.frames) new in
    let (ids, committed, store) =
      recover-serial l (record { store = db.store; next_tx_id = db.next_tx_id }) r.1 d.frames
        d.encoded (rw file at fits) in
    (
      ids,
      committed,
      recovered-store c k r.0
          ∙ ap
              (λ b.
                (recover_with_validation c (some (reader b eof))
                  (record { store = db.store; next_tx_id = db.next_tx_id })).0.store)
              file
          ∙ store
          ∙ ap (λ x. foldl redo x (serial ids r.1)) (new-store r.0.files k r.0.path),
    )
