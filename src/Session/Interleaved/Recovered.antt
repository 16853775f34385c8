-- ===== src/Session/Interleaved/Recovered.antt =====
-- What a new process recovers of transactions that were open at the same time.
use async_wal_db.Prelude.{ℕ, ◌^◌, ◌<◌, ◌≡◌, List, [], length}
use async_wal_db.Entry.{WalEntry}
use async_wal_db.Frame.{Codec, IsLawful}
use async_wal_db.Wal.{log_file}
use async_wal_db.Database.{Database}
use async_wal_db.Session.Consistent.{Consistent}
use async_wal_db.Session.Closing.{recovered, Consistent-recovered}
use async_wal_db.Session.Interleaved.{Work, Turns}
use async_wal_db.Session.Interleaved.Kept.{IsKept}
use async_wal_db.Session.Interleaved.Calls.{Turns-IsKept}

-- Transactions that are open at the same time, whose calls come in any order, on disks that do not
-- fail, and that commit in the order in which they began, keep log and store together: if nothing is
-- pending, a new process that recovers the log has the store, though some transactions are open.
pub interleaved-recover :
    {c : Codec}
    → IsLawful c
    → (total : List WalEntry) (db : Database) (k : Consistent c total db) (t : Work) (n : ℕ)
    → Turns c (record { db = db; running = []; committed = k.ids }) t
    → t.db.wal.pending ≡ []
    → length (log_file t.db.wal) < 2 ^ 64
    → (recovered c n t.db.wal).store ≡ t.db.store
interleaved-recover {c} l total db k t n steps idle small =
    let before : IsKept c total (record { db = db; running = []; committed = k.ids }) = record {
      holds = k.holds;
      writable = k.writable;
      committed = k.committed;
      replayed = k.replayed;
      below = k.below;
      running = tt;
      apart = tt;
    } in
    let (total', after) = Turns-IsKept c total steps before in
    let same : Consistent c total' t.db = record {
      holds = after.holds;
      writable = after.writable;
      ids = t.committed;
      committed = after.committed;
      replayed = after.replayed;
      below = after.below;
    } in
    Consistent-recovered l total' t.db n same idle small
