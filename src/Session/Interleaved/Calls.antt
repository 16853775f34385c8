-- ===== src/Session/Interleaved/Calls.antt =====
-- Every call keeps the log and the store together.
use async_wal_db.Prelude.{List, [], ◌∷◌, ◌++◌, All}
use async_wal_db.Entry.{WalEntry}
use async_wal_db.Frame.{Codec}
use async_wal_db.Session.Interleaved.{Work, Turn, Turns}
use async_wal_db.Session.Interleaved.Open.{IsRunning, AllApart, pick-All, pick-AllApart}
use async_wal_db.Session.Interleaved.Kept.{IsKept, begins-IsKept, appends-IsKept}
use async_wal_db.Session.Interleaved.Endings.{commits-IsKept, aborts-IsKept}

Turn-IsKept :
    (c : Codec) {s t : Work} (total : List WalEntry)
    → Turn c s t
    → IsKept c total s
    → (total' : List WalEntry) × IsKept c total' t
Turn-IsKept c {s} total (Turn.begins small) k = (total, begins-IsKept c total s small k)
Turn-IsKept c {s} total (Turn.picks front tx back now) k = (
  total,
  record {
    holds = k.holds;
    writable = k.writable;
    committed = k.committed;
    replayed = k.replayed;
    below = k.below;
    running = pick-All (IsRunning s.db.next_tx_id total) front tx back (rw now at k.running);
    apart = pick-AllApart front tx back (rw now at k.apart);
  },
)
Turn-IsKept c {s} total (Turn.appends tx tx' others world op now calm can r) k =
    let (e, kept) = appends-IsKept c total s tx tx' others world op now calm can r k in
    (total ++ e ∷ [], kept)
Turn-IsKept c {s} total (Turn.commits tx others world now calm can lower r) k =
    (_, commits-IsKept c total s tx others world now calm can lower r k)
Turn-IsKept c {s} total (Turn.aborts tx others world now calm can r) k =
    (_, aborts-IsKept c total s tx others world now calm can r k)
Turn-IsKept c {s} total (Turn.drops tx others now) k =
    let running : All (IsRunning s.db.next_tx_id total) (tx ∷ others) = rw now at k.running in
    let apart : AllApart (tx ∷ others) = rw now at k.apart in
    (
      total,
      record {
        holds = k.holds;
        writable = k.writable;
        committed = k.committed;
        replayed = k.replayed;
        below = k.below;
        running = running.1;
        apart = apart.1;
      },
    )

pub Turns-IsKept :
    (c : Codec) {s t : Work} (total : List WalEntry)
    → Turns c s t
    → IsKept c total s
    → (total' : List WalEntry) × IsKept c total' t
Turns-IsKept c total Turns.here k = (total, k)
Turns-IsKept c total (Turns.then steps step) k =
    let (total', k') = Turns-IsKept c total steps k in Turn-IsKept c total' step k'
