-- ===== src/Workers/Ready.antt =====
-- Tasks that can go on where the disk does not fail and the queue has room, and what such a call
-- leaves.
use async_wal_db.Prelude.{ℕ, ◌+◌, ◌-◌, ◌^◌, ◌≤◌, ◌<◌, ◌≡◌, List, [], ◌∷◌, Bool, ◌||◌, length, All}
use async_wal_db.Errors.{ok}
use async_wal_db.Entry.{Bytes, WalEntry}
use async_wal_db.Frame.{Codec}
use async_wal_db.Wal.Holds.{CanEncode, Holds}
use async_wal_db.Database.{Database}
use async_wal_db.Transaction.{Transaction, active, World, stamp}
use async_wal_db.Session.Open.{CanWrite}
use async_wal_db.Workers.{Worker, idle, working, work}
use async_wal_db.Workers.Logged.{IsLogged}
use async_wal_db.Workers.Grown.{Grown}
use async_wal_db.Workers.Values.{Gives, will_set, promised}

-- The operation can be serialized, with any number and time of 64 bits.
abbrev pub Serializes : Codec → WalEntry → Type 0
Serializes c op = (id now : ℕ) → id < 2 ^ 64 → now < 2 ^ 64 → CanWrite c (stamp id now op)

-- The marker of a commit can be serialized.
abbrev pub SerializesCommits : Codec → Type 0
SerializesCommits c =
    (id now : ℕ) → id < 2 ^ 64 → now < 2 ^ 64 → CanEncode c (WalEntry.commit id now)

module _ (c : Codec) (value : Bytes → Bytes) (m : ℕ) where
  -- An insert of the value of its key, which can be serialized.
  pub record CanGive (op : WalEntry) : Type 0 where
    pub gives : Gives value op
    pub writes : Serializes c op

  -- A transaction of at most `m` operations.
  pub record IsJob (ops : List WalEntry) : Type 0 where
    pub each : All CanGive ops
    pub short : length ops ≤ m

  pub record IsBusy (tx : Transaction) (ops : List WalEntry) (jobs : List (List WalEntry))
      : Type 0 where
    pub is_active : tx.state ≡ active
    pub word : tx.id < 2 ^ 64
    pub given : All (Gives value) tx.entries
    pub each : All CanGive ops
    pub short : length tx.entries + length ops ≤ m
    pub later : All IsJob jobs

  abbrev pub IsReady : Worker → Type 0
  IsReady (idle jobs) = All IsJob jobs
  IsReady (working tx ops jobs) = IsBusy tx ops jobs

-- The operations that a task has appended and not yet committed.
abbrev pub held : Worker → ℕ
held (idle jobs) = 0
held (working tx ops jobs) = length tx.entries

-- The calls that a task has still to make: one to begin each transaction, one for each operation,
-- and one to commit.
abbrev pub job_calls : List (List WalEntry) → ℕ
job_calls [] = 0
job_calls (ops ∷ jobs) = length ops + 2 + job_calls jobs

abbrev pub calls_left : Worker → ℕ
calls_left (idle jobs) = job_calls jobs
calls_left (working tx ops jobs) = length ops + 1 + job_calls jobs

-- The log has all entries, and nothing fails.
pub record Runs (c : Codec) (total : List WalEntry) (db : Database) : Type 0 where
  pub holds : Holds c db.wal total
  pub writable : All (CanEncode c) total
  pub counter : db.next_tx_id < 2 ^ 64

-- The call has returned, with the task that goes on.
pub record Worked (c : Codec) (value : Bytes → Bytes) (m others : ℕ) (world : World) (w : Worker)
    (db : Database) (old : List WalEntry) : Type 0 where
  pub after : Database
  pub worker : Worker
  pub total : List WalEntry
  pub returned : work c world w db ≡ (after, ok worker)
  pub runs : Runs c total after
  pub ready : IsReady c value m worker
  pub queued : length after.wal.pending ≤ held worker + others
  pub one_less : calls_left worker ≡ calls_left w - 1
  pub same_size : after.wal.max_queue_size ≡ db.wal.max_queue_size
  pub kept :
      (k : Bytes) (later : Bool)
      → promised value k (will_set k worker || later) after.store
        ≡ promised value k (will_set k w || later) db.store
  pub grown :
      Grown value old total
        (λ k. will_set k w)
        (λ k. will_set k worker)
        (IsLogged old w)
        (IsLogged total worker)
