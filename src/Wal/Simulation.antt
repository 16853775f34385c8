-- ===== src/Wal/Simulation.antt =====
-- The two views of `WalStorage` of src/wal_storage.rs, put together: the bytes that one task sees
-- (Wal) and the atomic steps of all tasks (Tasks).
pub mod Images
pub mod Batches
pub mod Drains
pub mod Drained
pub mod Flusher
pub mod Appends
pub mod Flushes
pub mod Calls
pub mod Settled
pub mod Tests
use async_wal_db.Prelude.{
  ℕ, ◌≤◌, ◌<◌, ◌≡◌, List, [], ◌∷◌, ◌++◌, Bool, true, false, Option, some, take, length, ◌⊎◌, map,
}
use async_wal_db.Errors.{Result, ok, err}
use async_wal_db.Entry.{Bytes, WalEntry}
use async_wal_db.Frame.{Codec, frame}
use async_wal_db.Wal
use async_wal_db.Wal.{WalStorage, Disk, log_file}
use async_wal_db.Tasks.{Shared, Task, wake, System, Reach}
use async_wal_db.Tasks.Runs.{Runs}

-- What the writer has accepted, as bytes and as entries: behind `base` the frames of the entries,
-- and after a batch that failed, which adds to the leaked count, the first part of a frame.
pub data Image (c : Codec) (base : Bytes) : ℕ → List WalEntry → Bytes → Type 0 where
  origin : Image c base 0 [] base
  entry :
      {l : ℕ} {es : List WalEntry} {b : Bytes} (e : WalEntry) (f : Bytes)
      → Image c base l es b
      → frame c e ≡ some f
      → Image c base l (es ++ e ∷ []) (b ++ f)
  fails :
      {l : ℕ} {es : List WalEntry} {b : Bytes} (l' : ℕ)
      → Image c base l es b
      → l ≤ l'
      → Image c base l' es b
  part :
      {l : ℕ} {es : List WalEntry} {b : Bytes} (l' : ℕ) (e : WalEntry) (f : Bytes) (n : ℕ)
      → Image c base l es b
      → l < l'
      → frame c e ≡ some f
      → Image c base l' es (b ++ take n f)

-- What the last fsync has covered, as bytes and as entries.
pub record Synced (c : Codec) (base : Bytes) (w : WalStorage) (m : Shared) : Type 0 where
  pub entries : List WalEntry
  pub bytes : Bytes
  pub entries_after : List WalEntry
  pub bytes_after : Bytes
  pub leaked : ℕ
  pub image : Image c base leaked entries bytes
  pub log : m.log ≡ entries ++ entries_after
  pub file : log_file w ≡ bytes ++ bytes_after
  pub entries_covered : m.durable ≡ length entries
  pub bytes_covered : w.durable ≡ length bytes
  pub leaked_before : leaked ≤ m.leaked

-- The state of one view and of the other.
pub record Matches (c : Codec) (base : Bytes) (w : WalStorage) (m : Shared) : Type 0 where
  pub queue : w.pending ≡ m.pending
  pub count : w.pending_count ≡ m.pending_count
  pub size : w.max_queue_size ≡ m.max_queue_size
  pub image : Image c base m.leaked m.log (log_file w ++ w.buffered)
  pub synced : Synced c base w m
  pub ordered : m.leaked ≡ 0 → m.log ++ m.pending ≡ m.pushed

-- What a storage is opened with: the package, the contents of its file and the size of its queue.
pub record View : Type 0 where
  pub codec : Codec
  pub base : Bytes
  pub max_queue_size : ℕ

-- A system whose flusher waits for its next tick, with the mutex free, and that has the state of
-- `w`. In front of the other tasks stands the one that makes the current call, if there is one.
pub record Stands (v : View) (total : List WalEntry) (w : WalStorage) (call : List Task)
    : Type 0 where
  pub system : System
  pub reach : Reach v.max_queue_size system
  pub matches : Matches v.codec v.base w system.shared
  pub free : system.shared.locked ≡ false
  pub running : system.shared.shutdown ≡ false
  pub pushed : system.shared.pushed ≡ total
  pub before : List Task
  pub after : List Task
  pub tasks : system.tasks ≡ call ++ (before ++ Task.selecting ∷ after)

abbrev pub is_ok : Result (Unit {0}) → Bool
is_ok (ok u) = true
is_ok r = false
