-- ===== src/Wal.antt =====
-- `WalStorage` of src/wal_storage.rs as one task sees it: the queue of pending entries, the
-- buffered writer and the log file. What the background flusher, the disk and the scheduler do
-- meanwhile is an argument. Tasks has the atomic steps of several tasks.
pub mod Encode
pub mod Bounds
pub mod Durable
pub mod Holds
pub mod Lost
pub mod Closing
pub mod Simulation
pub mod Room
pub mod Tests
use async_wal_db.Prelude.{
  ℕ, zero, suc, ◌+◌, ◌-◌, ◌%◌, ◌^◌, List, [], ◌∷◌, ◌++◌, Bool, true, false, not, ◌&&◌, Option, none,
  some, ltb, leb, if◌then◌else◌, length, take, drop, bytes_eq,
}
use async_wal_db.Prelude.Map
use async_wal_db.Prelude.Map.{Map}
use async_wal_db.Errors.{Result, ok, err, unfinished, io, deserialization}
use async_wal_db.Entry.{Bytes, WalEntry}
use async_wal_db.Frame.{Codec, frame}

-- The file system: the contents by path.
abbrev pub Files : Type 0
Files = Map Bytes Bytes

pub record WalStorage : Type 0 where
  pub files : Files
  pub path : Bytes
  pub pending : List WalEntry  -- the `SegQueue`, the oldest entry first
  pub max_queue_size : ℕ
  pub pending_count : ℕ
  pub buffered : Bytes  -- what the `BufWriter` has accepted and not yet written to the file
  pub durable : ℕ  -- how many bytes of the log file an fsync has covered

abbrev pub contents : Option Bytes → Bytes
contents none = []
contents (some b) = b

-- The bytes of the log file.
abbrev pub log_file : WalStorage → Bytes
log_file w = contents (Map.get w.path w.files)

-- The file is opened with `create` and `append`: it exists, and keeps what it holds.
unfoldable pub with_config : Files → Bytes → ℕ → WalStorage
with_config files path max_queue_size = record {
  files = Map.insert path (contents (Map.get path files)) files;
  path = path;
  pending = [];
  max_queue_size = max_queue_size;
  pending_count = 0;
  buffered = [];
  durable = length (contents (Map.get path files));
}

-- `WalStorage::new`
unfoldable pub new : Files → Bytes → WalStorage
unfolding with_config
new files path = with_config files path 10_000

-- How the disk behaves during one `drain_and_flush`: `spilled` bytes of what the `BufWriter` holds
-- have reached the file if the call fails, and a failing write accepts `accepted` bytes before it.
pub data Outcome : Type 0 where
  fine write_fails sync_fails : Outcome

pub record Disk : Type 0 where
  pub outcome : Outcome
  pub accepted : ℕ
  pub spilled : ℕ

join_frame : Option Bytes → Bytes × Bool → Bytes × Bool
join_frame none rest = ([], false)
join_frame (some f) rest = (f ++ rest.0, rest.1)

-- The frames of a batch up to the first entry that cannot be serialized, and if all could.
unfoldable pub encode_batch : Codec → List WalEntry → Bytes × Bool
unfolding join_frame
encode_batch c [] = ([], true)
encode_batch c (e ∷ batch) = join_frame (frame c e) (encode_batch c batch)

pub extend_log : WalStorage → Bytes → Files
extend_log w bytes = Map.insert w.path (log_file w ++ bytes) w.files

-- The call fails after the writer has accepted `bytes`.
pub stopped : WalStorage → Disk → Bytes → WalStorage
unfolding extend_log
stopped w disk bytes = record w {
  files = extend_log w (take disk.spilled (w.buffered ++ bytes));
  buffered = drop disk.spilled (w.buffered ++ bytes);
}

-- All bytes have reached the file.
pub written : WalStorage → Bytes → WalStorage
unfolding extend_log
written w bytes = record w { files = extend_log w (w.buffered ++ bytes); buffered = [] }

-- `fetch_sub` on a `usize` wraps around.
pub finished : WalStorage → Bytes → ℕ → WalStorage
unfolding written
finished w bytes batch_size =
    let w' = written w bytes in
    record w' {
      durable = length (log_file w');
      pending_count = (w.pending_count + 2 ^ 64 - batch_size) % 2 ^ 64;
    }

-- The loop over the batch, the flush and the fsync.
pub write_batch : WalStorage → Disk → Outcome → Bytes → Bool → ℕ → WalStorage × Result (Unit {0})
unfolding stopped written finished
write_batch w disk fine bytes true n = (finished w bytes n, ok tt)
write_batch w disk fine bytes false n = (stopped w disk bytes, err deserialization)
write_batch w disk sync_fails bytes true n = (written w bytes, err io)
write_batch w disk sync_fails bytes false n = (stopped w disk bytes, err deserialization)
write_batch w disk write_fails bytes complete n =
    if not complete && leb (length bytes) disk.accepted
    then (stopped w disk bytes, err deserialization)
    else (stopped w disk (take disk.accepted bytes), err io)

pub drain_batch : Codec → Disk → WalStorage → List WalEntry → WalStorage × Result (Unit {0})
unfolding write_batch
drain_batch c disk w [] = (w, ok tt)
drain_batch c disk w (e ∷ batch) =
    let encoded = encode_batch c (e ∷ batch) in
    write_batch (record w { pending = [] }) disk disk.outcome encoded.0 encoded.1
      (length (e ∷ batch))

unfoldable pub drain_and_flush : Codec → Disk → WalStorage → WalStorage × Result (Unit {0})
unfolding drain_batch
drain_and_flush c disk w = drain_batch c disk w w.pending

-- The flusher's call in the background, if it makes one: its error is only printed.
unfoldable pub background : Codec → Option Disk → WalStorage → WalStorage
unfolding drain_and_flush
background c none w = w
background c (some disk) w = (drain_and_flush c disk w).0

pub pushed : WalStorage → WalEntry → WalStorage
pushed w e = record w { pending = w.pending ++ e ∷ []; pending_count = w.pending_count + 1 }

-- `append`: the list is what the flusher does while the task waits for space.
unfoldable pub append :
    Codec → List (Option Disk) → WalEntry → WalStorage → WalStorage × Result (Unit {0})
unfolding pushed background
append c [] e w =
    if leb w.max_queue_size w.pending_count then (w, unfinished) else (pushed w e, ok tt)
append c (b ∷ bs) e w =
    let later = append c bs e (background c b w) in
    if leb w.max_queue_size w.pending_count then later else (pushed w e, ok tt)

-- The polling loop of `flush`: at most `retries` sleeps, while entries are counted as pending.
pub poll : Codec → ℕ → List (Option Disk) → WalStorage → WalStorage
unfolding background
poll c zero bs w = w
poll c (suc retries) [] w = w
poll c (suc retries) (b ∷ bs) w =
    let later = poll c retries bs (background c b w) in if ltb 0 w.pending_count then later else w

unfoldable pub flush :
    Codec → List (Option Disk) → Disk → WalStorage → WalStorage × Result (Unit {0})
unfolding poll drain_and_flush
flush c bs disk w =
    let w' = poll c 100 bs w in
    if ltb 0 w'.pending_count then drain_and_flush c disk w' else (w', ok tt)
