-- ===== src/Lib.antt =====
-- async-wal-db: an in-memory key-value store with a write-ahead log and crash recovery.
--
-- The program. A transaction (src/transaction.rs) collects operations and appends each one to the
-- queue of the log (src/wal_storage.rs). A background flusher, or a caller of `flush`, drains the
-- queue, frames each entry with a header of 13 bytes (`WalEntryHeader`, src/lib.rs) and writes the
-- batch to the log file with one fsync. A commit appends a marker, flushes, and then applies the
-- transaction's operations to the store (src/database.rs). Recovery reads the log file from its
-- start, groups the entries by transaction, and redoes the committed ones.
--
-- The files.
-- - Prelude: shared names; tests and lists over the native numbers; `Map` stands for a `HashMap`;
--   `Sort` for `sort_unstable`.
-- - Errors, Entry: `WalError`, `WalEntry` (src/lib.rs). A `String` or a `Vec<u8>` is the list of its
--   bytes, a message the bytes of its text; texts that other packages add to a message are left
--   off. `Result` adds to Rust's the outcomes `panic` and `unfinished`: a task that has not
--   returned, because it waits or because the rounds given to a loop are used up.
-- - Header: `WalEntryHeader`. Header/Bytes: little-endian numbers. Header/Laws: proofs.
-- - Frame: the bytes of one entry as `drain_and_flush` writes them, and `read_frame`, one round of
--   the reading loop of src/database.rs. Frame/RoundTrip, Crash, Damage, Size: proofs.
--   `bincode` and `crc32fast` are a parameter, `Codec`, with the laws `IsLawful`; Frame/Sample has
--   a codec in the layout of bincode that meets them.
-- - Store: the store, and `redo`, the replay of an entry. Recovery: `recover_with_validation`,
--   phase by phase. Its children: Reading (which entries are read, and that reading ends), Crash
--   (a log cut at any byte), Tracking and Serial (the store after recovery), Counts (statistics),
--   Counter (`NEXT_TX_ID`), Damage (what stands behind the written entries), Damaged (its counts).
-- - Wal: `WalStorage` as one task sees it. Wal/Closing: `stop_flusher` and `truncate_wal`.
--   Wal/Bounds, Durable, Holds, Lost, Encode, Closing/Kept: proofs. Wal/Simulation: the calls of Wal
--   as runs of the steps of Tasks, and what the invariants of the steps say of the bytes.
-- - Database: `Database`, `DatabaseConfig`, and `Action`, the form of a method: the database that
--   it leaves, beside its result. Transaction: `Transaction`.
-- - Database/Chain, Leaves; Transaction/Steps, Laws: what a chain of methods does, and what the
--   methods of a transaction leave alone.
-- - Checkpoint: `checkpoint` and the checkpoint file. Checkpoint/Decimal: its text; File: saving
--   and loading; Loop, Members, Replayed: the reading loop, the set of committed transactions, and
--   what a checkpoint does to the database; Scheduler: `start_checkpoint_scheduler`; Branches: a
--   checkpoint that may fail. Frame/Fault: reading from a device that fails.
-- - Session: programs over the methods of `Transaction`. Its children: Open, Marker, Consistent,
--   Replay (the store follows from the log), Start (a new process), Checkpointed (with
--   Checkpoint/Lookups), Refused (a commit that the store refuses),
--   Closing (shutdown and truncation), Settled (what is recovered when the counter was 0),
--   Interleaved (transactions that are open at the same time).
--   Recovery/Extend, Block, Further: the log of one more transaction or entry. Recovery/Torn: a log
--   that goes on behind a torn entry.
-- - Tasks: `WalStorage` as its tasks share it: each access to the shared state by `append`,
--   `drain_and_flush`, `flush`, the flusher and `stop_flusher` is a step, in any order. Its
--   children: Tally, Reachable, Safety (an invariant and what follows from it), Order (the log of
--   tasks that take turns), Runs, Asleep (what tasks can come to).
-- - Lmdb: `LmdbStorage` (src/lmdb_storage.rs), which nothing else of the program calls. Lmdb/Package:
--   what it uses of the package `heed`, a parameter with the laws `IsLawful` and `IsReliable`;
--   Calls: programs over the methods, and what a map answers; Writes, Effects, Answers, Success:
--   proofs.
-- - Workers: the programs over the database: src/main.rs, examples/benchmark.rs and
--   examples/scaling_benchmark.rs, as tasks whose calls come in any order. Workers/Programs: what
--   each program does; Values (the keys of the store), Logged, Replayed, Grown (those of the log),
--   Ready, Progress, Counting, Turns, Finished, Recovered, Benchmarks, Demo: proofs.
--   Transaction/Success, Wal/Room, Checkpoint/Untouched: calls that succeed, and what calls leave alone.
--
-- Numbers are natural numbers. A `u64` or `usize` that could wrap is written with `% 2 ^ 64` (the
-- behaviour of a release build); counters of elements in memory cannot reach 2 ^ 64.
--
-- The environment. What the disk does in a `drain_and_flush` (`Disk`: success, a failing write after
-- any number of bytes, a failing fsync) and what the flusher does while a task waits (a list of
-- optional drains) are arguments. `append` in a given schedule may still wait at its end
-- (`unfinished`). `flush` polls at most 100 times, as the source does; in Wal a drain of the flusher
-- is over before the next poll, and only in Tasks can a flush give up while the flusher still
-- writes. The reading loop has a bound of one round for each byte of the file and one more, and
-- does not reach it. A reader ends in the end of the file or in an error of the device (`Tail`).
-- The map of LMDB has 1 GB (`Lmdb.new`): that all calls succeed is stated for calls that fit in it.
--
-- Not modelled: printed messages and measured times; the clock of the timers (a tick of the
-- flusher may come at any time, the scheduler of checkpoints is a list of ticks); that the log
-- file cannot be opened in `with_config`, which panics; memory that runs out; the texts in front
-- of the errors of `heed`. The calls of transactions and of the log are whole steps in Session;
-- only Tasks takes the calls of `WalStorage` apart. The scheduler of src/main.rs makes its
-- checkpoints before the calls of the tasks. Each benchmark is a program of its own, on a database
-- of its own.
pub mod Prelude
pub mod Errors
pub mod Entry
pub mod Header
pub mod Frame
pub mod Store
pub mod Wal
pub mod Recovery
pub mod Database
pub mod Transaction
pub mod Checkpoint
pub mod Session
pub mod Tasks
pub mod Lmdb
pub mod Workers
