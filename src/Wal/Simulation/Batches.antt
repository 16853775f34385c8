-- ===== src/Wal/Simulation/Batches.antt =====
-- What one `drain_and_flush` does to the file, the buffer and the counter, failures included, and
-- the match with the shared state that it keeps.
use async_wal_db.Prelude.{
  ℕ, ◌+◌, ◌-◌, ◌%◌, ◌^◌, ◌<◌, ◌≤◌, ◌≡◌, refl, sym, ap, ◌∙◌, arith, List, [], ◌++◌, length, take,
  drop, take-append-drop,
}
use mathlib.Core.List.{append-nil, append_assoc}
use async_wal_db.Entry.{Bytes, WalEntry}
use async_wal_db.Frame.{Codec}
use async_wal_db.Wal.{WalStorage, Disk, log_file, stopped, written, finished}
use async_wal_db.Wal.Durable.{log_file-extend_log}
use async_wal_db.Wal.Encode.{Encodes}
use async_wal_db.Wal.Simulation.{Synced, Matches}
use async_wal_db.Wal.Simulation.Images.{Cut, rewrite-Image, batch-Image}
use async_wal_db.Tasks.{Shared}

-- `w'` is `w` after a drain that failed: the writer has accepted `bytes`, and some more bytes of
-- what it holds have reached the file.
pub record Failed (w w' : WalStorage) (bytes : Bytes) : Type 0 where
  pub spilled : Bytes
  pub emptied : w'.pending ≡ []
  pub same_count : w'.pending_count ≡ w.pending_count
  pub same_size : w'.max_queue_size ≡ w.max_queue_size
  pub same_durable : w'.durable ≡ w.durable
  pub file : log_file w' ≡ log_file w ++ spilled
  pub accepted : log_file w' ++ w'.buffered ≡ (log_file w ++ w.buffered) ++ bytes

pub stopped-Failed :
    (w : WalStorage) (disk : Disk) (bytes : Bytes)
    → Failed w (stopped (record w { pending = [] }) disk bytes) bytes
unfolding stopped
stopped-Failed w disk bytes =
    let held = w.buffered ++ bytes in
    let file = log_file-extend_log w (take disk.spilled held) in
    record {
      spilled = take disk.spilled held;
      emptied = refl;
      same_count = refl;
      same_size = refl;
      same_durable = refl;
      file = file;
      accepted =
          ap (λ b. b ++ drop disk.spilled held) file
          ∙ append_assoc (log_file w) (take disk.spilled held) (drop disk.spilled held)
          ∙ ap (λ b. log_file w ++ b) (take-append-drop disk.spilled held)
          ∙ sym (append_assoc (log_file w) w.buffered bytes);
    }

pub written-Failed :
    (w : WalStorage) (bytes : Bytes) → Failed w (written (record w { pending = [] }) bytes) bytes
unfolding written
written-Failed w bytes =
    let file = log_file-extend_log w (w.buffered ++ bytes) in
    record {
      spilled = w.buffered ++ bytes;
      emptied = refl;
      same_count = refl;
      same_size = refl;
      same_durable = refl;
      file = file;
      accepted = append-nil _ ∙ file ∙ sym (append_assoc (log_file w) w.buffered bytes);
    }

-- The shared state after a batch that failed: `entries` of it are in the log.
pub record Leaked (m m' : Shared) (size : ℕ) (entries : List WalEntry) : Type 0 where
  pub emptied : m'.pending ≡ []
  pub same_count : m'.pending_count ≡ m.pending_count
  pub same_size : m'.max_queue_size ≡ m.max_queue_size
  pub same_durable : m'.durable ≡ m.durable
  pub log : m'.log ≡ m.log ++ entries
  pub leaked : m'.leaked ≡ m.leaked + size

module _ (c : Codec) (base : Bytes) {w w' : WalStorage} {m m' : Shared} where
  extend-Synced :
      (more : List WalEntry) (bytes : Bytes)
      → m'.log ≡ m.log ++ more
      → log_file w' ≡ log_file w ++ bytes
      → m'.durable ≡ m.durable
      → w'.durable ≡ w.durable
      → m.leaked ≤ m'.leaked
      → Synced c base w m
      → Synced c base w' m'
  extend-Synced more bytes log file d d' le s = record {
    entries = s.entries;
    bytes = s.bytes;
    entries_after = s.entries_after ++ more;
    bytes_after = s.bytes_after ++ bytes;
    leaked = s.leaked;
    image = s.image;
    log = log ∙ ap (λ l. l ++ more) s.log ∙ append_assoc s.entries s.entries_after more;
    file = file ∙ ap (λ l. l ++ bytes) s.file ∙ append_assoc s.bytes s.bytes_after bytes;
    entries_covered = d ∙ s.entries_covered;
    bytes_covered = d' ∙ s.bytes_covered;
    leaked_before = omega (arith, s.leaked_before);
  }

  pub Failed-Matches :
      (size : ℕ) (batch : List WalEntry) (bytes : Bytes)
      (cut : Cut c base (m.leaked + size) m.log batch (log_file w ++ w.buffered) bytes)
      → 0 < size
      → Failed w w' bytes
      → Leaked m m' size cut.in_log
      → Matches c base w m
      → Matches c base w' m'
  Failed-Matches size batch bytes cut some_lost f l h = record {
    queue = f.emptied ∙ sym l.emptied;
    count = f.same_count ∙ h.count ∙ sym l.same_count;
    size = f.same_size ∙ h.size ∙ sym l.same_size;
    image = rw l.leaked (rewrite-Image c base (sym l.log) (sym f.accepted) cut.image);
    synced =
        extend-Synced cut.in_log f.spilled l.log f.file l.same_durable f.same_durable
          (omega (arith, l.leaked)) h.synced;
    ordered = λ e. absurd (omega (arith, l.leaked, e));
  }

-- The shared state after a batch that was written and synced.
pub record Done (m m' : Shared) (size : ℕ) (batch : List WalEntry) : Type 0 where
  pub emptied : m'.pending ≡ []
  pub counted : m'.pending_count ≡ (m.pending_count + 2 ^ 64 - size) % 2 ^ 64
  pub same_size : m'.max_queue_size ≡ m.max_queue_size
  pub log : m'.log ≡ m.log ++ batch
  pub durable : m'.durable ≡ length m'.log
  pub same_leaked : m'.leaked ≡ m.leaked
  pub same_pushed : m'.pushed ≡ m.pushed

pub Done-Matches :
    (c : Codec) (base : Bytes) (w : WalStorage) {m m' : Shared} (batch : List WalEntry)
    (bytes : Bytes) (size : ℕ)
    → m.pending ≡ batch
    → Encodes c batch bytes
    → Done m m' size batch
    → Matches c base w m
    → Matches c base (finished (record w { pending = [] }) bytes size) m'
unfolding finished written
Done-Matches c base w {m = m} {m' = m'} batch bytes size p enc d h =
    let file =
      log_file-extend_log w (w.buffered ++ bytes)
      ∙ sym (append_assoc (log_file w) w.buffered bytes) in
    let whole = batch-Image c base batch bytes enc h.image in
    record {
      queue = sym d.emptied;
      count = ap (λ n. (n + 2 ^ 64 - size) % 2 ^ 64) h.count ∙ sym d.counted;
      size = h.size ∙ sym d.same_size;
      image = rw d.same_leaked (rewrite-Image c base (sym d.log) (sym (append-nil _ ∙ file)) whole);
      synced = record {
        entries = m'.log;
        bytes = _;
        entries_after = [];
        bytes_after = [];
        leaked = m'.leaked;
        image = rw d.same_leaked (rewrite-Image c base (sym d.log) (sym file) whole);
        log = sym (append-nil m'.log);
        file = sym (append-nil _);
        entries_covered = d.durable;
        bytes_covered = refl;
        leaked_before = omega arith;
      };
      ordered = λ e.
          ap (λ l. l ++ m'.pending) d.log
          ∙ ap (λ l. (m.log ++ batch) ++ l) d.emptied
          ∙ append-nil (m.log ++ batch)
          ∙ ap (λ l. m.log ++ l) (sym p)
          ∙ h.ordered (sym d.same_leaked ∙ e)
          ∙ sym d.same_pushed;
    }
