-- ===== src/Tasks.antt =====
-- `WalStorage` of src/wal_storage.rs as its tasks share it: `append`, `flush`, the background
-- flusher and `stop_flusher`, one access to the shared state at a time, in any order. The log is
-- the sequence of the entries that the writer has accepted; their bytes are the subject of Wal.
pub mod Tally
pub mod Reachable
pub mod Safety
pub mod Runs
pub mod Asleep
pub mod Order
pub mod Tests
use async_wal_db.Prelude.{
  ℕ, ◌+◌, ◌-◌, ◌%◌, ◌^◌, ◌≤◌, ◌<◌, ◌≡◌, ◌≢◌, List, [], ◌∷◌, ◌++◌, map, Bool, true, false, length,
}
use async_wal_db.Entry.{WalEntry}

-- What the tasks share. The program does not keep the last three: all entries pushed so far, the
-- entries of failed batches that did not get to the log, and the number of entries in those
-- batches, which stay counted as pending.
pub record Shared : Type 0 where
  pub pending : List WalEntry
  pub pending_count : ℕ
  pub max_queue_size : ℕ
  pub locked : Bool  -- the mutex of `inner`
  pub log : List WalEntry
  pub durable : ℕ  -- how many entries of the log an fsync has covered
  pub shutdown : Bool
  pub handle : Bool  -- whether `flusher_handle` holds the flusher's handle
  pub pushed : List WalEntry
  pub lost : List WalEntry
  pub leaked : ℕ

-- The calls of `drain_and_flush`: by the flusher at a tick or a notification, by the flusher after
-- the shutdown flag, and by `flush`.
pub data Caller : Type 0 where
  at_tick at_shutdown by_flush : Caller

-- Where a task stands, with the local variables that are live there.
pub data Task : Type 0 where
  -- `append`
  appending : (entry : WalEntry) → Task  -- head of the loop
  loaded : (entry : WalEntry) (current_count : ℕ) → Task
  full : (entry : WalEntry) → Task  -- before `notified()`
  waiting : (entry : WalEntry) → Task  -- registered for `notify_waiters`
  reserved : (entry : WalEntry) → Task  -- the count is increased
  appended : Task
  -- `drain_and_flush`
  draining : Caller → (batch : List WalEntry) → Task
  locking : Caller → (batch : List WalEntry) → Task
  writing : Caller → (accepted : ℕ) (rest : List WalEntry) → Task  -- with the mutex, up to `syncing`
  counting : Caller → (batch_size : ℕ) → Task  -- after the fsync
  notifying : Caller → Task
  leaving : Caller → (succeeded : Bool) → Task  -- before the guard is dropped
  returned : Caller → (succeeded : Bool) → Task
  -- `flush`
  polling : (retries : ℕ) → Task
  checking : Task
  flushed : (succeeded : Bool) → Task
  -- the background flusher, and the task that stores its handle
  selecting : Task
  ended : Task
  storing : Task
  stored : Task
  -- `stop_flusher`
  stopping : Task
  taking : Task
  joining : Task
  stopped : Task

-- One access of one task. A batch is at most `batch_size`, the entries accepted and those that rest.
pub data Move (m : Shared) : Task → Shared → Task → Type 0 where
  load : {e : WalEntry} → Move m (appending e) m (loaded e m.pending_count)
  no_space : {e : WalEntry} {n : ℕ} → m.max_queue_size ≤ n → Move m (loaded e n) m (full e)
  register : {e : WalEntry} → Move m (full e) m (waiting e)
  reserve :
      {e : WalEntry} {n : ℕ}
      → n < m.max_queue_size
      → m.pending_count ≡ n
      → Move m (loaded e n) (record m { pending_count = n + 1 }) (reserved e)
  retry :
      {e : WalEntry} {n : ℕ}
      → n < m.max_queue_size
      → m.pending_count ≢ n
      → Move m (loaded e n) m (appending e)
  push :
      {e : WalEntry}
      → Move m
          (reserved e)
          (record m { pending = m.pending ++ e ∷ []; pushed = m.pushed ++ e ∷ [] })
          appended
  pop :
      {k : Caller} {batch : List WalEntry} (e : WalEntry) (rest : List WalEntry)
      → m.pending ≡ e ∷ rest
      → Move m (draining k batch) (record m { pending = rest }) (draining k (batch ++ e ∷ []))
  nothing : {k : Caller} → m.pending ≡ [] → Move m (draining k []) m (returned k true)
  drained :
      {k : Caller} {e : WalEntry} {batch : List WalEntry}
      → m.pending ≡ []
      → Move m (draining k (e ∷ batch)) m (locking k (e ∷ batch))
  lock :
      {k : Caller} {batch : List WalEntry}
      → m.locked ≡ false
      → Move m (locking k batch) (record m { locked = true }) (writing k 0 batch)
  write :
      {k : Caller} {n : ℕ} {e : WalEntry} {rest : List WalEntry}
      → Move m
          (writing k n (e ∷ rest))
          (record m { log = m.log ++ e ∷ [] })
          (writing k (n + 1) rest)
  write_fails :
      {k : Caller} {n : ℕ} {e : WalEntry} {rest : List WalEntry}
      → Move m
          (writing k n (e ∷ rest))
          (record m { lost = m.lost ++ e ∷ rest; leaked = m.leaked + (n + length (e ∷ rest)) })
          (leaving k false)
  sync :
      {k : Caller} {n : ℕ}
      → Move m (writing k n []) (record m { durable = length m.log }) (counting k n)
  sync_fails :
      {k : Caller} {n : ℕ}
      → Move m (writing k n []) (record m { leaked = m.leaked + n }) (leaving k false)
  count :
      {k : Caller} {n : ℕ}
      → Move m
          (counting k n)
          (record m { pending_count = (m.pending_count + 2 ^ 64 - n) % 2 ^ 64 })
          (notifying k)
  unlock :
      {k : Caller} {ok : Bool} → Move m (leaving k ok) (record m { locked = false }) (returned k ok)
  sleep :
      {retries : ℕ}
      → 0 < m.pending_count
      → retries < 100
      → Move m (polling retries) m (polling (retries + 1))
  settled : {retries : ℕ} → m.pending_count ≡ 0 → Move m (polling retries) m checking
  give_up : {retries : ℕ} → 100 ≤ retries → Move m (polling retries) m checking
  clear : m.pending_count ≡ 0 → Move m checking m (flushed true)
  force : 0 < m.pending_count → Move m checking m (draining by_flush [])
  flush_returns : {ok : Bool} → Move m (returned by_flush ok) m (flushed ok)
  tick : Move m selecting m (draining at_tick [])
  goes_on : {ok : Bool} → m.shutdown ≡ false → Move m (returned at_tick ok) m selecting
  shuts_down :
      {ok : Bool} → m.shutdown ≡ true → Move m (returned at_tick ok) m (draining at_shutdown [])
  ends : {ok : Bool} → Move m (returned at_shutdown ok) m ended
  store : Move m storing (record m { handle = true }) stored
  set_flag : Move m stopping (record m { shutdown = true }) taking
  no_handle : m.handle ≡ false → Move m taking m stopped
  take_handle : m.handle ≡ true → Move m taking (record m { handle = false }) joining

-- `notify_waiters` wakes the tasks that are registered, and no others.
abbrev pub wake : Task → Task
wake (waiting e) = appending e
wake t = t

pub record System : Type 0 where
  pub shared : Shared
  pub tasks : List Task

-- The calls by which a task begins.
pub data IsCall : Task → Type 0 where
  append : (e : WalEntry) → IsCall (appending e)
  flush : IsCall (polling 0)
  start_flusher : IsCall selecting
  store_handle : IsCall storing
  stop_flusher : IsCall stopping

pub data Step (s : System) : System → Type 0 where
  call : (t : Task) → IsCall t → Step s (record s { tasks = t ∷ s.tasks })
  moves :
      (front : List Task) (t : Task) (back : List Task) {m : Shared} {t' : Task}
      → s.tasks ≡ front ++ t ∷ back
      → Move s.shared t m t'
      → Step s (record { shared = m; tasks = front ++ t' ∷ back })
  notify :
      (front : List Task) (k : Caller) (back : List Task)
      → s.tasks ≡ front ++ notifying k ∷ back
      → Step s (record s { tasks = map wake front ++ leaving k true ∷ map wake back })
  join :
      (front back before behind : List Task)
      → s.tasks ≡ front ++ joining ∷ back
      → front ++ back ≡ before ++ ended ∷ behind
      → Step s (record s { tasks = front ++ stopped ∷ back })

abbrev pub fresh : ℕ → Shared
fresh max_queue_size = record {
  pending = [];
  pending_count = 0;
  max_queue_size = max_queue_size;
  locked = false;
  log = [];
  durable = 0;
  shutdown = false;
  handle = false;
  pushed = [];
  lost = [];
  leaked = 0;
}

-- What any number of tasks can reach from a new storage.
pub data Reach (max_queue_size : ℕ) : System → Type 0 where
  start : Reach max_queue_size (record { shared = fresh max_queue_size; tasks = [] })
  later : {s t : System} → Reach max_queue_size s → Step s t → Reach max_queue_size t
