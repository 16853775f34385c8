-- ===== src/Checkpoint/Untouched.antt =====
-- A checkpoint leaves the log file and the queue as they are, on every branch.
use async_wal_db.Prelude.{
  ℕ, ◌≡◌, refl, ap, ◌∙◌, List, [], ◌∷◌, ◌&&◌, Option, none, some, nat_beq, Bool-cases, inl, inr,
}
use async_wal_db.Errors.{Result, ok, err, panic, unfinished}
use async_wal_db.Entry.{WalEntry}
use async_wal_db.Frame.{Codec, Reader}
use async_wal_db.Store.{Store}
use async_wal_db.Wal.{log_file}
use async_wal_db.Wal.Holds.{Holds}
use async_wal_db.Recovery.{is_empty}
use async_wal_db.Database.{Database, open_log, on_wal, pure, ◌>>=◌, ◌>>◌}
use async_wal_db.Checkpoint.{
  Access, works, refused, fails, set_checkpoint, write_checkpoint, get_last_checkpoint, Progress,
  Files, apply_committed, no_ids, after_read, read_log, checkpoint_since, checkpoint,
}
use async_wal_db.Checkpoint.File.{set_checkpoint-log_file}
use async_wal_db.Checkpoint.Scheduler.{goes_on, scheduler}

pub record Untouched (db db' : Database) : Type 0 where
  pub same_log : log_file db'.wal ≡ log_file db.wal
  pub same_pending : db'.wal.pending ≡ db.wal.pending
  pub same_count : db'.wal.pending_count ≡ db.wal.pending_count
  pub same_size : db'.wal.max_queue_size ≡ db.wal.max_queue_size
  pub same_buffered : db'.wal.buffered ≡ db.wal.buffered
  pub same_durable : db'.wal.durable ≡ db.wal.durable
  pub same_counter : db'.next_tx_id ≡ db.next_tx_id

-- Only the log file can differ as a file.
beside-Untouched :
    (db db' : Database)
    → log_file db'.wal ≡ log_file db.wal
    → db' ≡ record db { store = db'.store; wal = record db.wal { files = db'.wal.files } }
    → Untouched db db'
beside-Untouched db db' same e = record {
  same_log = same;
  same_pending = ap (λ x. x.wal.pending) e;
  same_count = ap (λ x. x.wal.pending_count) e;
  same_size = ap (λ x. x.wal.max_queue_size) e;
  same_buffered = ap (λ x. x.wal.buffered) e;
  same_durable = ap (λ x. x.wal.durable) e;
  same_counter = ap (λ x. x.next_tx_id) e;
}

same-Untouched : (db : Database) → Untouched db db
same-Untouched db = beside-Untouched db db refl refl

Untouched-trans : {a b d : Database} → Untouched a b → Untouched b d → Untouched a d
Untouched-trans p q = record {
  same_log = q.same_log ∙ p.same_log;
  same_pending = q.same_pending ∙ p.same_pending;
  same_count = q.same_count ∙ p.same_count;
  same_size = q.same_size ∙ p.same_size;
  same_buffered = q.same_buffered ∙ p.same_buffered;
  same_durable = q.same_durable ∙ p.same_durable;
  same_counter = q.same_counter ∙ p.same_counter;
}

-- What has been appended is where it was.
pub Untouched-Holds :
    {c : Codec} {db db' : Database} {total : List WalEntry}
    → Untouched db db'
    → Holds c db.wal total
    → Holds c db'.wal total
Untouched-Holds u h = record {
  logged = h.logged;
  encoded = rw (u.same_log) (h.encoded);
  split = rw (u.same_pending) (h.split);
  settled = record {
    unbuffered = u.same_buffered ∙ h.settled.unbuffered;
    synced = rw (u.same_durable, u.same_log) (h.settled.synced);
    exact = rw (u.same_count, u.same_pending) (h.settled.exact);
    word = rw (u.same_count) (h.settled.word);
  };
  word = rw (u.same_size) (h.word);
}

save-Untouched :
    (access : Access) (n : ℕ) (store : Store) (db : Database)
    → Untouched db ((on_wal (set_checkpoint access n) >> pure n) (record db { store = store })).0
unfolding on_wal set_checkpoint write_checkpoint pure ◌>>=◌
save-Untouched works n store db =
    beside-Untouched db _ (set_checkpoint-log_file works n db.wal) refl
save-Untouched refused n store db = beside-Untouched db _ refl refl
save-Untouched (fails m) n store db =
    beside-Untouched db _ (set_checkpoint-log_file (fails m) n db.wal) refl

after_read-Untouched :
    (files : Files) (last : ℕ) (db : Database) (r : Result Progress)
    → Untouched db (after_read files last db r).0
unfolding after_read apply_committed
after_read-Untouched files last db (ok s) = elim (Bool-cases (no_ids s.committed_txs)) [
  | inl none_new ↦ rw none_new (same-Untouched db)
  | inr some_new ↦ rw some_new (save-Untouched files.saving _ _ db)
]
after_read-Untouched files last db (err e) = same-Untouched db
after_read-Untouched files last db panic = same-Untouched db
after_read-Untouched files last db unfinished = same-Untouched db

read_log-Untouched :
    (c : Codec) (files : Files) (last : ℕ) (db : Database) (o : Option Reader)
    → Untouched db (read_log c files last db o).0
unfolding read_log
read_log-Untouched c files last db none = same-Untouched db
read_log-Untouched c files last db (some r) = after_read-Untouched files last db _

checkpoint_since-Untouched :
    (c : Codec) (files : Files) (last : ℕ) (db : Database)
    → Untouched db (checkpoint_since c files last db).0
unfolding checkpoint_since
checkpoint_since-Untouched c files last db =
    elim (Bool-cases (nat_beq last 0 && is_empty db.wal.path)) [
      | inl nameless ↦ rw nameless (same-Untouched db)
      | inr named ↦ rw named (read_log-Untouched c files last db (open_log files.opening db.wal))
    ]

-- A checkpoint writes no file but its own, and takes nothing from the queue.
pub checkpoint-Untouched :
    (c : Codec) (files : Files) (db : Database) → Untouched db (checkpoint c files db).0
unfolding checkpoint on_wal get_last_checkpoint ◌>>=◌
checkpoint-Untouched c files db = of (get_last_checkpoint files.loading db.wal).1 refl
  where
    of :
        (r : Result ℕ)
        → (get_last_checkpoint files.loading db.wal).1 ≡ r
        → Untouched db (checkpoint c files db).0
    of (ok last) e = rw e (checkpoint_since-Untouched c files last db)
    of (err x) e = rw e (same-Untouched db)
    of panic e = rw e (same-Untouched db)
    of unfinished e = rw e (same-Untouched db)

-- The scheduler of checkpoints too.
pub scheduler-Untouched :
    (c : Codec) (ticks : List Files) (db : Database) → Untouched db (scheduler c ticks db)
unfolding scheduler
scheduler-Untouched c [] db = same-Untouched db
scheduler-Untouched c (files ∷ ticks) db =
    let first = checkpoint-Untouched c files db in
    elim (Bool-cases (goes_on (checkpoint c files db).1)) [
      | inl on ↦
          rw on (Untouched-trans first (scheduler-Untouched c ticks (checkpoint c files db).0))
      | inr off ↦ rw off first
    ]
