-- ===== src/Checkpoint/Scheduler.antt =====
-- `start_checkpoint_scheduler` of src/database.rs: a task that makes a checkpoint at each tick.
use async_wal_db.Prelude.{ℕ, List, [], ◌∷◌, Bool, true, false, if◌then◌else◌}
use async_wal_db.Errors.{Result, ok, err, panic, unfinished}
use async_wal_db.Frame.{Codec}
use async_wal_db.Database.{Database}
use async_wal_db.Checkpoint.{Files, checkpoint}

-- The `match` on the result of a checkpoint only prints. A panic ends the task.
unfoldable pub goes_on : Result ℕ → Bool
goes_on (ok tx_id) = true
goes_on (err e) = true
goes_on panic = false
goes_on unfinished = false

-- The loop, for as many ticks as there are.
unfoldable pub scheduler : Codec → List Files → Database → Database
unfolding goes_on
scheduler c [] db = db
scheduler c (files ∷ ticks) db =
    let (db', result) = checkpoint c files db in
    let later = scheduler c ticks db' in if goes_on result then later else db'
