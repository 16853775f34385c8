-- ===== src/Workers/Benchmarks.antt =====
-- What a benchmark leaves in its database.
use async_wal_db.Prelude.{◌≡◌, refl, List, [], ◌∷◌, All, bytes_eq}
use async_wal_db.Prelude.Map
use async_wal_db.Errors.{ok}
use async_wal_db.Database.{Database, pure}
use async_wal_db.Workers.{Worker, idle, working}
use async_wal_db.Workers.Finished.{IsDone}
use async_wal_db.Workers.Programs.{join_all}

pub join_all-IsDone :
    (ws : List Worker) (db : Database) → All IsDone ws → join_all ws db ≡ (db, ok tt)
unfolding join_all pure
join_all-IsDone [] db h = refl
join_all-IsDone (idle [] ∷ ws) db h = join_all-IsDone ws db h.1
join_all-IsDone (idle (ops ∷ jobs) ∷ ws) db h = absurd (cc (h.0))
join_all-IsDone (working tx ops jobs ∷ ws) db h = absurd (cc (h.0))
