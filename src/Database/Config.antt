-- ===== src/Database/Config.antt =====
-- `DatabaseConfig` of src/database.rs, a builder.
use async_wal_db.Prelude.{ℕ}
use async_wal_db.Entry.{Bytes}

pub record DatabaseConfig : Type 0 where
  pub wal_path : Bytes
  pub max_queue_size : ℕ
  pub flush_interval_ms : ℕ

unfoldable pub new : Bytes → DatabaseConfig
new wal_path = record { wal_path = wal_path; max_queue_size = 10_000; flush_interval_ms = 10 }

unfoldable pub with_max_queue_size : ℕ → DatabaseConfig → DatabaseConfig
with_max_queue_size size config = record config { max_queue_size = size }

unfoldable pub with_flush_interval_ms : ℕ → DatabaseConfig → DatabaseConfig
with_flush_interval_ms ms config = record config { flush_interval_ms = ms }
