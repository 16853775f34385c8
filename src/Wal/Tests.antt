-- ===== src/Wal/Tests.antt =====
-- Concrete queues, and the theorems about the log's queue at them.
use async_wal_db.Prelude.{◌≡◌, refl, arith, List, [], ◌∷◌, none, some}
use async_wal_db.Prelude.Map
use async_wal_db.Errors.{ok, err, io, unfinished}
use async_wal_db.Entry.{WalEntry}
use async_wal_db.Header
use async_wal_db.Frame.{frame}
use async_wal_db.Frame.Sample.{sample}
use async_wal_db.Wal.{
  WalStorage, Disk, fine, write_fails, encode_batch, drain_and_flush, append, flush,
}
use async_wal_db.Wal.Bounds.{IsBounded}
use async_wal_db.Wal.Durable.{IsSettled, Drained, flush_fine}
use async_wal_db.Wal.Lost.{flush-lost}

-- A full queue of two entries behind a log of one byte.
abbrev pub queue : List WalEntry
queue = WalEntry.insert 1 100 (107 ∷ []) (1 ∷ []) ∷ WalEntry.commit 1 100 ∷ []

abbrev pub full : WalStorage
full = record {
  files = (119 ∷ [], 0 ∷ []) ∷ [];
  path = 119 ∷ [];
  pending = queue;
  max_queue_size = 2;
  pending_count = 2;
  buffered = [];
  durable = 1;
}

abbrev pub good : Disk
good = record { outcome = fine; accepted = 0; spilled = 0 }

abbrev pub bad : Disk
bad = record { outcome = write_fails; accepted = 20; spilled = 5 }

full-IsBounded : IsBounded full
full-IsBounded = omega arith

full-IsSettled : IsSettled full
unfolding Map.get
full-IsSettled = record { unbuffered = refl; synced = refl; exact = refl; word = omega arith }

drain_fails : (drain_and_flush sample bad full).1 ≡ err io
unfolding drain_and_flush encode_batch frame sample Header.new Header.to_bytes
drain_fails = refl

append_waits : append sample (none ∷ none ∷ []) (WalEntry.abort 2 100) full ≡ (full, unfinished)
unfolding append
append_waits = refl

flush_fine_example :
    ((flush sample (none ∷ some good ∷ []) good full).1 ≡ ok tt)
    × Drained full (flush sample (none ∷ some good ∷ []) good full).0 (encode_batch sample queue).0
unfolding encode_batch frame sample Header.new Header.to_bytes
flush_fine_example =
    flush_fine sample (none ∷ some good ∷ []) good full (encode_batch sample queue).0
      (tt, (refl, tt)) refl full-IsSettled refl

flush-lost_example :
    flush sample (some good ∷ []) good (drain_and_flush sample bad full).0
    ≡ ((drain_and_flush sample bad full).0, ok tt)
flush-lost_example = flush-lost sample bad full (λ e. cc (drain_fails)) (some good ∷ []) good
