-- ===== src/Checkpoint/Tests.antt =====
-- A checkpoint of a concrete database, and the theorems about checkpoints at it.
use mathlib.Core.List.{foldl}
use async_wal_db.Prelude.{
  ℕ, true, ◌≤◌, ◌≡◌, ◌≢◌, refl, arith, List, [], ◌∷◌, some, All, take, bytes_eq,
}
use async_wal_db.Prelude.Map
use async_wal_db.Prelude.Sort.{has, sort}
use async_wal_db.Errors.{ok}
use async_wal_db.Entry.{Bytes, WalEntry}
use async_wal_db.Header
use async_wal_db.Frame.{frame, eof, read_frame, read_exact, data_eof}
use async_wal_db.Frame.RoundTrip.{reader}
use async_wal_db.Frame.Sample.{sample, sample-IsLawful}
use async_wal_db.Store.{redo, redo_all}
use async_wal_db.Wal.{WalStorage, encode_batch}
use async_wal_db.Wal.Encode.{Encodes}
use async_wal_db.Recovery.{push_entry, replay}
use async_wal_db.Recovery.Reading.{Reads, stops}
use async_wal_db.Recovery.Serial.{serial, Committed}
use async_wal_db.Database.{Database, opened, open_log, on_wal, pure, ◌>>=◌}
use async_wal_db.Checkpoint
use async_wal_db.Checkpoint.{
  works, checkpoint_path, set_checkpoint, get_last_checkpoint, set_insert, set_remove, note_marker,
  visit, leave, read_since, max_or, checkpoint,
}
use async_wal_db.Checkpoint.Decimal.{to_string, parse, trim, parse-to_string}
use async_wal_db.Checkpoint.Loop.{newer}
use async_wal_db.Checkpoint.Replayed.{checkpoint_replays, checkpoint_damaged}

-- Transaction 1 is behind the checkpoint; 2 is aborted, 3 and 12 are committed.
abbrev entries : List WalEntry
entries =
    WalEntry.insert 1 100 (107 ∷ []) (1 ∷ [])
    ∷ WalEntry.commit 1 101
    ∷ WalEntry.insert 2 102 (108 ∷ []) (2 ∷ [])
    ∷ WalEntry.abort 2 102
    ∷ WalEntry.insert 12 103 (107 ∷ []) (12 ∷ [])
    ∷ WalEntry.commit 12 103
    ∷ WalEntry.delete 3 104 (107 ∷ []) (1 ∷ [])
    ∷ WalEntry.commit 3 104
    ∷ []

abbrev log : Bytes
log = (encode_batch sample entries).0

abbrev wal_on : Bytes → WalStorage
wal_on bytes = record {
  files =
      (119 ∷ [], bytes)
      ∷ (119 ∷ 46 ∷ 99 ∷ 104 ∷ 101 ∷ 99 ∷ 107 ∷ 112 ∷ 111 ∷ 105 ∷ 110 ∷ 116 ∷ [], 32 ∷ 49 ∷ 10 ∷ [])
      ∷ [];
  path = 119 ∷ [];
  pending = [];
  max_queue_size = 10;
  pending_count = 0;
  buffered = [];
  durable = 0;
}

abbrev db : Database
db = record { store = (107 ∷ [], 1 ∷ []) ∷ []; wal = wal_on log; next_tx_id = 13 }

abbrev files : Checkpoint.Files
files = record { loading = works; opening = opened; saving = works }

loaded : (get_last_checkpoint works db.wal).1 ≡ ok 1
unfolding get_last_checkpoint Map.get parse trim
loaded = refl

log-Encodes : Encodes sample entries log
unfolding encode_batch frame sample Header.new Header.to_bytes
log-Encodes = refl

log-opens : open_log opened db.wal ≡ some (reader log eof)
unfolding open_log Map.get
log-opens = refl

runs : (checkpoint sample files db).1 ≡ ok 12
unfolding checkpoint on_wal get_last_checkpoint set_checkpoint open_log read_since leave visit
    note_marker set_insert set_remove max_or Map.get Map.insert Map.remove parse trim to_string pure
    ◌>>=◌ push_entry replay redo_all sort encode_batch frame sample Header.new Header.to_bytes
    Header.from_bytes Header.validate read_frame read_exact
runs = refl

parse-to_string_example : parse (trim (to_string 1_234)) ≡ some 1_234
parse-to_string_example = parse-to_string 1_234 (omega arith)

checkpoint_replays_example :
    (ids : List ℕ) × Committed (newer 1 entries) ids
    × ((checkpoint sample files db).0.store ≡ foldl redo db.store (serial ids (newer 1 entries)))
    × (has 12 ids ≡ true)
    × All (λ i. i ≤ 12) ids
    × ((get_last_checkpoint works (checkpoint sample files db).0.wal).1 ≡ ok 12)
checkpoint_replays_example =
    checkpoint_replays sample-IsLawful files db entries log 1 12 loaded refl log-Encodes log-opens
      (omega arith) runs

-- The same log, cut off in the data of its last entry.
abbrev cut : Bytes
cut = take 30 log

abbrev damaged : Database
damaged = record { store = []; wal = wal_on cut; next_tx_id = 13 }

cut-Reads : Reads sample (reader cut eof) [] 0 data_eof
unfolding encode_batch frame sample Header.new Header.to_bytes Header.from_bytes read_frame
    read_exact
cut-Reads = stops tt refl

cut-loaded : (get_last_checkpoint works damaged.wal).1 ≡ ok 1
unfolding get_last_checkpoint Map.get parse trim
cut-loaded = refl

cut-opens : open_log opened damaged.wal ≡ some (reader cut eof)
unfolding open_log Map.get
cut-opens = refl

checkpoint_damaged_example :
    ((checkpoint sample files damaged).0 ≡ damaged)
    × ((n : ℕ) → (checkpoint sample files damaged).1 ≢ ok n)
checkpoint_damaged_example =
    checkpoint_damaged cut-Reads files damaged 1 (λ p. cc) cut-loaded refl cut-opens
