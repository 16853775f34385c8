-- ===== src/Recovery/Tests.antt =====
-- Concrete logs, and the theorems about recovery at them.
use mathlib.Core.List.{foldl}
use async_wal_db.Prelude.{
  ◌⊎◌, ℕ, ◌+◌, ◌^◌, ◌≤◌, ◌<◌, ◌≡◌, ◌≢◌, refl, arith, List, [], ◌∷◌, ◌++◌, Option, none, some,
  length, take, drop,
}
use async_wal_db.Errors.{ok, panic}
use async_wal_db.Entry.{Bytes, WalEntry}
use async_wal_db.Frame.{Reader, too_long, eof, frame, read_frame, read_exact}
use async_wal_db.Frame.RoundTrip.{reader}
use async_wal_db.Frame.Sample.{sample, sample-IsLawful}
use async_wal_db.Prelude.Map
use async_wal_db.Store.{redo, redo_all}
use async_wal_db.Header
use async_wal_db.Wal.{encode_batch}
use async_wal_db.Wal.Encode.{Encodes}
use async_wal_db.Recovery.Reading.{Returns, Reads, recover_terminates}
use async_wal_db.Recovery.Crash.{whole, recover-take}
use async_wal_db.Recovery.Serial.{Committed, serial, recover-serial}
use async_wal_db.Recovery.Counts.{recover_stats}
use async_wal_db.Recovery.Counter.{recover_counter}
use async_wal_db.Recovery.Torn.{recover_torn}
use async_wal_db.Recovery.Damage.{Reads-log, recover_too_long, recover_invalid}
use async_wal_db.Recovery.Damaged.{with_damage}
use async_wal_db.Recovery.{Memory, RecoveryStats, recover_with_validation}

-- Transaction 1 commits, transaction 3 too, and transaction 2 is cut off.
abbrev entries : List WalEntry
entries =
    WalEntry.insert 1 100 (107 ∷ []) (1 ∷ [])
    ∷ WalEntry.insert 2 100 (108 ∷ []) (2 ∷ [])
    ∷ WalEntry.commit 1 101
    ∷ WalEntry.update 3 102 (107 ∷ []) (1 ∷ []) (3 ∷ [])
    ∷ WalEntry.commit 3 103
    ∷ []

abbrev log : Bytes
log = (encode_batch sample entries).0

entries-log : Encodes sample entries log
unfolding encode_batch frame sample Header.new Header.to_bytes
entries-log = refl

abbrev fresh : Memory
fresh = record { store = []; next_tx_id = 1 }

length-log : length log < 2 ^ 64
unfolding encode_batch frame sample Header.new Header.to_bytes
length-log = omega arith

-- The one partial write is the end of the file.
abbrev stats : RecoveryStats
stats = record {
  total_transactions = 3;
  committed = 2;
  aborted = 0;
  incomplete = 1;
  partial_writes = 1;
  checksum_failures = 0;
}

run : (recover_with_validation sample (some (reader log eof)) fresh).1 ≡ ok stats
unfolding recover_with_validation encode_batch frame sample Header.new Header.to_bytes
    Header.from_bytes Header.validate read_frame read_exact Map.get Map.insert Map.remove redo_all
run = refl

recovered :
    (recover_with_validation sample (some (reader log eof)) fresh).0
    ≡ record { store = (107 ∷ [], 3 ∷ []) ∷ []; next_tx_id = 4 }
unfolding recover_with_validation encode_batch frame sample Header.new Header.to_bytes
    Header.from_bytes Header.validate read_frame read_exact Map.get Map.insert Map.remove redo_all
recovered = refl

-- What is left of the log if the file ends one byte before its end.
abbrev kept : Bytes
kept = (encode_batch sample (whole sample entries 170)).0

kept_entries : whole sample entries 170 ≡ take 3 entries
unfolding whole frame sample Header.new Header.to_bytes
kept_entries = refl

recover-serial_example :
    (ids : List ℕ) × Committed entries ids
    × ((recover_with_validation sample (some (reader log eof)) fresh).0.store
        ≡ foldl redo [] (serial ids entries))
recover-serial_example = recover-serial sample-IsLawful fresh entries log entries-log length-log

recover-take_example :
    (recover_with_validation sample (some (reader (take 170 log) eof)) fresh).0
    ≡ (recover_with_validation sample (some (reader kept eof)) fresh).0
unfolding whole encode_batch frame sample Header.new Header.to_bytes
recover-take_example =
    recover-take sample-IsLawful fresh entries log kept 170 entries-log refl length-log
      (omega arith) (omega arith)

-- A file of a torn header.
abbrev stub : Reader
stub = reader (1 ∷ 2 ∷ []) eof

recover_terminates_example :
    Returns (recover_with_validation sample (some stub) fresh).1
    ⊎ ((es : List WalEntry) × (n : ℕ) × Reads sample stub es n too_long
        × (recover_with_validation sample (some stub) fresh ≡ (fresh, panic)))
recover_terminates_example = recover_terminates sample stub fresh (omega arith)

recover_stats_example : (2 + 0 + 1 ≡ 3) × (1 + 0 ≤ 1)
recover_stats_example = recover_stats sample (reader log eof) fresh stats length-log run

recover_counter_example :
    3 < (recover_with_validation sample (some (reader log eof)) fresh).0.next_tx_id
recover_counter_example =
    recover_counter (Reads-log sample-IsLawful entries log entries-log) fresh stats length-log run
      (omega arith) 3 (λ e. cc)

-- A header of which each byte is 255, and a header for other data than follow it.
abbrev ones : Bytes
ones = 255 ∷ 255 ∷ 255 ∷ 255 ∷ 255 ∷ 255 ∷ 255 ∷ 255 ∷ 255 ∷ 255 ∷ 255 ∷ 255 ∷ 255 ∷ []

abbrev stale : Bytes
stale = 2 ∷ 0 ∷ 0 ∷ 0 ∷ 0 ∷ 0 ∷ 0 ∷ 0 ∷ 9 ∷ 0 ∷ 0 ∷ 0 ∷ 1 ∷ []

recover_too_long_example :
    recover_with_validation sample (some (reader (log ++ (ones ++ [])) eof)) fresh ≡ (fresh, panic)
unfolding encode_batch frame sample Header.new Header.to_bytes Header.from_bytes
recover_too_long_example =
    recover_too_long sample-IsLawful entries log ones [] eof fresh entries-log refl (omega arith)
      (omega arith)

recover_invalid_example :
    recover_with_validation sample
      (some (reader (log ++ (stale ++ ((7 ∷ 8 ∷ []) ++ (1 ∷ [])))) eof))
      fresh
    ≡ (
      (recover_with_validation sample (some (reader log eof)) fresh).0,
      with_damage 0 1 (recover_with_validation sample (some (reader log eof)) fresh).1,
    )
unfolding encode_batch frame sample Header.new Header.to_bytes Header.from_bytes
recover_invalid_example =
    recover_invalid sample-IsLawful entries log stale (7 ∷ 8 ∷ []) (1 ∷ []) eof fresh entries-log
      refl refl (omega arith) (omega arith) (omega arith)

-- An entry of which 18 bytes are missing, and a transaction that is committed behind it.
abbrev torn : WalEntry
torn = WalEntry.insert 4 100 (107 ∷ []) (4 ∷ [])

abbrev data_of : Option Bytes → Bytes
data_of none = []
data_of (some b) = b

abbrev body : Bytes
body = data_of (sample.serialize torn)

abbrev appended : Bytes
appended =
    (encode_batch sample (WalEntry.insert 5 100 (107 ∷ []) (5 ∷ []) ∷ WalEntry.commit 5 100 ∷ [])).0

abbrev torn_file : Bytes
torn_file =
    log
    ++ (Header.to_bytes (Header.new sample.hash body)
        ++ ((take 20 body ++ take 18 appended) ++ drop 18 appended))

torn-differs : sample.hash (take 20 body ++ take 18 appended) ≢ sample.hash body
unfolding encode_batch frame sample Header.new Header.to_bytes
torn-differs p = omega (arith, p)

torn-size : length torn_file < 2 ^ 64
unfolding encode_batch frame sample Header.new Header.to_bytes
torn-size = omega arith

recover_torn_example :
    (recover_with_validation sample (some (reader torn_file eof)) fresh).0
    ≡ (recover_with_validation sample (some (reader log eof)) fresh).0
unfolding encode_batch frame sample Header.new Header.to_bytes
recover_torn_example =
    recover_torn sample-IsLawful entries log torn body (take 20 body) (drop 20 body)
      (take 18 appended) (drop 18 appended) fresh entries-log refl refl refl torn-differs torn-size
