-- ===== src/Frame/Tests.antt =====
-- A concrete frame, and the theorems about frames at it.
use async_wal_db.Prelude.{ℕ, ◌+◌, ◌≡◌, refl, Option, none, some, [], ◌∷◌, ◌++◌, length}
use async_wal_db.Entry.{Bytes, WalEntry}
use async_wal_db.Header
use async_wal_db.Frame.{frame, fault, entry, read_frame}
use async_wal_db.Frame.RoundTrip.{reader, read_frame-frame}
use async_wal_db.Frame.Sample.{sample, sample-IsLawful}

abbrev marker : WalEntry
marker = WalEntry.commit 7 100

abbrev or_empty : Option Bytes → Bytes
or_empty none = []
or_empty (some b) = b

abbrev bytes : Bytes
bytes = or_empty (frame sample marker)

frame-bytes : frame sample marker ≡ some bytes
unfolding frame sample Header.new Header.to_bytes
frame-bytes = refl

read_frame-frame_example :
    (n : ℕ) × (read_frame sample (reader (bytes ++ (1 ∷ [])) fault)
      ≡ entry n marker (reader (1 ∷ []) fault))
    × (Header.size + n ≡ length bytes)
read_frame-frame_example = read_frame-frame sample-IsLawful marker bytes frame-bytes (1 ∷ []) fault
