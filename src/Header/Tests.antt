-- ===== src/Header/Tests.antt =====
-- Concrete headers, and the theorems about headers at them.
use async_wal_db.Prelude.{◌≡◌, refl, [], ◌∷◌, length}
use async_wal_db.Errors.{ok}
use async_wal_db.Entry.{Bytes}
use async_wal_db.Header.Bytes.{le_bytes}
use async_wal_db.Header.{WalEntryHeader, validate, to_bytes}

abbrev header : WalEntryHeader
header = record { length = 258; checksum = 0x0102_0304; version = 1 }

abbrev thirteen : Bytes
thirteen = 2 ∷ 1 ∷ 0 ∷ 0 ∷ 0 ∷ 0 ∷ 0 ∷ 0 ∷ 4 ∷ 3 ∷ 2 ∷ 1 ∷ 1 ∷ []

header_bytes : to_bytes header ≡ thirteen
unfolding to_bytes le_bytes
header_bytes = refl

-- An entry of another version is not refused.
version_unchecked :
    validate length (record { length = 1; checksum = 1; version = 9 }) (5 ∷ []) ≡ ok tt
unfolding validate
version_unchecked = refl
