-- ===== src/Header.antt =====
-- `WalEntryHeader` of src/lib.rs: the 13 bytes in front of each entry of the log. The checksum,
-- `crc32fast::hash`, is code of another package: a parameter, a function from bytes to numbers.
pub mod Bytes
pub mod Laws
pub mod Tests
use async_wal_db.Prelude.{
  ℕ, ◌%◌, ◌^◌, List, [], ◌∷◌, ◌++◌, ◌==◌, nat_eq, length, take, drop, get_or, if◌then◌else◌,
}
use async_wal_db.Errors.{Result, ok, err, checksum_mismatch}
use async_wal_db.Entry.{Bytes as ByteString}
use Bytes.{le_bytes, of_le_bytes}

pub record WalEntryHeader : Type 0 where
  pub length : ℕ
  pub checksum : ℕ
  pub version : ℕ

abbrev pub version : ℕ
version = 1

abbrev pub size : ℕ
size = 13

module _ (hash : ByteString → ℕ) where
  -- `data.len() as u64`
  unfoldable pub new : ByteString → WalEntryHeader
  new bytes = record { length = length bytes % 2 ^ 64; checksum = hash bytes; version = version }

  unfoldable pub validate : WalEntryHeader → ByteString → Result (Unit {0})
  validate h bytes =
      let actual_checksum = hash bytes in
      if actual_checksum == h.checksum
      then ok tt
      else err (checksum_mismatch h.checksum actual_checksum)

unfoldable pub to_bytes : WalEntryHeader → ByteString
to_bytes h = le_bytes 8 h.length ++ (le_bytes 4 h.checksum ++ (h.version ∷ []))

-- The argument is a `[u8; 13]`: the function is called on lists of that length only.
unfoldable pub from_bytes : ByteString → WalEntryHeader
from_bytes bytes = record {
  length = of_le_bytes (take 8 bytes);
  checksum = of_le_bytes (take 4 (drop 8 bytes));
  version = get_or bytes 12 0;
}
