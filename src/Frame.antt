-- ===== src/Frame.antt =====
-- The log file as bytes: what `drain_and_flush` of src/wal_storage.rs writes for one entry, and the
-- reads by which the loops of `recover_with_validation` and `checkpoint` of src/database.rs take
-- one entry off the file. `bincode` and `crc32fast` are other packages: a parameter, `Codec`.
pub mod RoundTrip
pub mod Crash
pub mod Size
pub mod Fault
pub mod Damage
pub mod Sample
pub mod Tests
use async_wal_db.Prelude.{
  ℕ, ◌-◌, ◌^◌, ◌<◌, ◌≡◌, Option, none, some, ◌++◌, ltb, leb, length, take, drop, All, if◌then◌else◌,
}
use async_wal_db.Errors.{WalError, Result, ok, err, panic, unfinished}
use async_wal_db.Entry.{Bytes, WalEntry}
use async_wal_db.Header
use async_wal_db.Header.{WalEntryHeader}
use async_wal_db.Header.Bytes.{IsByte}

-- `bincode::serialize`, `bincode::deserialize::<WalEntry>` and `crc32fast::hash`.
pub record Codec : Type 0 where
  pub serialize : WalEntry → Option Bytes
  pub deserialize : Bytes → Option WalEntry
  pub hash : Bytes → ℕ

-- What their documentation promises: what is written is read back, it is bytes, a `Vec` holds at
-- most `isize::MAX` of them, and a CRC32 is a `u32`.
pub record IsLawful (c : Codec) : Type 0 where
  pub round_trip : (e : WalEntry) (b : Bytes) → c.serialize e ≡ some b → c.deserialize b ≡ some e
  pub writes_bytes : (e : WalEntry) (b : Bytes) → c.serialize e ≡ some b → All IsByte b
  pub fits : (e : WalEntry) (b : Bytes) → c.serialize e ≡ some b → length b < 2 ^ 63
  pub hash_fits : (b : Bytes) → c.hash b < 2 ^ 32

-- The header, then the data.
frame_of : Codec → Option Bytes → Option Bytes
frame_of c none = none
frame_of c (some encoded) = some (Header.to_bytes (Header.new c.hash encoded) ++ encoded)

-- The body of the loop of `drain_and_flush`: `none` is an error of the serialization.
unfoldable pub frame : Codec → WalEntry → Option Bytes
unfolding frame_of
frame c e = frame_of c (c.serialize e)

-- What a read past the last byte comes to: the end of the file, or an error of the device.
pub data Tail : Type 0 where
  eof fault : Tail

-- An open file behind a `BufReader`: the bytes that are still to be read.
pub record Reader : Type 0 where
  pub bytes : Bytes
  pub tail : Tail

pub data Read : Type 0 where
  got : Bytes → Reader → Read
  unexpected_eof : Read
  failed : Read

read_end : Tail → Read
read_end eof = unexpected_eof
read_end fault = failed

-- `AsyncReadExt::read_exact` into a buffer of `n` bytes
unfoldable pub read_exact : ℕ → Reader → Read
unfolding read_end
read_exact n r =
    if leb n (length r.bytes)
    then got (take n r.bytes) (record r { bytes = drop n r.bytes })
    else read_end r.tail

-- What one round of the reading loop meets.
pub data Frame : Type 0 where
  header_eof : Frame  -- `UnexpectedEof` in the header
  data_eof : Frame  -- `UnexpectedEof` in the data
  read_error : Frame  -- any other error of a read
  too_long : Frame  -- `buffer.resize` panics
  invalid : WalError → Frame  -- `header.validate` refuses
  undecodable : Frame  -- `bincode::deserialize` refuses
  entry : (len : ℕ) → WalEntry → Reader → Frame

-- `isize::MAX`: a `Vec` of more bytes is a "capacity overflow", which panics.
abbrev pub isize_max : ℕ
isize_max = 2 ^ 63 - 1

decoded : ℕ → Reader → Option WalEntry → Frame
decoded len r none = undecodable
decoded len r (some e) = entry len e r

checked : Codec → ℕ → Bytes → Reader → Result (Unit {0}) → Frame
unfolding decoded
checked c len buffer r (ok _) = decoded len r (c.deserialize buffer)
checked c len buffer r (err e) = invalid e
checked c len buffer r panic = too_long
checked c len buffer r unfinished = too_long

unfoldable pub data_read : Codec → WalEntryHeader → Read → Frame
unfolding checked
data_read c header (got buffer r) =
    checked c header.length buffer r (Header.validate c.hash header buffer)
data_read c header unexpected_eof = data_eof
data_read c header failed = read_error

header_read : Codec → Read → Frame
unfolding data_read
header_read c (got header_bytes r) =
    let header = Header.from_bytes header_bytes in
    if ltb isize_max header.length
    then too_long
    else data_read c header (read_exact header.length r)
header_read c unexpected_eof = header_eof
header_read c failed = read_error

unfoldable pub read_frame : Codec → Reader → Frame
unfolding header_read
read_frame c r = header_read c (read_exact Header.size r)
