-- ===== src/Frame/Fault.antt =====
-- A file whose device fails behind some bytes: reading never meets the end of the file.
use async_wal_db.Prelude.{ℕ, ◌≡◌, Option, none, some, ltb, leb, length, Bool-cases, inl, inr}
use async_wal_db.Errors.{Result, ok, err, panic, unfinished}
use async_wal_db.Entry.{Bytes, WalEntry}
use async_wal_db.Header
use async_wal_db.Header.{WalEntryHeader}
use async_wal_db.Frame.{
  Codec, fault, Reader, Read, got, unexpected_eof, failed, read_exact, read_end, Frame, header_eof,
  entry, decoded, checked, data_read, header_read, read_frame, isize_max,
}

-- What a read may come to if the device fails: bytes with more of the same kind, or the failure.
abbrev IsFaulty : Read → Type 0
IsFaulty (got b r) = r.tail ≡ fault
IsFaulty unexpected_eof = ⊥
IsFaulty failed = Unit

abbrev pub IsFaultyFrame : Frame → Type 0
IsFaultyFrame header_eof = ⊥
IsFaultyFrame (entry len e r) = r.tail ≡ fault
IsFaultyFrame f = Unit

read_exact-IsFaulty : (n : ℕ) (r : Reader) → r.tail ≡ fault → IsFaulty (read_exact n r)
unfolding read_exact read_end
read_exact-IsFaulty n r h = elim (Bool-cases (leb n (length r.bytes))) [
  | inl enough ↦ rw enough h
  | inr short ↦ rw (short, h) tt
]

decoded-IsFaultyFrame :
    (len : ℕ) (r : Reader) (o : Option WalEntry) → r.tail ≡ fault → IsFaultyFrame (decoded len r o)
unfolding decoded
decoded-IsFaultyFrame len r none h = tt
decoded-IsFaultyFrame len r (some e) h = h

checked-IsFaultyFrame :
    (c : Codec) (len : ℕ) (b : Bytes) (r : Reader) (x : Result (Unit {0}))
    → r.tail ≡ fault
    → IsFaultyFrame (checked c len b r x)
unfolding checked
checked-IsFaultyFrame c len b r (ok u) h = decoded-IsFaultyFrame len r (c.deserialize b) h
checked-IsFaultyFrame c len b r (err e) h = tt
checked-IsFaultyFrame c len b r panic h = tt
checked-IsFaultyFrame c len b r unfinished h = tt

data_read-IsFaultyFrame :
    (c : Codec) (header : WalEntryHeader) (x : Read)
    → IsFaulty x
    → IsFaultyFrame (data_read c header x)
unfolding data_read
data_read-IsFaultyFrame c header (got b r) h = checked-IsFaultyFrame c header.length b r _ h
data_read-IsFaultyFrame c header unexpected_eof h = elim h [ ]
data_read-IsFaultyFrame c header failed h = tt

header_read-IsFaultyFrame : (c : Codec) (x : Read) → IsFaulty x → IsFaultyFrame (header_read c x)
unfolding header_read
header_read-IsFaultyFrame c (got b r) h =
    elim (Bool-cases (ltb isize_max (Header.from_bytes b).length)) [
      | inl long ↦ rw long tt
      | inr fits ↦
          rw fits (data_read-IsFaultyFrame c (Header.from_bytes b) _ (read_exact-IsFaulty _ r h))
    ]
header_read-IsFaultyFrame c unexpected_eof h = elim h [ ]
header_read-IsFaultyFrame c failed h = tt

-- A round on such a file meets anything but the end of the file, and leaves such a file.
pub read_frame-IsFaultyFrame :
    (c : Codec) (r : Reader) → r.tail ≡ fault → IsFaultyFrame (read_frame c r)
unfolding read_frame
read_frame-IsFaultyFrame c r h = header_read-IsFaultyFrame c _ (read_exact-IsFaulty Header.size r h)
