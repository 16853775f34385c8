-- ===== src/Frame/Size.antt =====
-- How many bytes a read takes.
use async_wal_db.Prelude.{
  ℕ, ◌+◌, ◌≡◌, arith, length, length-drop, ap, refl, Option, none, some, ltb, Bool-cases, inl, inr,
}
use async_wal_db.Errors.{Result, ok, err, panic, unfinished}
use async_wal_db.Entry.{Bytes, WalEntry}
use async_wal_db.Header
use async_wal_db.Header.{WalEntryHeader}
use async_wal_db.Frame.{
  Codec, Reader, Read, got, unexpected_eof, failed, read_exact, read_end, entry, decoded, checked,
  data_read, header_read, read_frame, isize_max,
}

read_exact_takes :
    (n : ℕ) (r r' : Reader) (b : Bytes)
    → read_exact n r ≡ got b r'
    → length r'.bytes + n ≡ length r.bytes
unfolding read_exact read_end
read_exact_takes n r r' b h = ground (arith, length-drop n r.bytes)

decoded_inv :
    (n len : ℕ) (r r' : Reader) (o : Option WalEntry) (e : WalEntry)
    → decoded n r o ≡ entry len e r'
    → (n ≡ len) × (r ≡ r')
unfolding decoded
decoded_inv n len r r' none e h = absurd (cc)
decoded_inv n len r r' (some x) e h = ground arith

checked_inv :
    (c : Codec) (n len : ℕ) (b : Bytes) (r r' : Reader) (x : Result (Unit {0})) (e : WalEntry)
    → checked c n b r x ≡ entry len e r'
    → (n ≡ len) × (r ≡ r')
unfolding checked
checked_inv c n len b r r' (ok u) e h = decoded_inv n len r r' (c.deserialize b) e h
checked_inv c n len b r r' (err x) e h = absurd (cc)
checked_inv c n len b r r' panic e h = absurd (cc)
checked_inv c n len b r r' unfinished e h = absurd (cc)

-- The data of an entry: all of what was read.
record Got (n : ℕ) (r' : Reader) (x : Read) : Type 0 where
  bytes : Bytes
  is_got : x ≡ got bytes r'

data_read_inv :
    (c : Codec) (h : WalEntryHeader) (x : Read) (len : ℕ) (e : WalEntry) (r' : Reader)
    → data_read c h x ≡ entry len e r'
    → (h.length ≡ len) × Got len r' x
unfolding data_read
data_read_inv c h (got b r) len e r' q =
    let (same, here) = checked_inv c h.length len b r r' (Header.validate c.hash h b) e q in
    (same, record { bytes = b; is_got = ap (got b) here })
data_read_inv c h unexpected_eof len e r' q = absurd (cc)
data_read_inv c h failed len e r' q = absurd (cc)

header_read_takes :
    (c : Codec) (x : Read) (len : ℕ) (e : WalEntry) (r' : Reader)
    → header_read c x ≡ entry len e r'
    → (r : Reader) × Got Header.size r x × (length r'.bytes + len ≡ length r.bytes)
unfolding header_read
header_read_takes c (got b r) len e r' q =
    elim (Bool-cases (ltb isize_max (Header.from_bytes b).length)) [
      | inl big ↦ absurd (cc (big))
      | inr small ↦
          let (same, body) =
            data_read_inv c (Header.from_bytes b) (read_exact (Header.from_bytes b).length r) len e
              r' (ground arith) in
          (
            r,
            record { bytes = b; is_got = refl },
            omega
                (arith, read_exact_takes (Header.from_bytes b).length r r' body.bytes body.is_got),
          )
    ]
header_read_takes c unexpected_eof len e r' q = absurd (cc)
header_read_takes c failed len e r' q = absurd (cc)

-- An entry takes its header and its length off the file.
pub read_frame_takes :
    (c : Codec) (r r' : Reader) (len : ℕ) (e : WalEntry)
    → read_frame c r ≡ entry len e r'
    → Header.size + len + length r'.bytes ≡ length r.bytes
unfolding read_frame
read_frame_takes c r r' len e h =
    let (r1, header, rest) = header_read_takes c (read_exact Header.size r) len e r' h in
    omega (arith, read_exact_takes Header.size r r1 header.bytes header.is_got)
