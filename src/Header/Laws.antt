-- ===== src/Header/Laws.antt =====
-- The header's two encodings are inverse, and what `validate` accepts.
use async_wal_db.Prelude.{
  ℕ, ◌^◌, ◌<◌, ◌≡◌, refl, arith, nat_eq, length, take, drop, All, ◌↔◌, ◌≢◌, take-append-drop,
  length-take_le, length-drop, All-take, All-drop, All-append, drop-drop, get_or-eq-drop,
}
use async_wal_db.Errors.{ok, err, checksum_mismatch}
use async_wal_db.Entry.{Bytes as ByteString}
use async_wal_db.Header.{WalEntryHeader, size, new, validate, to_bytes, from_bytes}
use async_wal_db.Header.Bytes.{
  le_bytes, of_le_bytes, IsByte, le_bytes-IsByte, of_le_bytes-le_bytes, le_bytes-of_le_bytes,
}

-- The three fields fit the machine integers `u64`, `u32` and `u8`.
pub record InRange (h : WalEntryHeader) : Type 0 where
  pub length : h.length < 2 ^ 64
  pub checksum : h.checksum < 2 ^ 32
  pub version : IsByte h.version

-- Writing a header and reading it back gives the same header.
pub from_bytes-to_bytes : (h : WalEntryHeader) → InRange h → from_bytes (to_bytes h) ≡ h
unfolding from_bytes to_bytes le_bytes of_le_bytes
from_bytes-to_bytes h r = λ i. record {
  length = of_le_bytes-le_bytes 8 h.length r.length i;
  checksum = of_le_bytes-le_bytes 4 h.checksum r.checksum i;
  version = h.version;
}

le_bytes-of_length :
    (w : ℕ) (bs : ByteString) → length bs ≡ w → All IsByte bs → le_bytes w (of_le_bytes bs) ≡ bs
le_bytes-of_length w bs e b = rw (← e) (le_bytes-of_le_bytes bs b)

-- Any 13 bytes are the encoding of the header that is read from them.
pub to_bytes-from_bytes :
    (bs : ByteString) → length bs ≡ size → All IsByte bs → to_bytes (from_bytes bs) ≡ bs
unfolding from_bytes to_bytes
to_bytes-from_bytes bs e b = rw (
  le_bytes-of_length 8 (take 8 bs) (length-take_le 8 bs (omega arith)) (All-take IsByte 8 bs b),
  le_bytes-of_length 4 (take 4 (drop 8 bs))
      (length-take_le 4 (drop 8 bs) (omega (arith, length-drop 8 bs)))
      (All-take IsByte 4 (drop 8 bs) (All-drop IsByte 8 bs b)),
  get_or-eq-drop 12 bs 0 e,
  ← drop-drop 8 4 bs,
  take-append-drop 4 (drop 8 bs),
  take-append-drop 8 bs,
)

pub length-to_bytes : (h : WalEntryHeader) → length (to_bytes h) ≡ size
unfolding to_bytes le_bytes
length-to_bytes h = refl

pub to_bytes-IsByte : (h : WalEntryHeader) → IsByte h.version → All IsByte (to_bytes h)
unfolding to_bytes
to_bytes-IsByte h b =
    All-append IsByte (le_bytes 8 h.length) _ (le_bytes-IsByte 8 h.length)
      (All-append IsByte (le_bytes 4 h.checksum) _ (le_bytes-IsByte 4 h.checksum) (b, tt))

-- `validate` accepts exactly the bytes whose hash is the header's checksum.
pub validate_iff :
    (hash : ByteString → ℕ) (h : WalEntryHeader) (bytes : ByteString)
    → (validate hash h bytes ≡ ok tt) ↔ (hash bytes ≡ h.checksum)
unfolding validate
validate_iff hash h bytes = ground arith

pub validate-new :
    (hash : ByteString → ℕ) (bytes : ByteString) → validate hash (new hash bytes) bytes ≡ ok tt
unfolding validate new
validate-new hash bytes = ground arith

pub validate_refuses :
    (hash : ByteString → ℕ) (h : WalEntryHeader) (bytes : ByteString)
    → hash bytes ≢ h.checksum
    → validate hash h bytes ≡ err (checksum_mismatch h.checksum (hash bytes))
unfolding validate
validate_refuses hash h bytes ne = ground arith
